-- ===== src/IbltIterator.antt =====
-- The type `IBLTIterator` of src/iblt.rs: it peels one key after another off a table.
pub mod Replay
pub mod Endless
pub mod Buckets
pub mod Single
use defiads.Prelude.{
  ℕ, zero, suc, ◌+◌, Bool, true, false, not, ◌&&◌, Option, none, some, List, [], ◌∷◌, ◌++◌, ◌==◌,
  if◌then◌else◌, get_or, any, bit_xor, Run, ok, ◌>>=◌,
}
use defiads.Prelude.Int32.{i32_sub, abs_is_one}
use defiads.IbltKey.{IbltKey}
use defiads.Iblt.{
  Bucket, Iblt, Entry, inserted, deleted, update, default_bucket, keyhash, buckets_of,
}

-- What `next` yields: `Ok` of an entry, or the error `IncompleteIteration`.
pub data Item {ℓ} (K : Type ℓ) : Type ℓ where
  found : Entry K → Item K
  incomplete_iteration : Item K

pub record IbltIterator {ℓ} (K : Type ℓ) : Type ℓ where
  pub iblt : Iblt K
  pub queue : List ℕ
  pub incomplete : Bool

-- What `for entry in iblt.into_iter()` saw, left at the first error: the entries, whether an error
-- ended them, and the table that is left.
pub record Decoded {ℓ} (K : Type ℓ) : Type ℓ where
  pub entries : List (Entry K)
  pub failed : Bool
  pub rest : Iblt K

module _ {ℓ} {K : Type ℓ} ⦃key : IbltKey K⦄ where
  -- The test on a bucket that goes into the queue.
  abbrev pub is_pure : Iblt K → Bucket K → Bool
  is_pure t b = abs_is_one b.count && b.hashsum == keyhash t b.keysum

  -- The loop of `new`, from the bucket with index `i` on.
  unfoldable pub pure_from : Iblt K → ℕ → List (Bucket K) → List ℕ
  pure_from t i [] = []
  pure_from t i (b ∷ bs) =
      let rest = pure_from t (suc i) bs in if is_pure t b then i ∷ rest else rest

  unfoldable pub new : Iblt K → IbltIterator K
  unfolding pure_from
  new t = record { iblt = t; queue = pure_from t 0 t.buckets; incomplete = false }

  abbrev pub peel_bucket : K → ℕ → ℕ → Bucket K → Bucket K
  peel_bucket x h c b = record {
    keysum = key.bitxor b.keysum x;
    hashsum = bit_xor b.hashsum h;
    count = i32_sub b.count c;
  }

  -- The loop of `next` over the buckets of a key, with the queue.
  unfoldable pub peel_all : K → ℕ → ℕ → List ℕ → Iblt K → List ℕ → Iblt K × List ℕ
  peel_all x h c [] t queue = (t, queue)
  peel_all x h c (n ∷ ns) t queue =
      let t' = record t { buckets = update (peel_bucket x h c) n t.buckets } in
      peel_all x h c ns t'
        (if is_pure t' (get_or t'.buckets n default_bucket) then queue ++ n ∷ [] else queue)

  abbrev pub yielded : K → ℕ → Entry K
  yielded x c = if c == 1 then inserted x else deleted x

  -- One pass of the `while` loop, for a bucket with one key.
  unfoldable pub peel : Iblt K → Bucket K → List ℕ → Run (Option (Item K) × IbltIterator K)
  unfolding peel_all
  peel t b queue = do
    ns ← buckets_of t b.keysum
    let (t', queue') = peel_all b.keysum (keyhash t b.keysum) b.count ns t queue
    ok (
      some (found (yielded b.keysum b.count)),
      record { iblt = t'; queue = queue'; incomplete = false },
    )

  -- The loop behind the `while` loop.
  unfoldable pub finish : Iblt K → Option (Item K) × IbltIterator K
  finish t =
      if any (λ (b : Bucket K). not (b.count == 0)) t.buckets
      then (some incomplete_iteration, record { iblt = t; queue = []; incomplete = true })
      else (none, record { iblt = t; queue = []; incomplete = false })

  -- The `while` loop: buckets that no longer count one key are passed over.
  unfoldable pub next_from : Iblt K → List ℕ → Run (Option (Item K) × IbltIterator K)
  next_from t [] = ok (finish t)
  next_from t (i ∷ queue) =
      let b = get_or t.buckets i default_bucket in
      let rest = next_from t queue in if abs_is_one b.count then peel t b queue else rest

  unfoldable pub next : IbltIterator K → Run (Option (Item K) × IbltIterator K)
  next it = if it.incomplete then ok (none, it) else next_from it.iblt it.queue

  abbrev pub prepend : Entry K → Option (Decoded K) → Option (Decoded K)
  prepend e none = none
  prepend e (some d) = some (record d { entries = e ∷ d.entries })

  -- That loop; `none` means that the fuel ran out.
  unfoldable pub decode : ℕ → IbltIterator K → Run (Option (Decoded K))
  decode zero it = ok none
  decode (suc fuel) it = do
    r ← next it
    elim (r.0) [
      | none ↦ ok (some (record { entries = []; failed = false; rest = r.1.iblt }))
      | some (found e) ↦ decode fuel r.1 >>= λ d. ok (prepend e d)
      | some incomplete_iteration ↦
          ok (some (record { entries = []; failed = true; rest = r.1.iblt }))
    ]
