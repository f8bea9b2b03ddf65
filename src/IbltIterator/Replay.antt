-- ===== src/IbltIterator/Replay.antt =====
-- Each entry that the iterator yields is taken out of its table, so that the entries put back into
-- what is left give the table that was decoded.
use defiads.Prelude.{
  ℕ, zero, suc, true, false, not, Option, none, some, List, [], ◌∷◌, ◌≡◌, refl, arith, ◌==◌, get_or,
  any, All, ap, ◌∙◌, sym, subst, inl, inr, Bool-cases, ok, Returns, ◌⊎◌, length, ==_iff,
}
use mathlib.Core.Path.{fun_ext}
use mathlib.Core.Bool.{false≢true}
use defiads.Prelude.Int32.{minus_one, abs_is_one}
use defiads.IbltKey.{IbltKey}
use defiads.BucketIterator.Dedup.{positions-eq-dedup}
use defiads.Iblt.{
  Bucket, Iblt, Entry, inserted, deleted, update_all, default_bucket, keyhash, insert_bucket,
}
use defiads.Iblt.Entries.{Bucket_path, opposite, IsUsable, after, spots, after-IsUsable, after_back}
use defiads.Iblt.Order.{after_all, after-after_all}
use defiads.IbltIterator.{
  Item, found, incomplete_iteration, IbltIterator, Decoded, peel_bucket, peel_all, yielded, peel,
  finish, next_from, next, prepend, decode,
}

pub abs_is_one_cases : (c : ℕ) → abs_is_one c ≡ true → (c ≡ 1) ⊎ (c ≡ minus_one)
abs_is_one_cases c h = ground arith

module _ {ℓ} {K : Type ℓ} ⦃key : IbltKey K⦄ where
  pub peel_all-table :
      (x : K) (h c : ℕ) (ns : List ℕ) (t : Iblt K) (queue : List ℕ)
      → (peel_all x h c ns t queue).0
        ≡ record t { buckets = update_all (peel_bucket x h c) ns t.buckets }
  unfolding peel_all update_all
  peel_all-table x h c [] t queue = refl
  peel_all-table x h c (n ∷ ns) t queue = peel_all-table x h c ns _ _

  peel_minus_one :
      (x : K) (h : ℕ) (b : Bucket K) → peel_bucket x h minus_one b ≡ insert_bucket x h b
  peel_minus_one x h b = Bucket_path refl refl (omega arith)

  -- Peeling a bucket that counts one key makes the opposite of the entry that is yielded.
  pub peel_table :
      (t : Iblt K) (x : K) (c : ℕ)
      → abs_is_one c ≡ true
      → record t { buckets = update_all (peel_bucket x (keyhash t x) c) (spots t x) t.buckets }
        ≡ after t (opposite (yielded x c))
  unfolding after
  peel_table t x c one = elim (abs_is_one_cases c one) [
    | inl e ↦ rw e refl
    | inr e ↦ rw e (
        ap (λ f. record t { buckets = update_all f (spots t x) t.buckets })
          (fun_ext (peel_minus_one x (keyhash t x))))
  ]

  -- What one call of `next` does to the table `t`.
  abbrev Peels : Iblt K → Option (Item K) × IbltIterator K → Type ℓ
  Peels t (none, it) = (it.iblt ≡ t) × All (λ b. b.count ≡ 0) it.iblt.buckets
  Peels t (some (found e), it) = (it.iblt ≡ after t (opposite e)) × (it.incomplete ≡ false)
  Peels t (some incomplete_iteration, it) = it.iblt ≡ t

  peel-Peels :
      (t : Iblt K) (b : Bucket K) (queue : List ℕ)
      → abs_is_one b.count ≡ true
      → IsUsable t
      → Returns (peel t b queue) (Peels t)
  unfolding peel
  peel-Peels t b queue one u =
      let x = b.keysum in
      let r = peel_all x (keyhash t x) b.count (spots t x) t queue in
      (
        (some (found (yielded x b.count)), record { iblt = r.0; queue = r.1; incomplete = false }),
        rw (positions-eq-dedup (length t.buckets) t.ksequence x u.nonempty u.few) refl,
        (
          peel_all-table x (keyhash t x) b.count (spots t x) t queue ∙ peel_table t x b.count one,
          refl,
        ),
      )

  any_count :
      (bs : List (Bucket K)) → any (λ b. not (b.count == 0)) bs ≡ false → All (λ b. b.count ≡ 0) bs
  any_count [] h = tt
  any_count (b ∷ bs) h = elim (Bool-cases (b.count == 0)) [
    | inl zero_count ↦ ((==_iff b.count 0).0 zero_count, any_count bs (rw zero_count at h))
    | inr other ↦ absurd (false≢true (sym (rw other at h)))
  ]

  finish-Peels : (t : Iblt K) → Peels t (finish t)
  unfolding finish
  finish-Peels t = elim (Bool-cases (any (λ b. not (b.count == 0)) t.buckets)) [
    | inl left ↦ rw left refl
    | inr clean ↦ rw clean (refl, any_count t.buckets clean)
  ]

  next_from-Peels :
      (t : Iblt K) (queue : List ℕ) → IsUsable t → Returns (next_from t queue) (Peels t)
  unfolding next_from
  next_from-Peels t [] u = (finish t, refl, finish-Peels t)
  next_from-Peels t (i ∷ queue) u =
      elim (Bool-cases (abs_is_one (get_or t.buckets i default_bucket).count)) [
        | inl one ↦ rw one (peel-Peels t (get_or t.buckets i default_bucket) queue one u)
        | inr other ↦ rw other (next_from-Peels t queue u)
      ]

  -- What a decoding shows of the table `t` that it began with.
  abbrev pub Replays : Iblt K → Option (Decoded K) → Type ℓ
  Replays t none = Unit
  Replays t (some d) =
      (after_all d.rest d.entries ≡ t) × (d.failed ≡ false → All (λ b. b.count ≡ 0) d.rest.buckets)

  opposite-opposite : (e : Entry K) → opposite (opposite e) ≡ e
  opposite-opposite (inserted x) = refl
  opposite-opposite (deleted x) = refl

  -- An entry that was peeled off, put back.
  put_back : (t t' : Iblt K) (e : Entry K) → IsUsable t → t' ≡ after t (opposite e) → after t' e ≡ t
  put_back t t' e u p =
      ap (λ s. after s e) p
      ∙ ap (after (after t (opposite e))) (sym (opposite-opposite e))
      ∙ after_back (opposite e) u

  Replays-prepend :
      (t t' : Iblt K) (e : Entry K) (d : Option (Decoded K))
      → after t' e ≡ t
      → Replays t' d
      → Replays t (prepend e d)
  Replays-prepend t t' e none p h = tt
  Replays-prepend t t' e (some d) p h =
      (sym (after-after_all d.rest e d.entries) ∙ ap (λ s. after s e) h.0 ∙ p, h.1)

  -- The part of `decode` behind the call of `next`.
  decode_step :
      (fuel : ℕ) (it : IbltIterator K) (r : Option (Item K) × IbltIterator K)
      → next it ≡ ok r
      → IsUsable it.iblt
      → Peels it.iblt r
      → ((it' : IbltIterator K)
          → IsUsable it'.iblt
          → it'.incomplete ≡ false
          → Returns (decode fuel it') (Replays it'.iblt))
      → Returns (decode (suc fuel) it) (Replays it.iblt)
  unfolding decode
  decode_step fuel it (none, it') e u p ih =
      let d : Decoded K = record { entries = []; failed = false; rest = it'.iblt } in
      (some d, rw e refl, (p.0, λ _. p.1))
  decode_step fuel it (some (found entry), it') e u p ih =
      let usable : IsUsable it'.iblt =
        subst IsUsable (sym p.0) (after-IsUsable (opposite entry) u) in
      let (d, run, replays) = ih it' usable p.1 in
      (
        prepend entry d,
        rw (e, run) refl,
        Replays-prepend it.iblt it'.iblt entry d (put_back it.iblt it'.iblt entry u p.0) replays,
      )
  decode_step fuel it (some incomplete_iteration, it') e u p ih =
      let d : Decoded K = record { entries = []; failed = true; rest = it'.iblt } in
      (some d, rw e refl, (p, λ f. absurd (false≢true (sym f))))

  -- Decoding a usable table never panics. Where it ends, by an error or not, the entries that were
  -- yielded, put back into the table that is left, give the table that it began with; where it ended
  -- with no error, every count of the table that is left is zero.
  pub decode-Replays :
      (fuel : ℕ) (it : IbltIterator K)
      → IsUsable it.iblt
      → it.incomplete ≡ false
      → Returns (decode fuel it) (Replays it.iblt)
  decode-Replays zero it u open_still = (none, unfold decode in refl, tt)
  decode-Replays (suc fuel) it u open_still =
      let (r, run, p) = next_from-Peels it.iblt it.queue u in
      let called : next it ≡ ok r = unfold next in rw open_still run in
      decode_step fuel it r called u p (decode-Replays fuel)
