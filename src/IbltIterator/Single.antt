-- ===== src/IbltIterator/Single.antt =====
-- A table that holds one key is decoded.
use defiads.Prelude.{
  ok_injective, ℕ, suc, ◌<◌, ◌≤◌, true, false, ◌&&◌, some, List, [], ◌∷◌, ◌≡◌, refl, ap₂, arith,
  ◌==◌, get_or, ap, ◌∙◌, sym, subst, inl, inr, Bool-cases, ok, length, ==_iff, contains,
  contains_All, zero-bit_xor,
}
use mathlib.Core.Bool.{false≢true}
use defiads.Prelude.Int32.{minus_one, abs_is_one}
use defiads.IbltKey.{IbltKey, default-bitxor}
use defiads.BucketIterator.{k_max, selected}
use defiads.BucketIterator.Dedup.{positions-eq-dedup}
use defiads.BucketIterator.Rising.{IsBucketsOf, positions-IsBucketsOf}
use defiads.Iblt.{Bucket, Iblt, Entry, Sip, inserted, deleted, default_bucket, keyhash}
use defiads.Iblt.Updates.{length-update_all}
use defiads.Iblt.Entries.{
  Bucket_path, key_of, opposite, entry_bucket, IsUsable, after, spots, after-IsUsable, after_back,
}
use defiads.Iblt.Fresh.{fresh, fresh-IsUsable, length-generate_ksequence}
use defiads.IbltIterator.Replay.{peel_all-table, peel_table}
use defiads.IbltIterator.{
  found, is_pure, pure_from, new, peel_all, yielded, peel, next_from, next, decode,
}
use defiads.IbltIterator.Buckets.{
  get_or-update_all_in, get_or-update_all_out, get_or-replicate, pure_from-contains, idle, finished,
  selects,
}

module _ {ℓ} {K : Type ℓ} ⦃key : IbltKey K⦄ where
  -- The count of a bucket with one entry.
  abbrev count_of : Entry K → ℕ
  count_of (inserted x) = 1
  count_of (deleted x) = minus_one

  filled :
      (e : Entry K) (h : ℕ)
      → entry_bucket e h default_bucket
        ≡ record { keysum = key_of e; hashsum = h; count = count_of e }
  filled (inserted x) h = Bucket_path (default-bitxor x) (zero-bit_xor h) refl
  filled (deleted x) h = Bucket_path (default-bitxor x) (zero-bit_xor h) refl

  yields : (e : Entry K) → yielded (key_of e) (count_of e) ≡ e
  yields (inserted x) = refl
  yields (deleted x) = refl

  one_count : (e : Entry K) → abs_is_one (count_of e) ≡ true
  one_count (inserted x) = refl
  one_count (deleted x) = refl

  -- An empty table with one entry.
  module _ (sip : Sip) (m k k0 k1 : ℕ) (e : Entry K) (pos : 0 < m) (few : k ≤ k_max) where
    abbrev empty : Iblt K
    empty = fresh sip m k k0 k1

    abbrev single : Iblt K
    single = after empty e

    abbrev ns : List ℕ
    ns = spots empty (key_of e)

    usable : IsUsable empty
    usable = fresh-IsUsable sip m k k0 k1 pos few

    ns-IsBucketsOf :
        IsBucketsOf
          (length empty.buckets)
          (selected (length empty.buckets) empty.ksequence (key_of e))
          ns
    ns-IsBucketsOf =
        let r =
          positions-IsBucketsOf (length empty.buckets) empty.ksequence (key_of e) usable.nonempty
            usable.few in
        subst
          (IsBucketsOf (length empty.buckets)
            (selected (length empty.buckets) empty.ksequence (key_of e)))
          (ok_injective (
            sym r.1
            ∙ positions-eq-dedup (length empty.buckets) empty.ksequence (key_of e) usable.nonempty
                usable.few))
          r.2

    abbrev full : Bucket K
    full = record { keysum = key_of e; hashsum = keyhash empty (key_of e); count = count_of e }

    at_spot : (i : ℕ) → contains ns i ≡ true → get_or single.buckets i default_bucket ≡ full
    unfolding after
    at_spot i c =
        get_or-update_all_in (entry_bucket e (keyhash empty (key_of e))) default_bucket ns i
          empty.buckets ns-IsBucketsOf.rising ns-IsBucketsOf.inside c
        ∙ ap (entry_bucket e (keyhash empty (key_of e)))
            (get_or-replicate (λ b. b) default_bucket m i)
        ∙ filled e (keyhash empty (key_of e))

    off_spot :
        (i : ℕ) → contains ns i ≡ false → get_or single.buckets i default_bucket ≡ default_bucket
    unfolding after
    off_spot i c =
        get_or-update_all_out (entry_bucket e (keyhash empty (key_of e))) default_bucket ns i
          empty.buckets c
        ∙ get_or-replicate (λ b. b) default_bucket m i

    -- The table that is left when the entry is peeled off.
    peeled :
        (b : Bucket K) (queue : List ℕ)
        → b ≡ full
        → (rest : List ℕ) × (peel single b queue
            ≡ ok (some (found e), record { iblt = empty; queue = rest; incomplete = false }))
    unfolding peel
    peeled b queue p =
        let x = key_of e in
        let u = after-IsUsable e usable in
        let r = peel_all x (keyhash single x) (count_of e) (spots single x) single queue in
        let left =
          peel_all-table x (keyhash single x) (count_of e) (spots single x) single queue
          ∙ peel_table single x (count_of e) (one_count e)
          ∙ ap (λ d. after single (opposite d)) (yields e)
          ∙ after_back e usable in
        subst
          (λ c.
            (rest : List ℕ) × (peel single c queue
              ≡ ok (some (found e), record { iblt = empty; queue = rest; incomplete = false })))
          (sym p)
          (rw (positions-eq-dedup (length single.buckets) single.ksequence x u.nonempty u.few) (
            r.1,
            ap₂
                (λ d (t : Iblt K).
                  ok (some (found d), record { iblt = t; queue = r.1; incomplete = false }))
                (yields e) left,
          ))

    -- The loop reaches a bucket of the key.
    reaches :
        (queue : List ℕ) (i : ℕ)
        → contains queue i ≡ true
        → contains ns i ≡ true
        → (rest : List ℕ) × (next_from single queue
            ≡ ok (some (found e), record { iblt = empty; queue = rest; incomplete = false }))
    unfolding next_from
    reaches [] i c s = absurd (false≢true c)
    reaches (j ∷ queue) i c s = elim (Bool-cases (contains ns j)) [
      | inl here ↦
          let one : abs_is_one (get_or single.buckets j default_bucket).count ≡ true =
            ap (λ (b : Bucket K). abs_is_one b.count) (at_spot j here) ∙ one_count e in
          let r = peeled (get_or single.buckets j default_bucket) queue (at_spot j here) in
          (r.0, rw one r.1)
      | inr elsewhere ↦
          let skipped : abs_is_one (get_or single.buckets j default_bucket).count ≡ false =
            ap (λ (b : Bucket K). abs_is_one b.count) (off_spot j elsewhere) in
          let further : contains queue i ≡ true = elim (Bool-cases (i == j)) [
            | inl same ↦
                absurd
                  (false≢true (sym elsewhere ∙ ap (contains ns) (sym ((==_iff i j).0 same)) ∙ s))
            | inr differs ↦ rw differs at c
          ] in
          let r = reaches queue i further s in (r.0, rw skipped r.1)
    ]

    starts : (i : ℕ) → contains ns i ≡ true → contains (new single).queue i ≡ true
    unfolding new after
    starts i c =
        let inside = contains_All (λ n. n < length empty.buckets) ns i ns-IsBucketsOf.inside c in
        let same = length-update_all (entry_bucket e (keyhash empty (key_of e))) ns empty.buckets in
        let small : i < length single.buckets = omega (arith, inside, same) in
        let pure_one : is_pure single (get_or single.buckets i default_bucket) ≡ true =
          ap (is_pure single) (at_spot i c)
          ∙ ap₂ (λ a b. a && b) (one_count e)
              ((==_iff (keyhash empty (key_of e)) (keyhash empty (key_of e))).1 refl) in
        subst (λ n. contains (pure_from single 0 single.buckets) n ≡ true) (omega arith)
          (pure_from-contains single 0 i single.buckets small pure_one)

    spot : 0 < k → (i : ℕ) × (contains ns i ≡ true)
    spot some_hash =
        let s =
          selects (length empty.buckets) empty.ksequence (key_of e)
            (omega (arith, some_hash, length-generate_ksequence sip k k0 k1)) in
        (s.0, ns-IsBucketsOf.exact s.0 ∙ s.1)

  -- An empty table with at least one bucket and one to six hash functions, and one key in it, inserted
  -- or deleted: its decoding ends, after at most two calls, yields that key as it is, and nothing else,
  -- without an error, and leaves the empty table.
  pub decode-single :
      (sip : Sip) (m k k0 k1 fuel : ℕ) (e : Entry K)
      → 0 < m
      → 0 < k
      → k ≤ k_max
      → decode (suc (suc fuel)) (new (after (fresh sip m k k0 k1) e))
        ≡ ok (some (record { entries = e ∷ []; failed = false; rest = fresh sip m k k0 k1 }))
  unfolding decode next new
  decode-single sip m k k0 k1 fuel e pos some_hash few =
      let (i, c) = spot sip m k k0 k1 e pos few some_hash in
      let t = after (fresh sip m k k0 k1) e in
      let r =
        reaches sip m k k0 k1 e pos few (new t).queue i (starts sip m k k0 k1 e pos few i c) c in
      let ends =
        idle ⦃key = key⦄ m (fresh sip m k k0 k1) r.0 refl
        ∙ ap ok (finished m (fresh sip m k k0 k1) refl) in
      rw (r.1, ends) refl
