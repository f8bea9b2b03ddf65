-- ===== src/Iblt/Minus.antt =====
-- `substract` bucket by bucket, and how it meets single entries: one made in this table stays, one
-- made in the other table turns into its opposite.
use defiads.Prelude.{
  ℕ, zero, suc, ◌≡◌, refl, List, [], ◌∷◌, arith, ==_iff, length, ap, ap₂, ◌∙◌, sym, All,
  bit_xor_assoc, ok,
}
use defiads.IbltKey.{IbltKey, bitxor_right_comm}
use defiads.BucketIterator.{sort, selected}
use defiads.BucketIterator.Dedup.{dedup}
use defiads.Iblt.{
  Bucket, Iblt, Entry, inserted, deleted, update, update_all, keyhash, substract_bucket,
  substract_buckets, substract,
}
use defiads.Iblt.Updates.{length-update, length-update_all, update_All}
use defiads.Iblt.Entries.{
  Bucket_path, bit_xor_right_comm, opposite, entry_bucket, entry_bucket_IsCounted, IsCounted,
  IsUsable, key_of, spots, after,
}

module _ {ℓ} {K : Type ℓ} ⦃key : IbltKey K⦄ where
  substract_entry_left :
      (e : Entry K) (h : ℕ) (b ob : Bucket K)
      → IsCounted ob
      → substract_bucket (entry_bucket e h b) ob ≡ entry_bucket e h (substract_bucket b ob)
  substract_entry_left (inserted x) h b ob c =
      Bucket_path (bitxor_right_comm b.keysum x ob.keysum)
        (bit_xor_right_comm b.hashsum h ob.hashsum) (omega arith)
  substract_entry_left (deleted x) h b ob c =
      Bucket_path (bitxor_right_comm b.keysum x ob.keysum)
        (bit_xor_right_comm b.hashsum h ob.hashsum) (omega arith)

  substract_entry_right :
      (e : Entry K) (h : ℕ) (b ob : Bucket K)
      → IsCounted ob
      → substract_bucket b (entry_bucket e h ob)
        ≡ entry_bucket (opposite e) h (substract_bucket b ob)
  substract_entry_right (inserted x) h b ob c =
      Bucket_path (sym (key.bitxor_assoc b.keysum ob.keysum x))
        (sym (bit_xor_assoc b.hashsum ob.hashsum h)) (omega arith)
  substract_entry_right (deleted x) h b ob c =
      Bucket_path (sym (key.bitxor_assoc b.keysum ob.keysum x))
        (sym (bit_xor_assoc b.hashsum ob.hashsum h)) (omega arith)

  module _ (e : Entry K) (h : ℕ) where
    substract_update_left :
        (n : ℕ) (bs obs : List (Bucket K))
        → All IsCounted obs
        → substract_buckets (update (entry_bucket e h) n bs) obs
          ≡ update (entry_bucket e h) n (substract_buckets bs obs)
    unfolding update substract_buckets
    substract_update_left n [] obs c = refl
    substract_update_left zero (b ∷ bs) [] c = refl
    substract_update_left (suc n) (b ∷ bs) [] c = refl
    substract_update_left zero (b ∷ bs) (ob ∷ obs) c =
        ap (λ d. d ∷ substract_buckets bs obs) (substract_entry_left e h b ob c.0)
    substract_update_left (suc n) (b ∷ bs) (ob ∷ obs) c =
        ap (◌∷◌ (substract_bucket b ob)) (substract_update_left n bs obs c.1)

    substract_update_right :
        (n : ℕ) (bs obs : List (Bucket K))
        → All IsCounted obs
        → length bs ≡ length obs
        → substract_buckets bs (update (entry_bucket e h) n obs)
          ≡ update (entry_bucket (opposite e) h) n (substract_buckets bs obs)
    unfolding update substract_buckets
    substract_update_right n [] [] c l = refl
    substract_update_right n [] (ob ∷ obs) c l = absurd (omega arith)
    substract_update_right n (b ∷ bs) [] c l = absurd (omega arith)
    substract_update_right zero (b ∷ bs) (ob ∷ obs) c l =
        ap (λ d. d ∷ substract_buckets bs obs) (substract_entry_right e h b ob c.0)
    substract_update_right (suc n) (b ∷ bs) (ob ∷ obs) c l =
        ap (◌∷◌ (substract_bucket b ob)) (substract_update_right n bs obs c.1 (omega arith))

    substract_update_all_left :
        (ns : List ℕ) (bs obs : List (Bucket K))
        → All IsCounted obs
        → substract_buckets (update_all (entry_bucket e h) ns bs) obs
          ≡ update_all (entry_bucket e h) ns (substract_buckets bs obs)
    unfolding update_all
    substract_update_all_left [] bs obs c = refl
    substract_update_all_left (n ∷ ns) bs obs c =
        substract_update_all_left ns (update (entry_bucket e h) n bs) obs c
        ∙ ap (update_all (entry_bucket e h) ns) (substract_update_left n bs obs c)

    substract_update_all_right :
        (ns : List ℕ) (bs obs : List (Bucket K))
        → All IsCounted obs
        → length bs ≡ length obs
        → substract_buckets bs (update_all (entry_bucket e h) ns obs)
          ≡ update_all (entry_bucket (opposite e) h) ns (substract_buckets bs obs)
    unfolding update_all
    substract_update_all_right [] bs obs c l = refl
    substract_update_all_right (n ∷ ns) bs obs c l =
        substract_update_all_right ns bs (update (entry_bucket e h) n obs)
          (update_All IsCounted _ n obs (entry_bucket_IsCounted e h) c)
          (l ∙ sym (length-update (entry_bucket e h) n obs))
        ∙ ap (update_all (entry_bucket (opposite e) h) ns) (substract_update_right n bs obs c l)

  length-substract_buckets :
      (bs obs : List (Bucket K)) → length (substract_buckets bs obs) ≡ length bs
  unfolding substract_buckets
  length-substract_buckets [] obs = refl
  length-substract_buckets (b ∷ bs) [] = refl
  length-substract_buckets (b ∷ bs) (ob ∷ obs) = ap suc (length-substract_buckets bs obs)

  -- Two tables of one size and one set of hash functions.
  pub record IsTwin (t o : Iblt K) : Type ℓ where
    pub width : length t.buckets ≡ length o.buckets
    pub same_k0 : t.k0 ≡ o.k0
    pub same_k1 : t.k1 ≡ o.k1
    pub same_k : t.k ≡ o.k
    pub sequence : t.ksequence ≡ o.ksequence

  -- The table that `substract` leaves.
  unfoldable pub minus : Iblt K → Iblt K → Iblt K
  minus t o = record t { buckets = substract_buckets t.buckets o.buckets }

  substract_buckets_All :
      (bs obs : List (Bucket K)) → All IsCounted bs → All IsCounted (substract_buckets bs obs)
  unfolding substract_buckets
  substract_buckets_All [] obs h = tt
  substract_buckets_All (b ∷ bs) [] h = h
  substract_buckets_All (b ∷ bs) (ob ∷ obs) h = (omega arith, substract_buckets_All bs obs h.1)

  pub minus-IsUsable : (t o : Iblt K) → IsUsable t → IsUsable (minus t o)
  unfolding minus
  minus-IsUsable t o u = record {
    nonempty = omega (arith, u.nonempty, length-substract_buckets t.buckets o.buckets);
    few = u.few;
    counted = substract_buckets_All t.buckets o.buckets u.counted;
  }

  pub substract-eq-minus : {t o : Iblt K} → IsTwin t o → substract t o ≡ ok (minus t o)
  unfolding substract minus
  substract-eq-minus {t} {o} w =
      let a = (==_iff (length t.buckets) (length o.buckets)).1 w.width in
      let b = (==_iff t.k0 o.k0).1 w.same_k0 in
      let c = (==_iff t.k1 o.k1).1 w.same_k1 in
      let d = (==_iff t.k o.k).1 w.same_k in rw (a, b, c, d)

  pub minus-after_left :
      (t : Iblt K) {o : Iblt K} (e : Entry K)
      → IsUsable o
      → minus (after t e) o ≡ after (minus t o) e
  unfolding minus after
  minus-after_left t {o} e u =
      let f = entry_bucket e (keyhash t (key_of e)) in
      ap (λ bs. record t { buckets = bs })
        (substract_update_all_left e (keyhash t (key_of e)) (spots t (key_of e)) t.buckets o.buckets
          u.counted)
      ∙ ap
          (λ n. record t {
            buckets =
                update_all f (dedup (sort (selected n t.ksequence (key_of e))))
                  (substract_buckets t.buckets o.buckets);
          })
          (sym (length-substract_buckets t.buckets o.buckets))

  right_core :
      (t : Iblt K) {o : Iblt K} (e : Entry K) (x : K)
      → IsTwin t o
      → IsUsable o
      → substract_buckets t.buckets
          (update_all (entry_bucket e (keyhash o x)) (spots o x) o.buckets)
        ≡ update_all
            (entry_bucket (opposite e) (keyhash t x))
            (dedup (sort (selected (length (substract_buckets t.buckets o.buckets)) t.ksequence x)))
            (substract_buckets t.buckets o.buckets)
  right_core t {o} e x w u =
      let n = sym (length-substract_buckets t.buckets o.buckets ∙ w.width) in
      let s = substract_buckets t.buckets o.buckets in
      substract_update_all_right e (keyhash o x) (spots o x) t.buckets o.buckets u.counted w.width
      ∙ ap (λ h. update_all (entry_bucket (opposite e) h) (spots o x) s)
          (ap₂ (key.hash_to_u64_with_keys x) (sym w.same_k0) (sym w.same_k1))
      ∙ ap₂
          (λ m ks.
            update_all (entry_bucket (opposite e) (keyhash t x)) (dedup (sort (selected m ks x))) s)
          n (sym w.sequence)

  pub minus-after_right :
      (t : Iblt K) {o : Iblt K} (e : Entry K)
      → IsTwin t o
      → IsUsable o
      → minus t (after o e) ≡ after (minus t o) (opposite e)
  unfolding minus after
  minus-after_right t (inserted x) w u =
      ap (λ bs. record t { buckets = bs }) (right_core t (inserted x) x w u)
  minus-after_right t (deleted x) w u =
      ap (λ bs. record t { buckets = bs }) (right_core t (deleted x) x w u)

  pub IsTwin-after_right :
      (t : Iblt K) {o : Iblt K} (e : Entry K) → IsTwin t o → IsTwin t (after o e)
  unfolding after
  IsTwin-after_right t {o} e w = record {
    width = w.width ∙ sym (length-update_all _ (spots o (key_of e)) o.buckets);
    same_k0 = w.same_k0;
    same_k1 = w.same_k1;
    same_k = w.same_k;
    sequence = w.sequence;
  }

  pub IsTwin-after_left :
      {t : Iblt K} (o : Iblt K) (e : Entry K) → IsTwin t o → IsTwin (after t e) o
  unfolding after
  IsTwin-after_left {t} o e w = record {
    width = length-update_all _ (spots t (key_of e)) t.buckets ∙ w.width;
    same_k0 = w.same_k0;
    same_k1 = w.same_k1;
    same_k = w.same_k;
    sequence = w.sequence;
  }
