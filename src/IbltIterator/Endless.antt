-- ===== src/IbltIterator/Endless.antt =====
-- A table that no set of keys builds, and that the iterator of src/iblt.rs never finishes.
use defiads.Prelude.{
  ℕ, zero, suc, true, false, none, some, List, [], ◌∷◌, ◌++◌, ◌≡◌, refl, ◌==◌, if◌then◌else◌, ap,
  ap₂, ◌∙◌, bit_xor, ok, ==_iff, zero-bit_xor, bit_xor_self, bit_xor_assoc, bit_xor-zero, replicate,
}
use defiads.Prelude.Int32.{minus_one}
use defiads.IbltKey.{IbltKey, default-bitxor, bitxor-bitxor}
use defiads.Iblt.{Bucket, Iblt, inserted, deleted, default_bucket, buckets_of, update}
use defiads.Iblt.Entries.{Bucket_path}
use defiads.IbltIterator.{
  IbltIterator, found, is_pure, pure_from, new, peel_all, peel_bucket, peel, next_from, next,
  decode,
}

same : (n : ℕ) → (n == n) ≡ true
same n = (==_iff n n).1 refl

xor_back : (a b : ℕ) → bit_xor (bit_xor a b) b ≡ a
xor_back a b = bit_xor_assoc a b b ∙ ap (bit_xor a) (bit_xor_self b) ∙ bit_xor-zero a

pure_from-replicate {ℓ} :
    {K : Type ℓ} ⦃key : IbltKey K⦄ (t : Iblt K) (i m : ℕ)
    → pure_from t i (replicate m default_bucket) ≡ []
unfolding pure_from
pure_from-replicate t i zero = refl
pure_from-replicate t i (suc m) = pure_from-replicate t (suc i) m

module _ {ℓ} {K : Type ℓ} ⦃key : IbltKey K⦄ (k0 k1 k : ℕ) (ksequence : List (ℕ × ℕ)) where
  abbrev hash_of : K → ℕ
  hash_of x = key.hash_to_u64_with_keys x k0 k1

  -- A bucket that looks as if it held one key alone.
  abbrev alone : K → ℕ → Bucket K
  alone x c = record { keysum = x; hashsum = hash_of x; count = c }

  abbrev both : K → K → Bucket K
  both x y = record {
    keysum = key.bitxor x y;
    hashsum = bit_xor (hash_of x) (hash_of y);
    count = 0;
  }

  abbrev table : List (Bucket K) → Iblt K
  table bs = record { buckets = bs; k0 = k0; k1 = k1; k = k; ksequence = ksequence }

  -- Two keys, each counted in a bucket that is one of the other key and not of its own.
  abbrev pub crossed : ℕ → K → K → Iblt K
  crossed m x y =
      table (alone x 1 ∷ alone y 1 ∷ default_bucket ∷ default_bucket ∷ replicate m default_bucket)

  abbrev at : Iblt K → List ℕ → IbltIterator K
  at t queue = record { iblt = t; queue = queue; incomplete = false }

  touched : (x : K) → peel_bucket x (hash_of x) 1 default_bucket ≡ alone x minus_one
  touched x = Bucket_path (default-bitxor x) (zero-bit_xor (hash_of x)) refl

  cleared : (x : K) → peel_bucket x (hash_of x) minus_one (alone x minus_one) ≡ default_bucket
  cleared x = Bucket_path (key.bitxor_self x) (bit_xor_self (hash_of x)) refl

  untouched : (x y : K) → peel_bucket y (hash_of y) minus_one (both x y) ≡ alone x 1
  untouched x y = Bucket_path (bitxor-bitxor x y) (xor_back (hash_of x) (hash_of y)) refl

  module _ (m : ℕ) (x y : K) where
    abbrev rest : List (Bucket K)
    rest = replicate m default_bucket

    abbrev without_x : Iblt K
    without_x = table (alone x 1 ∷ both y x ∷ alone x minus_one ∷ default_bucket ∷ rest)

    peel_x :
        (queue : List ℕ)
        → buckets_of (crossed m x y) x ≡ ok (1 ∷ 2 ∷ [])
        → next (at (crossed m x y) (0 ∷ queue))
          ≡ ok (some (found (inserted x)), at without_x (queue ++ 2 ∷ []))
    unfolding next next_from peel peel_all update
    peel_x queue px = rw px (
        ap
          (λ (b : Bucket K). ok (
            some (found (inserted x)),
            at (table (alone x 1 ∷ both y x ∷ b ∷ default_bucket ∷ rest))
                (if is_pure without_x b then queue ++ 2 ∷ [] else queue),
          ))
          (touched x)
        ∙ rw (same (hash_of x)) refl)

    abbrev without_y : Iblt K
    without_y = table (both x y ∷ alone y 1 ∷ default_bucket ∷ alone y minus_one ∷ rest)

    peel_y :
        buckets_of (crossed m x y) y ≡ ok (0 ∷ 3 ∷ [])
        → next (at (crossed m x y) (1 ∷ [])) ≡ ok (some (found (inserted y)), at without_y (3 ∷ []))
    unfolding next next_from peel peel_all update
    peel_y py = rw py (
        ap
          (λ (b : Bucket K). ok (
            some (found (inserted y)),
            at (table (both x y ∷ alone y 1 ∷ default_bucket ∷ b ∷ rest))
                (if is_pure without_y b then 3 ∷ [] else []),
          ))
          (touched y)
        ∙ rw (same (hash_of y)) refl)

    -- The second peeling of `x` makes the first undone.
    restore_x :
        buckets_of (crossed m x y) x ≡ ok (1 ∷ 2 ∷ [])
        → next (at without_x (2 ∷ [])) ≡ ok (some (found (deleted x)), at (crossed m x y) (1 ∷ []))
    unfolding next next_from peel peel_all update
    restore_x px = rw px (
        ap₂
          (λ (b c : Bucket K). ok (
            some (found (deleted x)),
            at (table (alone x 1 ∷ b ∷ c ∷ default_bucket ∷ rest))
                (if is_pure without_x b then 1 ∷ [] else []),
          ))
          (untouched y x) (cleared x)
        ∙ rw (same (hash_of y)) refl)

    restore_y :
        buckets_of (crossed m x y) y ≡ ok (0 ∷ 3 ∷ [])
        → next (at without_y (3 ∷ [])) ≡ ok (some (found (deleted y)), at (crossed m x y) (0 ∷ []))
    unfolding next next_from peel peel_all update
    restore_y py = rw py (
        ap₂
          (λ (b c : Bucket K). ok (
            some (found (deleted y)),
            at (table (b ∷ alone y 1 ∷ default_bucket ∷ c ∷ rest))
                (if is_pure without_y b then 0 ∷ [] else []),
          ))
          (untouched x y) (cleared y)
        ∙ rw (same (hash_of x)) refl)

    -- What the loop is at in turn.
    abbrev Stuck : ℕ → Type ℓ
    Stuck fuel =
        (decode fuel (at (crossed m x y) (0 ∷ [])) ≡ ok none)
        × (decode fuel (at without_x (2 ∷ [])) ≡ ok none)
        × (decode fuel (at (crossed m x y) (1 ∷ [])) ≡ ok none)
        × (decode fuel (at without_y (3 ∷ [])) ≡ ok none)

    module _ (px : buckets_of (crossed m x y) x ≡ ok (1 ∷ 2 ∷ []))
        (py : buckets_of (crossed m x y) y ≡ ok (0 ∷ 3 ∷ [])) where
      stuck : (fuel : ℕ) → Stuck fuel
      unfolding decode
      stuck zero = (refl, refl, refl, refl)
      stuck (suc fuel) =
          let (a, b, c, d) = stuck fuel in
          (
            rw (peel_x [] px, b) refl,
            rw (restore_x px, c) refl,
            rw (peel_y py, d) refl,
            rw (restore_y py, a) refl,
          )

      passes_over : (fuel : ℕ) → decode fuel (at without_x (1 ∷ 2 ∷ [])) ≡ ok none
      unfolding decode next next_from
      passes_over zero = refl
      passes_over (suc fuel) = let (a, b, c, d) = stuck (suc fuel) in b

  queue-crossed : (m : ℕ) (x y : K) → (new (crossed m x y)).queue ≡ 0 ∷ 1 ∷ []
  unfolding new pure_from
  queue-crossed m x y =
      rw (same (hash_of x), same (hash_of y), pure_from-replicate (crossed m x y) 4 m) refl

  -- Two keys, of which one has the buckets 1 and 2 and the other the buckets 0 and 3 of a table of at
  -- least four buckets: the table that counts the first in bucket 0 and the second in bucket 1, and
  -- nothing else, keeps the iterator running. No number of calls of `next` ends the loop over its
  -- entries.
  pub decode-crossed :
      (m : ℕ) (x y : K)
      → buckets_of (crossed m x y) x ≡ ok (1 ∷ 2 ∷ [])
      → buckets_of (crossed m x y) y ≡ ok (0 ∷ 3 ∷ [])
      → (fuel : ℕ) → decode fuel (new (crossed m x y)) ≡ ok none
  unfolding decode new
  decode-crossed m x y px py fuel =
      ap (λ queue. decode fuel (at (crossed m x y) queue)) (queue-crossed m x y) ∙ runs fuel
    where
      runs : (fuel : ℕ) → decode fuel (at (crossed m x y) (0 ∷ 1 ∷ [])) ≡ ok none
      runs zero = refl
      runs (suc fuel) = rw (peel_x m x y (1 ∷ []) px, passes_over m x y px py fuel) refl
