-- ===== src/Iblt/Difference.antt =====
-- `substract` of two tables built from sets of keys: the keys of both cancel, those of this table
-- stay as inserted and those of the other as deleted.
use defiads.Prelude.{
  ℕ, ◌<◌, ◌≤◌, ◌≡◌, refl, List, [], ◌∷◌, ◌++◌, replicate, map, ap, ap₂, ◌∙◌, zero, suc, ok, ◌>>=◌,
  Returns,
}
use defiads.IbltKey.{IbltKey}
use defiads.BucketIterator.{k_max}
use defiads.Iblt.{
  Iblt, Entry, inserted, deleted, Sip, new, default_bucket, substract_buckets, substract,
  insert_all, delete_all,
}
use defiads.Iblt.Entries.{
  Bucket_path, opposite, IsUsable, after, after-IsUsable, after_comm, after_back,
}
use defiads.Iblt.Fresh.{fresh, fresh-IsUsable, new-eq-fresh}
use mathlib.Core.List.{map-append}
use defiads.Iblt.Minus.{
  IsTwin, minus, minus-IsUsable, substract-eq-minus, minus-after_left, minus-after_right,
  IsTwin-after_left, IsTwin-after_right,
}
use defiads.Iblt.Order.{
  after_all, after_all-append, after_all-IsUsable, insert_all-eq-after_all, delete_all-eq-after_all,
}

module _ {ℓ} {K : Type ℓ} ⦃key : IbltKey K⦄ where
  IsTwin-after_all :
      (t o : Iblt K) (ds es : List (Entry K))
      → IsTwin t o
      → IsTwin (after_all t ds) (after_all o es)
  IsTwin-after_all t o [] [] w = w
  IsTwin-after_all t o [] (e ∷ es) w =
      IsTwin-after_all t (after o e) [] es (IsTwin-after_right t e w)
  IsTwin-after_all t o (d ∷ ds) es w =
      IsTwin-after_all (after t d) o ds es (IsTwin-after_left o d w)

  minus-after_all_left :
      (t o : Iblt K) (es : List (Entry K))
      → IsUsable o
      → minus (after_all t es) o ≡ after_all (minus t o) es
  minus-after_all_left t o [] u = refl
  minus-after_all_left t o (e ∷ es) u =
      minus-after_all_left (after t e) o es u ∙ ap (λ s. after_all s es) (minus-after_left t e u)

  minus-after_all_right :
      (t o : Iblt K) (es : List (Entry K))
      → IsTwin t o
      → IsUsable o
      → minus t (after_all o es) ≡ after_all (minus t o) (map opposite es)
  minus-after_all_right t o [] w u = refl
  minus-after_all_right t o (e ∷ es) w u =
      minus-after_all_right t (after o e) es (IsTwin-after_right t e w) (after-IsUsable e u)
      ∙ ap (λ s. after_all s (map opposite es)) (minus-after_right t e w u)

  -- What both tables hold cancels.
  minus_shared :
      (t o : Iblt K) (es : List (Entry K))
      → IsTwin t o
      → IsUsable t
      → IsUsable o
      → minus (after_all t es) (after_all o es) ≡ minus t o
  minus_shared t o [] w ut uo = refl
  minus_shared t o (e ∷ es) w ut uo =
      minus_shared (after t e) (after o e) es
        (IsTwin-after_left (after o e) e (IsTwin-after_right t e w)) (after-IsUsable e ut)
        (after-IsUsable e uo)
      ∙ minus-after_left t e (after-IsUsable e uo)
      ∙ ap (λ s. after s e) (minus-after_right t e w uo)
      ∙ after_comm (minus t o) (opposite e) e
      ∙ after_back e (minus-IsUsable t o ut)

  minus_blank :
      (m : ℕ)
      → substract_buckets {K = K} (replicate m default_bucket) (replicate m default_bucket)
        ≡ replicate m default_bucket
  unfolding substract_buckets
  minus_blank zero = refl
  minus_blank (suc m) =
      ap₂ ◌∷◌ (Bucket_path (key.bitxor_self key.default) refl refl) (minus_blank m)

  map-opposite : (xs : List K) → map opposite (map inserted xs) ≡ map deleted xs
  map-opposite [] = refl
  map-opposite (x ∷ xs) = ap (◌∷◌ (deleted x)) (map-opposite xs)

  -- A table that was built from the keys `xs` and `zs`, less one of the same size and hash functions
  -- that was built from `ys` and `zs`: no step panics, the keys `zs` cancel, and the result is the
  -- table into which `xs` were inserted and from which `ys` were deleted. There is at least one bucket
  -- and at most `k_max` hash functions.
  pub substract-insert_all :
      (sip : Sip) (m k k0 k1 : ℕ) (xs ys zs : List K)
      → 0 < m
      → k ≤ k_max
      → Returns
          (do
            t ← new sip m k k0 k1
            a ← insert_all t (xs ++ zs)
            b ← insert_all t (ys ++ zs)
            substract a b)
          λ difference.
            (do t ← new sip m k k0 k1; a ← insert_all t xs; delete_all a ys) ≡ ok difference
  substract-insert_all sip m k k0 k1 xs ys zs pos few =
      (after_all (after_all t (map inserted xs)) (map deleted ys), left, right)
    where
      t : Iblt K
      t = fresh sip m k k0 k1

      u : IsUsable t
      u = fresh-IsUsable sip m k k0 k1 pos few

      w : IsTwin t t
      w = record { width = refl; same_k0 = refl; same_k1 = refl; same_k = refl; sequence = refl }

      ta : Iblt K
      ta = after_all t (map inserted xs)

      tb : Iblt K
      tb = after_all t (map inserted ys)

      built :
          (ws : List K)
          → insert_all t (ws ++ zs)
            ≡ ok (after_all (after_all t (map inserted ws)) (map inserted zs))
      built ws =
          insert_all-eq-after_all t (ws ++ zs) u
          ∙ ap ok (
              ap (after_all t) (map-append inserted ws zs)
              ∙ after_all-append t (map inserted ws) (map inserted zs))

      blank : minus t t ≡ t
      blank = unfold minus in ap (λ bs. record t { buckets = bs }) (minus_blank m)

      value :
          minus (after_all ta (map inserted zs)) (after_all tb (map inserted zs))
          ≡ after_all ta (map deleted ys)
      value =
          minus_shared ta tb (map inserted zs)
            (IsTwin-after_all t t (map inserted xs) (map inserted ys) w)
            (after_all-IsUsable t (map inserted xs) u) (after_all-IsUsable t (map inserted ys) u)
          ∙ minus-after_all_right ta t (map inserted ys)
              (IsTwin-after_all t t (map inserted xs) [] w) u
          ∙ ap (after_all (minus ta t)) (map-opposite ys)
          ∙ ap (λ s. after_all s (map deleted ys))
              (minus-after_all_left t t (map inserted xs) u
                ∙ ap (λ s. after_all s (map inserted xs)) blank)

      left :
          (new sip m k k0 k1 >>= λ s.
          insert_all s (xs ++ zs) >>= λ a. insert_all s (ys ++ zs) >>= λ b. substract a b)
          ≡ ok (after_all ta (map deleted ys))
      left =
          rw (new-eq-fresh sip m k k0 k1 pos few, built xs, built ys)
            (substract-eq-minus (
                IsTwin-after_all ta tb (map inserted zs) (map inserted zs)
                  (IsTwin-after_all t t (map inserted xs) (map inserted ys) w))
              ∙ ap ok value)

      right :
          (new sip m k k0 k1 >>= λ s. insert_all s xs >>= λ a. delete_all a ys)
          ≡ ok (after_all ta (map deleted ys))
      right =
          rw (new-eq-fresh sip m k k0 k1 pos few, insert_all-eq-after_all t xs u)
            (delete_all-eq-after_all ta ys (after_all-IsUsable t (map inserted xs) u))
