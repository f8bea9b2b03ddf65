-- ===== src/Sketch/Order.antt =====
-- A sketch depends on the set of keys, not on the order in which they are added.
use mathlib.Core.List.{Permᴰ}
use defiads.Prelude.{
  ℕ, suc, ◌+◌, ◌%◌, ◌^◌, ◌-◌, ◌≤◌, ◌≡◌, refl, List, [], ◌∷◌, arith, leb, true, length, replicate,
  length-replicate, ap, ap₂, ◌∙◌, sym, ok, Returns,
}
use defiads.IbltKey.{IbltKey}
use defiads.Iblt.{Sip, generate_ksequence}
use defiads.Iblt.Fresh.{length-generate_ksequence}
use defiads.Sketch.{lower, add_to_min_sketch, add_all, min_sketch}

-- A sketch has a place for each pair of its sequence.
abbrev pub Fits : List ℕ × List (ℕ × ℕ) × ℕ → Type 0
Fits r = length (r.1) ≤ length (r.0)

module _ {ℓ} {K : Type ℓ} ⦃key : IbltKey K⦄ where
  length-lower : (ms : List ℕ) (x : K) (ks : List (ℕ × ℕ)) → length (lower ms x ks) ≡ length ms
  unfolding lower
  length-lower [] x ks = refl
  length-lower (m ∷ ms) x [] = refl
  length-lower (m ∷ ms) x (kk ∷ ks) = ap suc (length-lower ms x ks)

  lower_comm :
      (ms : List ℕ) (x y : K) (ks : List (ℕ × ℕ))
      → lower (lower ms x ks) y ks ≡ lower (lower ms y ks) x ks
  unfolding lower
  lower_comm [] x y ks = refl
  lower_comm (m ∷ ms) x y [] = refl
  lower_comm (m ∷ ms) x y (kk ∷ ks) = ap₂ ◌∷◌ (omega arith) (lower_comm ms x y ks)

  -- The sketch and the count after a list of keys.
  abbrev pub lowered : List ℕ → List (ℕ × ℕ) → List K → List ℕ
  lowered ms ks [] = ms
  lowered ms ks (x ∷ xs) = lowered (lower ms x ks) ks xs

  abbrev pub counted : ℕ → List K → ℕ
  counted n [] = n
  counted n (x ∷ xs) = counted ((n + 1) % 2 ^ 32) xs

  pub add-eq-lower :
      (ms : List ℕ) (x : K) (ks : List (ℕ × ℕ))
      → length ks ≤ length ms
      → add_to_min_sketch ms x ks ≡ ok (lower ms x ks)
  unfolding add_to_min_sketch
  add-eq-lower ms x ks fits = let e : leb (length ks) (length ms) ≡ true = ground arith in rw e

  pub add_all-eq-lowered :
      (ms : List ℕ) (ks : List (ℕ × ℕ)) (n : ℕ) (xs : List K)
      → length ks ≤ length ms
      → add_all ms ks n xs ≡ ok (lowered ms ks xs, counted n xs)
  unfolding add_all
  add_all-eq-lowered ms ks n [] fits = refl
  add_all-eq-lowered ms ks n (x ∷ xs) fits = rw (add-eq-lower ms x ks fits) (
      add_all-eq-lowered (lower ms x ks) ks ((n + 1) % 2 ^ 32) xs
        (omega (arith, length-lower ms x ks)))

  lowered_perm :
      {xs ys : List K} (ms : List ℕ) (ks : List (ℕ × ℕ))
      → Permᴰ xs ys
      → lowered ms ks xs ≡ lowered ms ks ys
  lowered_perm ms ks Permᴰ.nil = refl
  lowered_perm ms ks (Permᴰ.cons {a = x} {l₂ = ys} p q) =
      lowered_perm (lower ms x ks) ks q ∙ ap (λ y. lowered (lower ms y ks) ks ys) p
  lowered_perm ms ks (Permᴰ.swap {a = a} {b = b} {l = l} p q) =
      ap (λ s. lowered s ks l) (lower_comm ms a b ks ∙ ap₂ (λ c d. lower (lower ms c ks) d ks) q p)
  lowered_perm ms ks (Permᴰ.trans p q) = lowered_perm ms ks p ∙ lowered_perm ms ks q

  counted_perm : {xs ys : List K} (n : ℕ) → Permᴰ xs ys → counted n xs ≡ counted n ys
  counted_perm n Permᴰ.nil = refl
  counted_perm n (Permᴰ.cons p q) = counted_perm ((n + 1) % 2 ^ 32) q
  counted_perm n (Permᴰ.swap p q) = refl
  counted_perm n (Permᴰ.trans p q) = counted_perm n p ∙ counted_perm n q

  -- The sketch of a list of keys, as `min_sketch` computes it.
  abbrev pub sketch_of : Sip → ℕ → ℕ → ℕ → List K → List ℕ × List (ℕ × ℕ) × ℕ
  sketch_of sip n k0 k1 xs =
      let ks = generate_ksequence sip n k0 k1 in
      (lowered (replicate n (2 ^ 64 - 1)) ks xs, ks, counted 0 xs)

  pub min_sketch-eq-sketch_of :
      (sip : Sip) (n k0 k1 : ℕ) (xs : List K)
      → min_sketch sip n k0 k1 xs ≡ ok (sketch_of sip n k0 k1 xs)
  unfolding min_sketch
  min_sketch-eq-sketch_of sip n k0 k1 xs = rw (
      add_all-eq-lowered (replicate n (2 ^ 64 - 1)) (generate_ksequence sip n k0 k1) 0 xs
        (omega (arith, length-replicate n (2 ^ 64 - 1), length-generate_ksequence sip n k0 k1)))

  pub sketch_of_perm :
      {xs ys : List K} (sip : Sip) (n k0 k1 : ℕ)
      → Permᴰ xs ys
      → sketch_of sip n k0 k1 xs ≡ sketch_of sip n k0 k1 ys
  sketch_of_perm sip n k0 k1 p =
      ap₂ (λ s c. (s, generate_ksequence sip n k0 k1, c))
        (lowered_perm (replicate n (2 ^ 64 - 1)) (generate_ksequence sip n k0 k1) p)
        (counted_perm 0 p)

  length-lowered :
      (ms : List ℕ) (ks : List (ℕ × ℕ)) (xs : List K) → length (lowered ms ks xs) ≡ length ms
  length-lowered ms ks [] = refl
  length-lowered ms ks (x ∷ xs) = length-lowered (lower ms x ks) ks xs ∙ length-lower ms x ks

  lower-lowered :
      (ms : List ℕ) (ks : List (ℕ × ℕ)) (x : K) (xs : List K)
      → lowered (lower ms x ks) ks xs ≡ lower (lowered ms ks xs) x ks
  lower-lowered ms ks x [] = refl
  lower-lowered ms ks x (y ∷ xs) =
      ap (λ s. lowered s ks xs) (lower_comm ms x y ks) ∙ lower-lowered (lower ms y ks) ks x xs

  counted_suc : (n : ℕ) (xs : List K) → counted ((n + 1) % 2 ^ 32) xs ≡ (counted n xs + 1) % 2 ^ 32
  counted_suc n [] = refl
  counted_suc n (x ∷ xs) = counted_suc ((n + 1) % 2 ^ 32) xs

  -- One key more.
  abbrev pub sketch_more : K → List ℕ × List (ℕ × ℕ) × ℕ → List ℕ × List (ℕ × ℕ) × ℕ
  sketch_more x r = (lower (r.0) x (r.1), r.1, (r.2 + 1) % 2 ^ 32)

  pub sketch_of-cons :
      (sip : Sip) (n k0 k1 : ℕ) (x : K) (xs : List K)
      → sketch_of sip n k0 k1 (x ∷ xs) ≡ sketch_more x (sketch_of sip n k0 k1 xs)
  sketch_of-cons sip n k0 k1 x xs =
      let ks = generate_ksequence sip n k0 k1 in
      ap₂ (λ s c. (s, ks, c)) (lower-lowered (replicate n (2 ^ 64 - 1)) ks x xs) (counted_suc 0 xs)

  pub sketch_of-Fits : (sip : Sip) (n k0 k1 : ℕ) (xs : List K) → Fits (sketch_of sip n k0 k1 xs)
  sketch_of-Fits sip n k0 k1 xs =
      let ks = generate_ksequence sip n k0 k1 in
      omega (
        arith,
        length-lowered (replicate n (2 ^ 64 - 1)) ks xs,
        length-replicate n (2 ^ 64 - 1),
        length-generate_ksequence sip n k0 k1,
      )

  -- Computing a sketch never panics, and the same keys in another order give the same sketch,
  -- sequence and count.
  pub min_sketch_perm :
      {xs ys : List K} (sip : Sip) (n k0 k1 : ℕ)
      → Permᴰ xs ys
      → Returns (min_sketch sip n k0 k1 xs) λ r. min_sketch sip n k0 k1 ys ≡ ok r
  min_sketch_perm {xs} {ys} sip n k0 k1 p = (
    sketch_of sip n k0 k1 xs,
    min_sketch-eq-sketch_of sip n k0 k1 xs,
    min_sketch-eq-sketch_of sip n k0 k1 ys ∙ ap ok (sym (sketch_of_perm sip n k0 k1 p)),
  )
