-- ===== src/Tests/Sorting.antt =====
-- A sort of lists by falling values, in the place of that of SQLite.
use mathlib.Core.List.{Permᴰ}
use mathlib.Core.List.Permᴰ
use defiads.Prelude.{
  ℕ, ◌≤◌, refl, arith, List, [], ◌∷◌, All, All-map, ltb, if◌then◌else◌, inl, inr, Bool-cases,
}
use defiads.World.{IsFalling}

module _ {A : Type 0} (f : A → ℕ) where
  abbrev place : A → List A → List A
  place x [] = x ∷ []
  place x (y ∷ ys) = let rest = place x ys in if ltb (f x) (f y) then y ∷ rest else x ∷ y ∷ ys

  abbrev pub sort_desc : List A → List A
  sort_desc [] = []
  sort_desc (x ∷ xs) = place x (sort_desc xs)

  place_perm : (x : A) (ys : List A) → Permᴰ (place x ys) (x ∷ ys)
  place_perm x [] = Permᴰ.refl _
  place_perm x (y ∷ ys) = elim (Bool-cases (ltb (f x) (f y))) [
    | inl light ↦ rw light (Permᴰ.trans (Permᴰ.cons refl (place_perm x ys)) (Permᴰ.swap refl refl))
    | inr heavy ↦ rw heavy (Permᴰ.refl _)
  ]

  pub sort_desc_perm : (xs : List A) → Permᴰ (sort_desc xs) xs
  sort_desc_perm [] = Permᴰ.nil
  sort_desc_perm (x ∷ xs) =
      Permᴰ.trans (place_perm x (sort_desc xs)) (Permᴰ.cons refl (sort_desc_perm xs))

  place_All : (P : A → Type 0) (x : A) (ys : List A) → P x → All P ys → All P (place x ys)
  place_All P x [] p h = (p, tt)
  place_All P x (y ∷ ys) p h = elim (Bool-cases (ltb (f x) (f y))) [
    | inl light ↦ rw light (h.0, place_All P x ys p h.1)
    | inr heavy ↦ rw heavy (p, h)
  ]

  place-IsFalling : (x : A) (ys : List A) → IsFalling f ys → IsFalling f (place x ys)
  place-IsFalling x [] h = (tt, tt)
  place-IsFalling x (y ∷ ys) h = elim (Bool-cases (ltb (f x) (f y))) [
    | inl light ↦
        rw light (place_All (λ z. f z ≤ f y) x ys (ground arith) h.0, place-IsFalling x ys h.1)
    | inr heavy ↦
        let top : f y ≤ f x = ground arith in
        rw heavy ((top, All-map ys (λ z p. omega (arith, p, top)) h.0), h)
  ]

  pub sort_desc-IsFalling : (xs : List A) → IsFalling f (sort_desc xs)
  sort_desc-IsFalling [] = tt
  sort_desc-IsFalling (x ∷ xs) = place-IsFalling x (sort_desc xs) (sort_desc-IsFalling xs)
