-- ===== src/Prelude/Perms.antt =====
-- What a change of the order of a list keeps.
use mathlib.Core.List.{Permᴰ}
use mathlib.Core.List.Permᴰ
use mathlib.Core.Path.{refl, subst}
use mathlib.Core.Bool.{Bool, true, false}
use mathlib.Core.List.{List, ◌∷◌}
use defiads.Prelude.Tests.{if◌then◌else◌}
use defiads.Prelude.Lists.{filter, All}

module _ {A : Type 0} where
  pub All_perm : (P : A → Type 0) {xs ys : List A} → Permᴰ xs ys → All P xs → All P ys
  All_perm P Permᴰ.nil h = h
  All_perm P (Permᴰ.cons e p) h = (subst P e h.0, All_perm P p h.1)
  All_perm P (Permᴰ.swap e f) h = (subst P f h.1.0, (subst P e h.0, h.1.1))
  All_perm P (Permᴰ.trans p q) h = All_perm P q (All_perm P p h)

  abbrev keep : Bool → A → List A → List A
  keep b r rows = if b then r ∷ rows else rows

  keep_perm : (s : Bool) (r : A) {xs ys : List A} → Permᴰ xs ys → Permᴰ (keep s r xs) (keep s r ys)
  keep_perm true r p = Permᴰ.cons refl p
  keep_perm false r p = p

  keep_swap :
      (s t : Bool) (a b : A) (xs : List A) → Permᴰ (keep s a (keep t b xs)) (keep t b (keep s a xs))
  keep_swap true true a b xs = Permᴰ.swap refl refl
  keep_swap true false a b xs = Permᴰ.refl _
  keep_swap false t a b xs = Permᴰ.refl _

  pub filter_perm :
      (p : A → Bool) {xs ys : List A} → Permᴰ xs ys → Permᴰ (filter p xs) (filter p ys)
  filter_perm p Permᴰ.nil = Permᴰ.nil
  filter_perm p (Permᴰ.cons {a} {l₁ = xs} {l₂ = ys} e q) =
      subst (λ r. Permᴰ (filter p (a ∷ xs)) (filter p (r ∷ ys))) e
        (keep_perm (p a) a (filter_perm p q))
  filter_perm p (Permᴰ.swap {a} {b} {b'} {l = xs} e f) =
      subst (λ r. Permᴰ (filter p (a ∷ b ∷ xs)) (filter p (r ∷ b' ∷ xs))) f
        (subst (λ r. Permᴰ (filter p (a ∷ b ∷ xs)) (filter p (b ∷ r ∷ xs))) e
          (keep_swap (p a) (p b) a b (filter p xs)))
  filter_perm p (Permᴰ.trans q r) = Permᴰ.trans (filter_perm p q) (filter_perm p r)
