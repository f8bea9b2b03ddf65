-- ===== src/Contents/Deletion.antt =====
-- The deletions from the table `content`: a deletion by ids removes the rows that the ids were read
-- from, and the ids of the rows that stay and of those that go are together the ids of the table.
use mathlib.Core.List.{Permᴰ}
use mathlib.Core.List.Permᴰ
use defiads.Prelude.{
  ◌≡◌, refl, sym, ap, ap₂, ◌∙◌, Bool, true, false, not, List, [], ◌∷◌, ◌++◌, filter, any, All,
  All-map, inl, inr, Bool-cases, if◌then◌else◌,
}
use defiads.World.{World}
use defiads.Keys.{ContentKey, content_eq, content_eq_iff}
use defiads.Contents.{Row, has_id, ids, delete_ids}

pub content_eq_refl : (a : ContentKey) → content_eq a a ≡ true
content_eq_refl a = (content_eq_iff a a).1 refl

iff_path : (a b : Bool) → (a ≡ true → b ≡ true) → (b ≡ true → a ≡ true) → a ≡ b
iff_path true b f g = sym (f refl)
iff_path false true f g = g refl
iff_path false false f g = refl

pub content_eq_comm : (a b : ContentKey) → content_eq a b ≡ content_eq b a
content_eq_comm a b =
    iff_path (content_eq a b) (content_eq b a)
      (λ h. (content_eq_iff b a).1 (sym ((content_eq_iff a b).0 h)))
      (λ h. (content_eq_iff a b).1 (sym ((content_eq_iff b a).0 h)))

pub filter_agree {ℓ} :
    {A : Type ℓ} (p q : A → Bool) (xs : List A)
    → All (λ x. p x ≡ q x) xs
    → filter p xs ≡ filter q xs
filter_agree p q [] h = refl
filter_agree p q (x ∷ xs) h =
    ap₂ (λ b rest. if b then x ∷ rest else rest) h.0 (filter_agree p q xs h.1)

All-zip {ℓ} :
    {A : Type ℓ} (P Q R : A → Type 0) (xs : List A)
    → ((x : A) → P x → Q x → R x)
    → All P xs
    → All Q xs
    → All R xs
All-zip P Q R [] f h g = tt
All-zip P Q R (x ∷ xs) f h g = (f x h.0 g.0, All-zip P Q R xs f h.1 g.1)

module _ (w : World) where
  -- No two rows have one id.
  abbrev pub IsUnique : List (Row w) → Type 0
  IsUnique [] = Unit
  IsUnique (r ∷ rows) = All (λ q. has_id w r.id q ≡ false) rows × IsUnique rows

  filter-All :
      (P : Row w → Type 0) (p : Row w → Bool) (rows : List (Row w))
      → All P rows
      → All P (filter p rows)
  filter-All P p [] h = tt
  filter-All P p (r ∷ rows) h = elim (Bool-cases (p r)) [
    | inl kept ↦ rw kept (h.0, filter-All P p rows h.1)
    | inr gone ↦ rw gone (filter-All P p rows h.1)
  ]

  pub filter-IsUnique :
      (p : Row w → Bool) (rows : List (Row w)) → IsUnique rows → IsUnique (filter p rows)
  filter-IsUnique p [] u = tt
  filter-IsUnique p (r ∷ rows) u = elim (Bool-cases (p r)) [
    | inl kept ↦ rw kept (filter-All _ p rows u.0, filter-IsUnique p rows u.1)
    | inr gone ↦ rw gone (filter-IsUnique p rows u.1)
  ]

  abbrev pub named_by : List (Row w) → Row w → Bool
  named_by rows r = any (λ x. has_id w x r) (ids w rows)

  pub not_named :
      (r : Row w) (rows : List (Row w))
      → All (λ q. has_id w r.id q ≡ false) rows
      → named_by rows r ≡ false
  not_named r [] h = refl
  not_named r (q ∷ rows) h = rw (content_eq_comm r.id q.id ∙ h.0) (not_named r rows h.1)

  -- Of unique rows, the filtered ids name those that the filter takes.
  named_by-filter :
      (p : Row w → Bool) (rows : List (Row w))
      → IsUnique rows
      → All (λ r. named_by (filter p rows) r ≡ p r) rows
  named_by-filter p [] u = tt
  named_by-filter p (r ∷ rows) u = elim (Bool-cases (p r)) [
    | inl kept ↦ (
      rw (kept, content_eq_refl r.id),
      All-zip (λ q. has_id w r.id q ≡ false) (λ q. named_by (filter p rows) q ≡ p q)
          (λ q. named_by (filter p (r ∷ rows)) q ≡ p q) rows (λ q e h. rw (kept, e) h) u.0
          (named_by-filter p rows u.1),
    )
    | inr gone ↦ (
      rw gone (not_named r (filter p rows) (filter-All _ p rows u.0)),
      All-map rows (λ q h. rw gone h) (named_by-filter p rows u.1),
    )
  ]

  pub delete_ids-filter :
      (p : Row w → Bool) (rows : List (Row w))
      → IsUnique rows
      → delete_ids w (ids w (filter p rows)) rows ≡ filter (λ r. not (p r)) rows
  unfolding delete_ids
  delete_ids-filter p rows u =
      filter_agree _ _ rows (All-map rows (λ r e. ap not e) (named_by-filter p rows u))

  pub ids-filter_perm :
      (p : Row w → Bool) (rows : List (Row w))
      → Permᴰ (ids w (filter (λ r. not (p r)) rows) ++ ids w (filter p rows)) (ids w rows)
  ids-filter_perm p [] = Permᴰ.nil
  ids-filter_perm p (r ∷ rows) = elim (Bool-cases (p r)) [
    | inl kept ↦
        rw kept (Permᴰ.trans (Permᴰ.middle r.id _ _) (Permᴰ.cons refl (ids-filter_perm p rows)))
    | inr gone ↦ rw gone (Permᴰ.cons refl (ids-filter_perm p rows))
  ]
