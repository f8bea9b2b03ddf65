-- ===== src/Iblt/Order.antt =====
-- What a table holds does not depend on the order of the insertions and deletions.
use mathlib.Core.List.{Permᴰ, map-append}
use mathlib.Core.List.Permᴰ
use defiads.Prelude.{◌≡◌, refl, List, [], ◌∷◌, ◌++◌, map, ap, ap₂, ◌∙◌, sym, ok, ◌>>=◌, Returns}
use defiads.IbltKey.{IbltKey}
use defiads.Iblt.{Iblt, Entry, inserted, deleted, insert, delete, insert_all, delete_all}
use defiads.Iblt.Entries.{IsUsable, after, make-eq-after, after-IsUsable, after_comm, after_back}

module _ {ℓ} {K : Type ℓ} ⦃key : IbltKey K⦄ where
  -- The table after a list of entries.
  abbrev pub after_all : Iblt K → List (Entry K) → Iblt K
  after_all t [] = t
  after_all t (e ∷ es) = after_all (after t e) es

  pub after_all-append :
      (t : Iblt K) (ds es : List (Entry K)) → after_all t (ds ++ es) ≡ after_all (after_all t ds) es
  after_all-append t [] es = refl
  after_all-append t (d ∷ ds) es = after_all-append (after t d) ds es

  pub after_all-IsUsable :
      (t : Iblt K) (es : List (Entry K)) → IsUsable t → IsUsable (after_all t es)
  after_all-IsUsable t [] u = u
  after_all-IsUsable t (e ∷ es) u = after_all-IsUsable (after t e) es (after-IsUsable e u)

  pub after-after_all :
      (t : Iblt K) (e : Entry K) (es : List (Entry K))
      → after (after_all t es) e ≡ after_all (after t e) es
  after-after_all t e [] = refl
  after-after_all t e (d ∷ es) =
      after-after_all (after t d) e es ∙ ap (λ s. after_all s es) (after_comm t d e)

  pub insert_all-eq-after_all :
      (t : Iblt K) (xs : List K) → IsUsable t → insert_all t xs ≡ ok (after_all t (map inserted xs))
  unfolding insert_all
  insert_all-eq-after_all t [] u = refl
  insert_all-eq-after_all t (x ∷ xs) u =
      rw (make-eq-after (inserted x) u)
        (insert_all-eq-after_all (after t (inserted x)) xs (after-IsUsable (inserted x) u))

  pub delete_all-eq-after_all :
      (t : Iblt K) (xs : List K) → IsUsable t → delete_all t xs ≡ ok (after_all t (map deleted xs))
  unfolding delete_all
  delete_all-eq-after_all t [] u = refl
  delete_all-eq-after_all t (x ∷ xs) u =
      rw (make-eq-after (deleted x) u)
        (delete_all-eq-after_all (after t (deleted x)) xs (after-IsUsable (deleted x) u))

  -- On a usable table `delete` takes back `insert` of the same key, and `insert` takes back
  -- `delete`: the whole table is what it was.
  pub insert-delete :
      (t : Iblt K) (x : K)
      → IsUsable t
      → ((insert t x >>= λ t'. delete t' x) ≡ ok t) × ((delete t x >>= λ t'. insert t' x) ≡ ok t)
  insert-delete t x u = (
    rw (make-eq-after (inserted x) u) (
        make-eq-after (deleted x) (after-IsUsable (inserted x) u)
        ∙ ap ok (after_back (inserted x) u)),
    rw (make-eq-after (deleted x) u) (
        make-eq-after (inserted x) (after-IsUsable (deleted x) u)
        ∙ ap ok (after_back (deleted x) u)),
  )

  pub after_all_perm :
      {ds es : List (Entry K)} (t : Iblt K) → Permᴰ ds es → after_all t ds ≡ after_all t es
  after_all_perm t Permᴰ.nil = refl
  after_all_perm t (Permᴰ.cons {a = d} {l₂ = es} p q) =
      after_all_perm (after t d) q ∙ ap (λ e. after_all (after t e) es) p
  after_all_perm t (Permᴰ.swap {a = a} {b = b} {l = l} p q) =
      ap (λ s. after_all s l) (after_comm t a b ∙ ap₂ (λ c d. after (after t c) d) q p)
  after_all_perm t (Permᴰ.trans p q) = after_all_perm t p ∙ after_all_perm t q

  -- Inserting the same keys in another order into a usable table does not panic and gives the
  -- same table.
  pub insert_all_perm :
      {xs ys : List K} (t : Iblt K)
      → IsUsable t
      → Permᴰ xs ys
      → Returns (insert_all t xs) λ t'. insert_all t ys ≡ ok t'
  insert_all_perm {xs} {ys} t u p = (
    after_all t (map inserted xs),
    insert_all-eq-after_all t xs u,
    insert_all-eq-after_all t ys u ∙ ap ok (sym (after_all_perm t (Permᴰ.map inserted p))),
  )

  after_all_back :
      (t : Iblt K) (xs : List K)
      → IsUsable t
      → after_all (after_all t (map inserted xs)) (map deleted xs) ≡ t
  after_all_back t [] u = refl
  after_all_back t (x ∷ xs) u =
      ap (λ s. after_all s (map deleted xs))
        (after-after_all (after t (inserted x)) (deleted x) (map inserted xs)
          ∙ ap (λ s. after_all s (map inserted xs)) (after_back (inserted x) u))
      ∙ after_all_back t xs u

  -- What is left of a table when some of its keys are deleted.
  pub after_all_without :
      {all : List K} (t : Iblt K) (kept gone : List K)
      → Permᴰ (kept ++ gone) all
      → IsUsable t
      → after_all (after_all t (map inserted all)) (map deleted gone)
        ≡ after_all t (map inserted kept)
  after_all_without {all} t kept gone p u =
      ap (λ s. after_all s (map deleted gone))
        (sym (after_all_perm t (Permᴰ.map inserted p))
          ∙ ap (after_all t) (map-append inserted kept gone)
          ∙ after_all-append t (map inserted kept) (map inserted gone))
      ∙ after_all_back (after_all t (map inserted kept)) gone
          (after_all-IsUsable t (map inserted kept) u)
