-- ===== src/Store/Tables.antt =====
-- The tables that the store keeps, as the keys of the rows make them.
use defiads.Prelude.{
  ℕ, ◌<◌, ◌≡◌, refl, ap, ap₂, ◌∙◌, arith, Bool, true, List, [], ◌∷◌, map, All, Run, ok,
}
use defiads.World.{World}
use defiads.Keys.{ContentKey, content_key}
use defiads.Iblt.{Iblt, Entry, inserted, deleted}
use defiads.Iblt.Entries.{IsUsable, after, after-IsUsable, make-eq-after}
use defiads.Iblt.Fresh.{fresh, fresh-IsUsable, new-eq-fresh}
use defiads.Iblt.Order.{after_all, after_all-IsUsable, insert_all-eq-after_all}
use defiads.Contents.{Row, ids, nh, key0, key1, compute_content_iblt}
use defiads.Store.{each_iblt, forget, delete_key}

map-map :
    {A B C : Type 0} (f : A → B) (g : B → C) (xs : List A)
    → map g (map f xs) ≡ map (λ x. g (f x)) xs
map-map f g [] = refl
map-map f g (x ∷ xs) = ap (◌∷◌ (g (f x))) (map-map f g xs)

module _ (w : World) where
  abbrev pub Cached : Type 0
  Cached = ℕ × Iblt ContentKey

  abbrev pub empty_table : ℕ → Iblt ContentKey
  empty_table size = fresh ⦃key = content_key w.sip⦄ w.sip size nh key0 key1

  -- The table of a size of some keys.
  abbrev pub table : ℕ → List ContentKey → Iblt ContentKey
  table size xs = after_all ⦃key = content_key w.sip⦄ (empty_table size) (map inserted xs)

  pub empty_table-IsUsable :
      (size : ℕ) → 0 < size → IsUsable ⦃key = content_key w.sip⦄ (empty_table size)
  empty_table-IsUsable size pos =
      fresh-IsUsable ⦃key = content_key w.sip⦄ w.sip size nh key0 key1 pos (omega arith)

  pub table-IsUsable :
      (size : ℕ) (xs : List ContentKey)
      → 0 < size
      → IsUsable ⦃key = content_key w.sip⦄ (table size xs)
  table-IsUsable size xs pos =
      after_all-IsUsable ⦃key = content_key w.sip⦄ (empty_table size) (map inserted xs)
        (empty_table-IsUsable size pos)

  pub compute-eq-table :
      (size : ℕ) (rows : List (Row w))
      → 0 < size
      → compute_content_iblt w size rows ≡ ok (table size (ids w rows))
  unfolding compute_content_iblt
  compute-eq-table size rows pos =
      rw (new-eq-fresh ⦃key = content_key w.sip⦄ w.sip size nh key0 key1 pos (omega arith)) (
        insert_all-eq-after_all ⦃key = content_key w.sip⦄ (empty_table size) (ids w rows)
          (empty_table-IsUsable size pos))

  abbrev pub IsServed : Cached → Type 0
  IsServed c = IsUsable ⦃key = content_key w.sip⦄ c.1

  abbrev pub changed : Entry ContentKey → Cached → Cached
  changed e c = (c.0, after ⦃key = content_key w.sip⦄ c.1 e)

  -- A loop over the tables that makes one entry in each of them.
  pub each_iblt-eq-map :
      (f : Iblt ContentKey → Run (Iblt ContentKey)) (e : Entry ContentKey) (ts : List Cached)
      → ((t : Iblt ContentKey)
          → IsUsable ⦃key = content_key w.sip⦄ t
          → f t ≡ ok (after ⦃key = content_key w.sip⦄ t e))
      → All IsServed ts
      → each_iblt w f ts ≡ ok (map (changed e) ts)
  unfolding each_iblt
  each_iblt-eq-map f e [] h u = refl
  each_iblt-eq-map f e ((size, t) ∷ ts) h u = rw (h t u.0, each_iblt-eq-map f e ts h u.1)

  abbrev pub changed_all : List ContentKey → Cached → Cached
  changed_all gone c = (c.0, after_all ⦃key = content_key w.sip⦄ c.1 (map deleted gone))

  -- Whether `forget` notes a deletion: there is a key and a table to delete it from.
  abbrev pub noted : List ContentKey → List Cached → Bool → Bool
  noted [] ts flag = flag
  noted (x ∷ xs) ts flag = elim ts [ [] ↦ flag | _ ∷ _ ↦ true ]

  noted_again :
      (x : ContentKey) (xs : List ContentKey) (ts : List Cached) (flag : Bool) (g : Cached → Cached)
      → noted xs (map g ts) (elim ts [ [] ↦ flag | _ ∷ _ ↦ true ]) ≡ noted (x ∷ xs) ts flag
  noted_again x [] ts flag g = refl
  noted_again x (y ∷ xs) [] flag g = refl
  noted_again x (y ∷ xs) (t ∷ ts) flag g = refl

  same_map : (ts : List Cached) → ts ≡ map (changed_all []) ts
  same_map [] = refl
  same_map (t ∷ ts) = ap (◌∷◌ t) (same_map ts)

  pub forget-eq-map :
      (gone : List ContentKey) (ts : List Cached) (flag : Bool)
      → All IsServed ts
      → forget w gone ts flag ≡ ok (map (changed_all gone) ts, noted gone ts flag)
  unfolding forget
  forget-eq-map [] ts flag u = ap (λ s. ok (s, flag)) (same_map ts)
  forget-eq-map (x ∷ xs) ts flag u =
      rw
        (each_iblt-eq-map (delete_key w x) (deleted x) ts
          (λ t v. make-eq-after ⦃key = content_key w.sip⦄ (deleted x) v) u)
        (forget-eq-map xs (map (changed (deleted x)) ts) _ (served ts u)
          ∙ ap₂ (λ s b. ok (s, b)) (map-map (changed (deleted x)) (changed_all xs) ts)
              (noted_again x xs ts flag (changed (deleted x))))
    where
      served : (cs : List Cached) → All IsServed cs → All IsServed (map (changed (deleted x)) cs)
      served [] v = tt
      served (c ∷ cs) v = (after-IsUsable ⦃key = content_key w.sip⦄ (deleted x) v.0, served cs v.1)
