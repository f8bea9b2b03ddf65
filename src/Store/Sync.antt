-- ===== src/Store/Sync.antt =====
-- What the store keeps in memory agrees with its rows, and the deletions keep it so.
use mathlib.Core.List.{Permᴰ}
use mathlib.Core.List.Permᴰ
use mathlib.Core.Bool.{false≢true}
use defiads.Prelude.{
  ℕ, ◌<◌, ◌≡◌, refl, sym, ap, ◌∙◌, subst, arith, Bool, false, not, List, [], ◌∷◌, ◌++◌, inl, inr,
  map, filter, length, All, All-map, Bool-cases, if◌then◌else◌, ok, Returns, ok_injective,
  length-map,
}
use defiads.World.{World}
use defiads.Keys.{ContentKey, content_key}
use defiads.Iblt.{Iblt, deleted}
use defiads.Iblt.Order.{after_all, after_all_without}
use defiads.Sketch.Order.{sketch_of, min_sketch-eq-sketch_of, sketch_of_perm}
use defiads.Contents.{
  Row, ids, key0, key1, compute_content_iblt, compute_content_sketch, delete_ids,
}
use defiads.Contents.Deletion.{IsUnique, filter-IsUnique, delete_ids-filter, ids-filter_perm}
use defiads.Store.{Store, min_sketch_size, new, drop_keys}
use defiads.Store.Tables.{
  Cached, table, empty_table, empty_table-IsUsable, table-IsUsable, compute-eq-table, IsServed,
  changed_all, noted, forget-eq-map,
}

module _ (w : World) where
  abbrev pub IsComputed : List (Row w) → Cached w → Type 0
  IsComputed rows c = (0 < c.0) × (compute_content_iblt w c.0 rows ≡ ok c.1)

  -- The cached tables are those of the rows, and no two rows have one id.
  pub record IsSynced (s : Store w) : Type 0 where
    pub tables : All (IsComputed s.rows) s.iblts
    pub unique : IsUnique w s.rows

  -- The sketch is that of the rows.
  abbrev pub HasSketch : Store w → Type 0
  HasSketch s =
      compute_content_sketch w min_sketch_size s.rows ≡ ok (s.min_sketch, s.ksequence, s.n_keys)

  pub computed_table :
      (rows : List (Row w)) (c : Cached w) → IsComputed rows c → c.1 ≡ table w c.0 (ids w rows)
  computed_table rows c h = ok_injective (sym h.1 ∙ compute-eq-table w c.0 rows h.0)

  pub computed-IsServed : (rows : List (Row w)) (c : Cached w) → IsComputed rows c → IsServed w c
  computed-IsServed rows c h =
      subst (λ (t : Iblt ContentKey). IsServed w (c.0, t)) (sym (computed_table rows c h))
        (table-IsUsable w c.0 (ids w rows) h.0)

  pub all-IsServed :
      (rows : List (Row w)) (cs : List (Cached w)) → All (IsComputed rows) cs → All (IsServed w) cs
  all-IsServed rows cs h = All-map cs (computed-IsServed rows) h

  pub compute-eq-sketch_of :
      (rows : List (Row w))
      → compute_content_sketch w min_sketch_size rows
        ≡ ok (sketch_of ⦃key = content_key w.sip⦄ w.sip min_sketch_size key0 key1 (ids w rows))
  unfolding compute_content_sketch
  compute-eq-sketch_of rows =
      min_sketch-eq-sketch_of ⦃key = content_key w.sip⦄ w.sip min_sketch_size key0 key1 (ids w rows)

  -- The store that `new` makes.
  abbrev pub opened : List (Row w) → ℕ → Store w
  opened rows storage_limit =
      let k = sketch_of ⦃key = content_key w.sip⦄ w.sip min_sketch_size key0 key1 (ids w rows) in
      record {
        rows = rows;
        storage_limit = storage_limit;
        iblts = [];
        min_sketch = k.0;
        ksequence = k.1;
        n_keys = k.2;
      }

  -- A store opened over rows of which no two have one id has these rows, no stale table, and the
  -- sketch and the count of keys of the rows.
  pub new-IsSynced :
      (rows : List (Row w)) (storage_limit : ℕ)
      → IsUnique w rows
      → Returns (new w rows storage_limit) λ s. (s.rows ≡ rows) × IsSynced s × HasSketch s
  unfolding new
  new-IsSynced rows storage_limit u = (
    opened rows storage_limit,
    rw (compute-eq-sketch_of rows),
    (refl, record { tables = tt; unique = u }, compute-eq-sketch_of rows),
  )

  module _ (gone : List ContentKey) (kept rows : List (Row w))
      (p : Permᴰ (ids w kept ++ gone) (ids w rows)) where
    IsComputed-without : (c : Cached w) → IsComputed rows c → IsComputed kept (changed_all w gone c)
    IsComputed-without c h = (
      h.0,
      compute-eq-table w c.0 kept h.0
          ∙ ap ok (
              sym (
                after_all_without ⦃key = content_key w.sip⦄ (empty_table w c.0) (ids w kept) gone p
                  (empty_table-IsUsable w c.0 h.0))
              ∙ ap (λ t. after_all ⦃key = content_key w.sip⦄ t (map deleted gone))
                  (sym (computed_table rows c h))),
    )

    all-IsComputed :
        (cs : List (Cached w))
        → All (IsComputed rows) cs
        → All (IsComputed kept) (map (changed_all w gone) cs)
    all-IsComputed [] h = tt
    all-IsComputed (c ∷ cs) h = (IsComputed-without c h.0, all-IsComputed cs h.1)

  abbrev pub dropped : List ContentKey → List (Row w) → Store w → Store w
  dropped gone kept s = record s { rows = kept; iblts = map (changed_all w gone) s.iblts }

  abbrev pub resketched : Store w → Store w
  resketched s =
      let k = sketch_of ⦃key = content_key w.sip⦄ w.sip min_sketch_size key0 key1 (ids w s.rows) in
      record s { min_sketch = k.0; ksequence = k.1; n_keys = k.2 }

  -- The store after `drop_keys`.
  abbrev pub remaining : List ContentKey → List (Row w) → Store w → Store w
  remaining gone kept s =
      if noted w gone s.iblts false then resketched (dropped gone kept s) else dropped gone kept s

  pub drop_keys-eq :
      (gone : List ContentKey) (kept : List (Row w)) (s : Store w)
      → All (IsServed w) s.iblts
      → drop_keys w gone kept s ≡ ok (remaining gone kept s)
  unfolding drop_keys
  drop_keys-eq gone kept s u = elim (Bool-cases (noted w gone s.iblts false)) [
    | inl some_deleted ↦
        rw (forget-eq-map w gone s.iblts false u, some_deleted, compute-eq-sketch_of kept)
    | inr none_deleted ↦ rw (forget-eq-map w gone s.iblts false u, none_deleted)
  ]

  pub remaining-IsSynced :
      (gone : List ContentKey) (kept : List (Row w)) (s : Store w)
      → Permᴰ (ids w kept ++ gone) (ids w s.rows)
      → IsUnique w kept
      → IsSynced s
      → IsSynced (remaining gone kept s)
  remaining-IsSynced gone kept s p u h =
      let tables = all-IsComputed gone kept s.rows p s.iblts h.tables in
      elim (Bool-cases (noted w gone s.iblts false)) [
        | inl some_deleted ↦ rw some_deleted (record { tables = tables; unique = u })
        | inr none_deleted ↦ rw none_deleted (record { tables = tables; unique = u })
      ]

  pub remaining_rows :
      (gone : List ContentKey) (kept : List (Row w)) (s : Store w)
      → (remaining gone kept s).rows ≡ kept
  remaining_rows gone kept s = elim (Bool-cases (noted w gone s.iblts false)) [
    | inl some_deleted ↦ rw some_deleted
    | inr none_deleted ↦ rw none_deleted
  ]

  remaining-length :
      (gone : List ContentKey) (kept : List (Row w)) (s : Store w)
      → length (remaining gone kept s).iblts ≡ length s.iblts
  remaining-length gone kept s = elim (Bool-cases (noted w gone s.iblts false)) [
    | inl some_deleted ↦ rw some_deleted (length-map (changed_all w gone) s.iblts)
    | inr none_deleted ↦ rw none_deleted (length-map (changed_all w gone) s.iblts)
  ]

  nothing_gone :
      (gone : List ContentKey) (cs : List (Cached w))
      → 0 < length cs
      → noted w gone cs false ≡ false
      → gone ≡ []
  nothing_gone [] cs pos h = refl
  nothing_gone (x ∷ xs) [] pos h = absurd (omega arith)
  nothing_gone (x ∷ xs) (c ∷ cs) pos h = absurd (false≢true (sym h))

  pub remaining-HasSketch :
      (gone : List ContentKey) (kept : List (Row w)) (s : Store w)
      → Permᴰ (ids w kept ++ gone) (ids w s.rows)
      → 0 < length s.iblts
      → HasSketch s
      → HasSketch (remaining gone kept s)
  remaining-HasSketch gone kept s p pos h = elim (Bool-cases (noted w gone s.iblts false)) [
    | inl some_deleted ↦ rw some_deleted (compute-eq-sketch_of kept)
    | inr none_deleted ↦
        let same : Permᴰ (ids w kept) (ids w s.rows) =
          Permᴰ.trans (Permᴰ.symm (Permᴰ.append-nil (ids w kept))) (
            subst (λ g. Permᴰ (ids w kept ++ g) (ids w s.rows))
              (nothing_gone gone s.iblts pos none_deleted) p) in
        rw none_deleted (
          compute-eq-sketch_of kept
          ∙ ap ok (sketch_of_perm ⦃key = content_key w.sip⦄ w.sip min_sketch_size key0 key1 same)
          ∙ sym (compute-eq-sketch_of s.rows)
          ∙ h)
  ]

  -- The deletion of the rows that a test takes.
  module _ (p : Row w → Bool) (s : Store w) (h : IsSynced s) where
    abbrev pub without : List (Row w)
    without = filter (λ r. not (p r)) s.rows

    deletion :
        drop_keys w (ids w (filter p s.rows)) without s
        ≡ ok (remaining (ids w (filter p s.rows)) without s)
    deletion =
        drop_keys-eq (ids w (filter p s.rows)) without s (all-IsServed s.rows s.iblts h.tables)

    pub deletion_eq :
        drop_keys w (ids w (filter p s.rows)) (delete_ids w (ids w (filter p s.rows)) s.rows) s
        ≡ ok (remaining (ids w (filter p s.rows)) without s)
    deletion_eq =
        ap (λ rows. drop_keys w (ids w (filter p s.rows)) rows s)
          (delete_ids-filter w p s.rows h.unique)
        ∙ deletion

    pub deletion-IsSynced : IsSynced (remaining (ids w (filter p s.rows)) without s)
    deletion-IsSynced =
        remaining-IsSynced (ids w (filter p s.rows)) without s (ids-filter_perm w p s.rows)
          (filter-IsUnique w _ s.rows h.unique) h

    pub deletion_rows : (remaining (ids w (filter p s.rows)) without s).rows ≡ without
    deletion_rows = remaining_rows (ids w (filter p s.rows)) without s

    pub deletion-HasSketch :
        0 < length s.iblts → HasSketch s → HasSketch (remaining (ids w (filter p s.rows)) without s)
    deletion-HasSketch =
        remaining-HasSketch (ids w (filter p s.rows)) without s (ids-filter_perm w p s.rows)

    pub deletion-length :
        length (remaining (ids w (filter p s.rows)) without s).iblts ≡ length s.iblts
    deletion-length = remaining-length (ids w (filter p s.rows)) without s

    -- The store after the deletion.
    abbrev pub shrunk : Store w
    shrunk = remaining (ids w (filter p s.rows)) without s
