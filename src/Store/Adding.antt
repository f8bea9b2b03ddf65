-- ===== src/Store/Adding.antt =====
-- `add_content` and `get_iblt`: what the store accepts, and what it then keeps.
use mathlib.Core.Option.{none-ne-some, some-injective}
use defiads.Prelude.{
  ℕ, ◌+◌, ◌%◌, ◌^◌, ◌<◌, ◌≤◌, ◌≡◌, refl, sym, ap, ◌∙◌, subst, Bool, true, false, not, Option, none,
  some, Option-cases, inl, inr, List, [], ◌∷◌, map, filter, length, All, Bool-cases, Run, ok, ◌>>=◌,
  Returns, ◌==◌, ==_iff, ok_injective, length-map,
}
use defiads.World.{World}
use defiads.Trunk.{Trunk}
use defiads.Text.{as_string}
use defiads.Keys.{ContentKey, content_key}
use defiads.Iblt.{Iblt, inserted}
use defiads.Iblt.Entries.{make-eq-after, after}
use defiads.Sketch.{lower}
use defiads.Iblt.Order.{after-after_all}
use defiads.Sketch.Order.{
  sketch_of, add-eq-lower, Fits, sketch_of-Fits, sketch_more, sketch_of-cons,
}
use defiads.Contents.{
  Content, Row, ids, key0, key1, has_id, digest, content_length, row_of, insert_or_replace,
  store_content, compute_content_iblt,
}
use defiads.Store.{
  Store, min_sketch_size, insert_key, accept, admissible, add_content, get_iblt, find_iblt,
}
use defiads.Store.Tables.{Cached, table, empty_table, compute-eq-table, changed, each_iblt-eq-map}
use defiads.Store.Sync.{
  IsSynced, IsComputed, HasSketch, computed_table, all-IsServed, compute-eq-sketch_of,
}

module _ (w : World) where
  -- No row is named by a key.
  abbrev pub IsNew : ContentKey → List (Row w) → Type 0
  IsNew x rows = All (λ r. has_id w x r ≡ false) rows

  filter_none :
      {A : Type 0} (p : A → Bool) (xs : List A)
      → All (λ x. p x ≡ false) xs
      → filter (λ x. not (p x)) xs ≡ xs
  filter_none p [] h = refl
  filter_none p (x ∷ xs) h = rw h.0 (ap (◌∷◌ x) (filter_none p xs h.1))

  insert-IsNew :
      (r : Row w) (rows : List (Row w)) → IsNew r.id rows → insert_or_replace w r rows ≡ r ∷ rows
  unfolding insert_or_replace
  insert-IsNew r rows h = ap (◌∷◌ r) (filter_none (has_id w r.id) rows h)

  IsComputed-more :
      (r : Row w) (rows : List (Row w)) (c : Cached w)
      → IsComputed w rows c
      → IsComputed w (r ∷ rows) (changed w (inserted r.id) c)
  IsComputed-more r rows c h = (
    h.0,
    compute-eq-table w c.0 (r ∷ rows) h.0
        ∙ ap ok (
            sym (
              after-after_all ⦃key = content_key w.sip⦄ (empty_table w c.0) (inserted r.id)
                (map inserted (ids w rows)))
            ∙ ap (λ t. after ⦃key = content_key w.sip⦄ t (inserted r.id))
                (sym (computed_table w rows c h))),
  )

  all-IsComputed_more :
      (r : Row w) (rows : List (Row w)) (cs : List (Cached w))
      → All (IsComputed w rows) cs
      → All (IsComputed w (r ∷ rows)) (map (changed w (inserted r.id)) cs)
  all-IsComputed_more r rows [] h = tt
  all-IsComputed_more r rows (c ∷ cs) h =
      (IsComputed-more r rows c h.0, all-IsComputed_more r rows cs h.1)

  -- The ad is stored: the store after `accept`.
  module _ (height : ℕ) (header : w.Header) (value : ℕ) (c : Content w) (text : w.codec.Str) where
    abbrev new_row : Row w
    new_row = row_of w height (w.bitcoin_hash header) c value text

    store_content-eq :
        (rows : List (Row w))
        → as_string w.codec c.ad.content ≡ ok (some text)
        → (content_length w c == 0) ≡ false
        → IsNew (digest w c.ad) rows
        → store_content w height (w.bitcoin_hash header) c value rows ≡ ok (new_row ∷ rows)
    unfolding store_content row_of digest
    store_content-eq rows decodes nonempty fresh =
        rw (decodes, nonempty) (ap ok (insert-IsNew new_row rows fresh))

    -- The store with the ad.
    abbrev grown : Store w → Store w
    grown s = record s {
      rows = new_row ∷ s.rows;
      iblts = map (changed w (inserted (digest w c.ad))) s.iblts;
      min_sketch = lower ⦃key = content_key w.sip⦄ s.min_sketch (digest w c.ad) s.ksequence;
      n_keys = (s.n_keys + 1) % 2 ^ 32;
    }

    module _ (s : Store w) (decodes : as_string w.codec c.ad.content ≡ ok (some text))
        (nonempty : (content_length w c == 0) ≡ false) (fresh : IsNew (digest w c.ad) s.rows)
        (h : IsSynced w s) (k : HasSketch w s) where
      same_sketch :
          sketch_of ⦃key = content_key w.sip⦄ w.sip min_sketch_size key0 key1 (ids w s.rows)
          ≡ (s.min_sketch, s.ksequence, s.n_keys)
      same_sketch = ok_injective (sym (compute-eq-sketch_of w s.rows) ∙ k)

      sketch_fits : length s.ksequence ≤ length s.min_sketch
      sketch_fits =
          subst Fits same_sketch (
            sketch_of-Fits ⦃key = content_key w.sip⦄ w.sip min_sketch_size key0 key1 (ids w s.rows))

      accept-eq : accept w c height header value s ≡ ok (grown s)
      unfolding accept
      accept-eq = rw (
        each_iblt-eq-map w (insert_key w (digest w c.ad)) (inserted (digest w c.ad)) s.iblts
            (λ t v. make-eq-after ⦃key = content_key w.sip⦄ (inserted (digest w c.ad)) v)
            (all-IsServed w s.rows s.iblts h.tables),
        add-eq-lower ⦃key = content_key w.sip⦄ s.min_sketch (digest w c.ad) s.ksequence sketch_fits,
        store_content-eq s.rows decodes nonempty fresh,
      )

      grown-IsSynced : IsSynced w (grown s)
      unfolding row_of digest
      grown-IsSynced = record {
        tables = all-IsComputed_more new_row s.rows s.iblts h.tables;
        unique = (fresh, h.unique);
      }

      grown-HasSketch : HasSketch w (grown s)
      unfolding row_of digest
      grown-HasSketch =
          compute-eq-sketch_of w (new_row ∷ s.rows)
          ∙ ap ok (
              sketch_of-cons ⦃key = content_key w.sip⦄ w.sip min_sketch_size key0 key1
                (digest w c.ad) (ids w s.rows)
              ∙ ap (sketch_more ⦃key = content_key w.sip⦄ (digest w c.ad)) same_sketch)

  -- `add_content` behind its guards.
  abbrev after_guards : Content w → Store w → Option (ℕ × w.Header × ℕ) → Run (Bool × Store w)
  after_guards c s o = elim o [
    | none ↦ ok (false, s)
    | some a ↦ accept w c (a.0) (a.1) (a.2) s >>= λ s'. ok (true, s')
  ]

  -- A proved ad that is not stored, that decodes and that is admissible is stored: the answer is
  -- true, its row is the one row more, the cached tables, the sketch and the count of keys, which
  -- were those of the rows, are so still, and there are as many tables as before, and the same limit.
  pub add_content-IsSynced :
      (trunk : Trunk w) (c : Content w) (s : Store w) (height : ℕ) (header : w.Header) (value : ℕ)
      (text : w.codec.Str)
      → admissible w trunk c ≡ some (height, header, value)
      → as_string w.codec c.ad.content ≡ ok (some text)
      → (content_length w c == 0) ≡ false
      → IsNew (digest w c.ad) s.rows
      → IsSynced w s
      → HasSketch w s
      → Returns (add_content w trunk c s) λ r.
        (r.0 ≡ true)
        × (r.1.rows ≡ row_of w height (w.bitcoin_hash header) c value text ∷ s.rows)
        × IsSynced w r.1
        × HasSketch w r.1
        × (length r.1.iblts ≡ length s.iblts)
        × (r.1.storage_limit ≡ s.storage_limit)
  unfolding add_content
  add_content-IsSynced trunk c s height header value text admits decodes nonempty fresh h k = (
    (true, grown height header value c text s),
    ap (λ o. after_guards c s o) admits
        ∙ ap (λ r. r >>= λ s'. ok (true, s'))
            (accept-eq height header value c text s decodes nonempty fresh h k),
    (
      refl,
      refl,
      grown-IsSynced height header value c text s decodes nonempty fresh h k,
      grown-HasSketch height header value c text s decodes nonempty fresh h k,
      length-map (changed w (inserted (digest w c.ad))) s.iblts,
      refl,
    ),
  )

  pub find_iblt-IsComputed :
      (rows : List (Row w)) (size : ℕ) (cs : List (Cached w)) (t : Iblt ContentKey)
      → All (IsComputed w rows) cs
      → find_iblt w size cs ≡ some t
      → compute_content_iblt w size rows ≡ ok t
  unfolding find_iblt
  find_iblt-IsComputed rows size [] t h e = absurd (none-ne-some t e)
  find_iblt-IsComputed rows size ((n, t') ∷ cs) t h e = elim (Bool-cases (size == n)) [
    | inl same ↦
        subst (λ m. compute_content_iblt w m rows ≡ ok t) (sym ((==_iff size n).0 same))
          (h.0.1 ∙ ap ok (some-injective _ _ (rw same at e)))
    | inr other ↦ find_iblt-IsComputed rows size cs t h.1 (rw other at e)
  ]

  -- The table of a size that the store gives out is the one of its rows, whether it was cached or
  -- not; the rows stay, and the cached tables are those of the rows as before. The size is not zero.
  pub get_iblt-IsSynced :
      (size : ℕ) (s : Store w)
      → 0 < size
      → IsSynced w s
      → Returns
          (get_iblt w size s)
          λ r. (compute_content_iblt w size s.rows ≡ ok r.0) × (r.1.rows ≡ s.rows) × IsSynced w r.1
  unfolding get_iblt
  get_iblt-IsSynced size s pos h =
      let computed = compute-eq-table w size s.rows pos in
      elim (Option-cases (find_iblt w size s.iblts)) [
        | inl uncached ↦
            let t = table w size (ids w s.rows) in
            (
              (t, record s { iblts = (size, t) ∷ s.iblts }),
              rw (computed, uncached),
              (computed, refl, record { tables = ((pos, computed), h.tables); unique = h.unique }),
            )
        | inr (t, cached) ↦ (
          (t, s),
          rw (computed, cached),
          (find_iblt-IsComputed s.rows size s.iblts t h.tables cached, refl, h),
        )
      ]
