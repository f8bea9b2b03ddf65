-- ===== src/Updater/Asking.antt =====
-- The request for the one ad that a peer holds and this node lacks.
use mathlib.Core.List.{Permᴰ}
use mathlib.Core.List.Permᴰ
use mathlib.Core.Option.{none-ne-some}
use defiads.Prelude.{
  ℕ, suc, ◌%◌, ◌^◌, ◌<◌, ◌≡◌, refl, sym, ap, ◌∙◌, subst, arith, true, some, Option-cases, inl, inr,
  List, [], ◌∷◌, length, ◌==◌, ==_iff, ok, Returns, ok_injective,
}
use defiads.World.{World}
use defiads.Trunk.{Trunk}
use defiads.Keys.{ContentKey, content_key}
use defiads.Iblt.{Iblt, inserted, substract, delete_all}
use defiads.Iblt.Fresh.{new-eq-fresh}
use defiads.Iblt.Order.{after_all_perm, insert_all-eq-after_all}
use defiads.Iblt.Difference.{substract-insert_all}
use defiads.IbltIterator.Single.{decode-single}
use defiads.Sketch.{Float}
use defiads.Contents.{ids, nh, key0, key1}
use defiads.Messages.{get}
use defiads.Store.{Store, get_tip, get_iblt, find_iblt}
use defiads.Store.Tables.{table, empty_table, empty_table-IsUsable, compute-eq-table}
use defiads.Store.Sync.{IsSynced, HasSketch}
use defiads.Store.Adding.{find_iblt-IsComputed}
use defiads.Updater.{
  Updater, send_network, expect, received, reply_iblt, reply_content, on_content_iblt, request,
  requested,
}
use defiads.Updater.Exchange.{length-table}

module _ (w : World) where
  -- The table of some keys and one more, less that of these keys, is the table of the one.
  substract-one :
      (size : ℕ) (x : ContentKey) (ys zs : List ContentKey)
      → 0 < size
      → Permᴰ zs (x ∷ ys)
      → substract ⦃key = content_key w.sip⦄ (table w size zs) (table w size ys)
        ≡ ok (table w size (x ∷ []))
  unfolding delete_all
  substract-one size x ys zs pos p =
      let key = content_key w.sip in
      let usable = empty_table-IsUsable w size pos in
      let made = new-eq-fresh ⦃key = key⦄ w.sip size nh key0 key1 pos (omega arith) in
      let in_more = insert_all-eq-after_all ⦃key = key⦄ (empty_table w size) (x ∷ ys) usable in
      let in_ys = insert_all-eq-after_all ⦃key = key⦄ (empty_table w size) ys usable in
      let in_x = insert_all-eq-after_all ⦃key = key⦄ (empty_table w size) (x ∷ []) usable in
      let (d, e, f) =
        substract-insert_all ⦃key = key⦄ w.sip size nh key0 key1 (x ∷ []) [] ys pos (omega arith) in
      let taken : substract ⦃key = key⦄ (table w size (x ∷ ys)) (table w size ys) ≡ ok d =
        rw (made, in_more, in_ys) at e in
      let single : ok (table w size (x ∷ [])) ≡ ok d = rw (made, in_x) at f in
      ap (λ t. substract ⦃key = key⦄ t (table w size ys))
        (after_all_perm ⦃key = key⦄ (empty_table w size) (Permᴰ.map inserted p))
      ∙ taken
      ∙ sym single

  find_iblt-cached :
      (size : ℕ) (cs : List (ℕ × Iblt ContentKey)) (t : Iblt ContentKey)
      → find_iblt w size cs ≡ some t
      → 0 < length cs
  unfolding find_iblt
  find_iblt-cached size [] t e = absurd (none-ne-some t e)
  find_iblt-cached size (c ∷ cs) t e = omega arith

  -- A store that gives out a table keeps what it keeps, with at least this table cached.
  pub record IsServing (size : ℕ) (s : Store w) (r : Iblt ContentKey × Store w) : Type 0 where
    pub is_table : r.0 ≡ table w size (ids w s.rows)
    pub rows : r.1.rows ≡ s.rows
    pub limit : r.1.storage_limit ≡ s.storage_limit
    pub synced : IsSynced w r.1
    pub sketch : HasSketch w r.1
    pub cached : 0 < length r.1.iblts

  pub get_iblt-IsServing :
      (size : ℕ) (s : Store w)
      → 0 < size
      → IsSynced w s
      → HasSketch w s
      → Returns (get_iblt w size s) (IsServing size s)
  unfolding get_iblt
  get_iblt-IsServing size s pos h k =
      let computed = compute-eq-table w size s.rows pos in
      elim (Option-cases (find_iblt w size s.iblts)) [
        | inl uncached ↦
            let t = table w size (ids w s.rows) in
            (
              (t, record s { iblts = (size, t) ∷ s.iblts }),
              rw (computed, uncached),
              record {
                is_table = refl;
                rows = refl;
                limit = refl;
                synced = record { tables = ((pos, computed), h.tables); unique = h.unique };
                sketch = k;
                cached = omega arith;
              },
            )
        | inr (t, cached) ↦ (
          (t, s),
          rw (computed, cached),
          record {
            is_table =
                ok_injective
                  (sym (find_iblt-IsComputed w s.rows size s.iblts t h.tables cached) ∙ computed);
            rows = refl;
            limit = refl;
            synced = h;
            sketch = k;
            cached = find_iblt-cached size s.iblts t cached;
          },
        )
      ]

  -- What is answered to the table of a peer that holds one ad more: that ad is asked for.
  pub asks :
      (float : Float) (trunk : Trunk w) (fuel pid tip size : ℕ) (x : ContentKey)
      (zs : List ContentKey) (u : Updater w)
      → get_tip w trunk ≡ some tip
      → 0 < size
      → size < 2 ^ 32
      → Permᴰ zs (x ∷ ids w u.store.rows)
      → IsSynced w u.store
      → HasSketch w u.store
      → (s : Store w) × (on_content_iblt w float trunk (suc (suc fuel)) pid tip (table w size zs) u
          ≡ ok (
              some (
                received pid reply_iblt
                    ∷ expect pid 1 reply_content
                    ∷ send_network pid (get (x ∷ []))
                    ∷ [],
                record u { store = s },
              )))
        × (s.rows ≡ u.store.rows)
        × (s.storage_limit ≡ u.store.storage_limit)
        × IsSynced w s
        × HasSketch w s
        × (0 < length s.iblts)
  unfolding on_content_iblt request requested
  asks float trunk fuel pid tip size x zs u at_tip pos small p h k =
      let key = content_key w.sip in
      let same : (tip == tip) ≡ true = (==_iff tip tip).1 refl in
      let wide : length (table w size zs).buckets % 2 ^ 32 ≡ size =
        omega (arith, length-table w size zs) in
      let g = get_iblt-IsServing size u.store pos h k in
      let left : substract ⦃key = key⦄ (table w size zs) (g.0.0) ≡ ok (table w size (x ∷ [])) =
        subst (λ t. substract ⦃key = key⦄ (table w size zs) t ≡ ok (table w size (x ∷ [])))
          (sym g.2.is_table) (substract-one size x (ids w u.store.rows) zs pos p) in
      let found =
        decode-single ⦃key = key⦄ w.sip size nh key0 key1 fuel (inserted x) pos (omega arith)
          (omega arith) in
      (
        g.0.1,
        rw (on_content_iblt, at_tip, same, wide, g.1, left, found) refl,
        g.2.rows,
        g.2.limit,
        g.2.synced,
        g.2.sketch,
        g.2.cached,
      )
