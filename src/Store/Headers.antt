-- ===== src/Store/Headers.antt =====
-- `add_header` and `unwind_tip`: what a new tip of the chain, and a tip that is taken back, do.
use defiads.Prelude.{ℕ, ◌<◌, ◌≡◌, refl, false, not, List, [], ◌∷◌, filter, length, ◌==◌, Returns}
use defiads.World.{World}
use defiads.Contents.{Row, ids, is_expired, delete_expired, delete_confirmed}
use defiads.Keys.{ContentKey}
use defiads.Store.{Store, add_header, unwind_tip}
use defiads.Store.Tables.{noted}
use defiads.Store.Sync.{
  IsSynced, HasSketch, shrunk, deletion_eq, deletion-IsSynced, deletion_rows, deletion-HasSketch,
}

noted-nil : (w : World) (gone : List ContentKey) → noted w gone [] false ≡ false
noted-nil w [] = refl
noted-nil w (x ∷ xs) = refl

module _ (w : World) (s : Store w) (h : IsSynced w s) where
  -- A new header at a height deletes exactly the rows whose term ended by that height. It does not
  -- panic, and the cached tables stay those of the rows.
  pub add_header-IsSynced :
      (height : ℕ)
      → Returns
          (add_header w height s)
          λ s'. (s'.rows ≡ filter (λ r. not (is_expired w height r)) s.rows) × IsSynced w s'
  unfolding add_header delete_expired
  add_header-IsSynced height =
      let p = is_expired w height in
      (shrunk w p s h, deletion_eq w p s h, (deletion_rows w p s h, deletion-IsSynced w p s h))

  -- Where at least one table is cached, a new header also leaves the sketch and the count of keys
  -- those of the rows.
  pub add_header-HasSketch :
      (height : ℕ)
      → 0 < length s.iblts
      → HasSketch w s
      → Returns (add_header w height s) (HasSketch w)
  unfolding add_header delete_expired
  add_header-HasSketch height pos k =
      let p = is_expired w height in
      (shrunk w p s h, deletion_eq w p s h, deletion-HasSketch w p s h pos k)

  -- A header that is unwound deletes exactly the rows that its block confirmed. It does not panic,
  -- and the cached tables stay those of the rows.
  pub unwind_tip-IsSynced :
      (header : w.Header)
      → Returns (unwind_tip w header s) λ s'.
        (s'.rows ≡ filter (λ r. not (r.block_id == w.bitcoin_hash header)) s.rows) × IsSynced w s'
  unfolding unwind_tip delete_confirmed
  unwind_tip-IsSynced header =
      let p = λ (r : Row w). r.block_id == w.bitcoin_hash header in
      (shrunk w p s h, deletion_eq w p s h, (deletion_rows w p s h, deletion-IsSynced w p s h))

  -- Where at least one table is cached, unwinding a header also leaves the sketch and the count of
  -- keys those of the rows.
  unwind_tip-HasSketch :
      (header : w.Header)
      → 0 < length s.iblts
      → HasSketch w s
      → Returns (unwind_tip w header s) (HasSketch w)
  unfolding unwind_tip delete_confirmed
  unwind_tip-HasSketch header pos k =
      let p = λ (r : Row w). r.block_id == w.bitcoin_hash header in
      (shrunk w p s h, deletion_eq w p s h, deletion-HasSketch w p s h pos k)

  -- Where no table is cached, a new header deletes the expired rows and keeps the sketch and the
  -- count of keys as they were, although rows are gone.
  pub add_header_stale :
      (height : ℕ)
      → s.iblts ≡ []
      → Returns (add_header w height s) λ s'.
        (s'.rows ≡ filter (λ r. not (is_expired w height r)) s.rows)
        × (s'.min_sketch ≡ s.min_sketch)
        × (s'.n_keys ≡ s.n_keys)
  unfolding add_header delete_expired
  add_header_stale height none_cached =
      let p = is_expired w height in
      let quiet : noted w (ids w (filter p s.rows)) s.iblts false ≡ false =
        rw none_cached (noted-nil w (ids w (filter p s.rows))) in
      (shrunk w p s h, deletion_eq w p s h, (deletion_rows w p s h, rw quiet, rw quiet))
