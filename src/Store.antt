-- ===== src/Store.antt =====
-- `ContentStore` of src/store.rs, the part that is about ads: the content table, and the tables and the
-- sketch of its keys that are kept in memory. The iblts, a HashMap by size, are a list of pairs of
-- which no two have one size.
pub mod Tables
pub mod Sync
pub mod Headers
pub mod Adding
pub mod Guards
pub mod Truncation
use defiads.Prelude.{
  ℕ, ◌+◌, ◌%◌, ◌^◌, Bool, true, false, not, ◌&&◌, Option, none, some, List, [], ◌∷◌, ◌==◌, leb,
  if◌then◌else◌, Run, ok, panic, ◌>>=◌,
}
use defiads.World.{World, ScriptOp, push_int, push_slice, op_csv, op_drop, op_checksig}
use defiads.Trunk.{Trunk}
use defiads.Keys.{ContentKey, content_key}
use defiads.Iblt
use defiads.Iblt.{Iblt}
use defiads.Sketch.{add_to_min_sketch}
use defiads.Contents.{
  Content, Row, digest, store_content, truncate_content, delete_expired, delete_confirmed,
  compute_content_iblt, compute_content_sketch,
}

abbrev pub min_sketch_size : ℕ
min_sketch_size = 20

pub record Store (w : World) : Type 0 where
  pub rows : List (Row w)
  pub storage_limit : ℕ
  pub iblts : List (ℕ × Iblt ContentKey)
  pub min_sketch : List ℕ
  pub ksequence : List (ℕ × ℕ)
  pub n_keys : ℕ

module _ (w : World) where
  -- `ContentStore::new` over a database that holds the rows.
  unfoldable pub new : List (Row w) → ℕ → Run (Store w)
  new rows storage_limit = do
    r ← compute_content_sketch w min_sketch_size rows
    ok (record {
      rows = rows;
      storage_limit = storage_limit;
      iblts = [];
      min_sketch = r.0;
      ksequence = r.1;
      n_keys = r.2;
    })

  abbrev pub insert_key : ContentKey → Iblt ContentKey → Run (Iblt ContentKey)
  insert_key x t = Iblt.insert ⦃key = content_key w.sip⦄ t x

  abbrev pub delete_key : ContentKey → Iblt ContentKey → Run (Iblt ContentKey)
  delete_key x t = Iblt.delete ⦃key = content_key w.sip⦄ t x

  -- `for (_, i) in &mut self.iblts`
  unfoldable pub each_iblt :
      (Iblt ContentKey → Run (Iblt ContentKey))
      → List (ℕ × Iblt ContentKey)
      → Run (List (ℕ × Iblt ContentKey))
  each_iblt f [] = ok []
  each_iblt f ((size, t) ∷ ts) = do t' ← f t; ts' ← each_iblt f ts; ok ((size, t') ∷ ts')

  -- The loop over the deleted keys: the tables, and `deleted_some`.
  unfoldable pub forget :
      List ContentKey → List (ℕ × Iblt ContentKey) → Bool → Run (List (ℕ × Iblt ContentKey) × Bool)
  unfolding each_iblt
  forget [] ts deleted_some = ok (ts, deleted_some)
  forget (x ∷ xs) ts deleted_some = do
    ts' ← each_iblt (delete_key x) ts
    forget xs ts' (elim ts [ [] ↦ deleted_some | _ ∷ _ ↦ true ])

  -- What `add_header`, `unwind_tip` and `truncate_to_limit` do with the keys that they deleted and
  -- the rows that are left.
  unfoldable pub drop_keys : List ContentKey → List (Row w) → Store w → Run (Store w)
  unfolding forget
  drop_keys gone rows s = do
    r ← forget gone s.iblts false
    let s' = record s { rows = rows; iblts = r.0 }
    elim (r.1) [
      | false ↦ ok s'
      | true ↦ compute_content_sketch w min_sketch_size rows >>= λ c.
          ok (record s' { min_sketch = c.0; ksequence = c.1; n_keys = c.2 })
    ]

  unfoldable pub add_header : ℕ → Store w → Run (Store w)
  unfolding drop_keys delete_expired
  add_header height s = let (gone, rows) = delete_expired w height s.rows in drop_keys gone rows s

  -- `unwind_tip`, of a header, on the ads; Ledger has the rest of it.
  unfoldable pub unwind_tip : w.Header → Store w → Run (Store w)
  unfolding drop_keys delete_confirmed
  unwind_tip header s =
      let (gone, rows) = delete_confirmed w (w.bitcoin_hash header) s.rows in drop_keys gone rows s

  unfoldable pub truncate_to_limit : Store w → Run (Store w)
  unfolding drop_keys truncate_content
  truncate_to_limit s =
      let (gone, rows) = truncate_content w s.storage_limit s.rows in drop_keys gone rows s

  unfoldable pub find_iblt : ℕ → List (ℕ × Iblt ContentKey) → Option (Iblt ContentKey)
  find_iblt size [] = none
  find_iblt size ((n, t) ∷ ts) = if size == n then some t else find_iblt size ts

  -- `entry(size).or_insert(…)`: the table is computed in any case.
  unfoldable pub get_iblt : ℕ → Store w → Run (Iblt ContentKey × Store w)
  get_iblt size s = do
    computed ← compute_content_iblt w size s.rows
    elim (find_iblt size s.iblts) [
      | some t ↦ ok (t, s)
      | none ↦ ok (computed, record s { iblts = (size, computed) ∷ s.iblts })
    ]

  unfoldable pub get_tip : Trunk w → Option ℕ
  get_tip trunk = elim (trunk.get_tip) [ none ↦ none | some h ↦ some (w.bitcoin_hash h) ]

  unfoldable pub funding_script : w.PublicKey → ℕ → List ScriptOp
  funding_script tweaked term =
      push_int term ∷ op_csv ∷ op_drop ∷ push_slice (w.to_bytes tweaked) ∷ op_checksig ∷ []

  -- The script of `funding_address`.
  unfoldable pub funding_address : w.PublicKey → ℕ → w.Script
  unfolding funding_script
  funding_address tweaked term = w.p2wsh (funding_script tweaked term)

  -- The value of the first output with a script.
  unfoldable pub find_output : w.Script → List (ℕ × w.Script) → Option ℕ
  find_output script [] = none
  find_output script (o ∷ os) = if w.script_eq o.1 script then some (o.0) else find_output script os

  -- The script that commits to an ad.
  unfoldable pub commitment : Content w → w.Script
  unfolding funding_address
  commitment c = funding_address (w.tweak_exp_add c.funder (w.sha256 (w.cbor c.ad))) c.term

  -- The guards of `add_content`: the height and the header of the block of the funding, and the
  -- amount that it locks.
  unfoldable pub admissible : Trunk w → Content w → Option (ℕ × w.Header × ℕ)
  admissible trunk c = elim (trunk.get_height (w.get_block_hash c.funding)) [
    | none ↦ none
    | some height ↦
        if leb trunk.len ((height + c.term) % 2 ^ 32)
        then elim (trunk.get_header (w.get_block_hash c.funding)) [
          | none ↦ none
          | some header ↦
              let t = w.get_transaction c.funding in
              if w.merkle_root header == w.proof_merkle_root c.funding && leb 2 (w.version t)
              then elim (find_output (commitment c) (w.output t)) [
                | none ↦ none
                | some value ↦ some (height, header, value)
              ]
              else none
        ]
        else none
  ]

  -- What follows the guards.
  unfoldable pub accept : Content w → ℕ → w.Header → ℕ → Store w → Run (Store w)
  unfolding each_iblt digest
  accept c height header value s = do
    iblts ← each_iblt (insert_key (digest w c.ad)) s.iblts
    sketch ← add_to_min_sketch ⦃key = content_key w.sip⦄ s.min_sketch (digest w c.ad) s.ksequence
    rows ← store_content w height (w.bitcoin_hash header) c value s.rows
    ok (record s {
      rows = rows;
      iblts = iblts;
      min_sketch = sketch;
      n_keys = (s.n_keys + 1) % 2 ^ 32;
    })

  unfoldable pub add_content : Trunk w → Content w → Store w → Run (Bool × Store w)
  add_content trunk c s = elim (admissible trunk c) [
    | none ↦ ok (false, s)
    | some a ↦ accept c (a.0) (a.1) (a.2) s >>= λ s'. ok (true, s')
  ]
