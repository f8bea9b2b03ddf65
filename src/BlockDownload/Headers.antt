-- ===== src/BlockDownload/Headers.antt =====
-- src/blockdownload.rs: the blocks that are wanted at the start, inventories, and headers. murmel's
-- chain of headers is a parameter with its state; the hash of no block is 0.
use defiads.Prelude.{
  ℕ, zero, suc, Bool, true, false, not, ◌&&◌, Option, none, some, List, [], ◌∷◌, ◌++◌, map, any,
  bit_and, ◌==◌, ltb, if◌then◌else◌, Run, ok, panic, ◌>>=◌,
}
use defiads.World.{World}
use defiads.Wallet.{unwrap}
use defiads.BlockDownload.{BlockDownload, follow}

-- What `add_header` says: stored at a height, with the blocks that leave and those that join the trunk
-- if it moved, or known already, or of too little work, or another error.
pub data Added : Type 0 where
  stored : ℕ → Option (List ℕ) → Option (List ℕ) → Added
  known bad_work failed : Added

pub record HeaderDb (w : World) : Type 1 where
  pub Chain : Type 0
  pub header_tip : Chain → Option (w.Header × ℕ)
  pub get_header : ℕ → Chain → Option (w.Header × ℕ)
  pub header_locators : Chain → List ℕ
  pub add_header : w.Header → Chain → Added × Chain
  pub time : w.Header → ℕ

-- What goes to peers, to the timeouts and downstream.
pub data HeaderEffect (w : World) : Type 0 where
  get_headers : ℕ → List ℕ → ℕ → HeaderEffect w
  expect_headers received_headers ban : ℕ → HeaderEffect w
  block_disconnected : w.Header → HeaderEffect w
  header_connected : w.Header → ℕ → HeaderEffect w
  new_height : ℕ → HeaderEffect w

-- An entry of an inventory.
pub record BlockInventory : Type 0 where
  pub is_block : Bool
  pub hash : ℕ

module _ {w : World} (db : HeaderDb w) (birth : ℕ) where
  abbrev pub Effects : Type 0
  Effects = List (HeaderEffect w)

  -- The loop of `BlockDownload::new`, from a block back; no fuel, no answer.
  unfoldable pub wanted_from :
      ℕ → ℕ → db.Chain → ℕ → w.Header → ℕ → List (ℕ × ℕ) → Run (Option (List (ℕ × ℕ)))
  wanted_from zero stop_at chain hash header height wanted = ok none
  wanted_from (suc fuel) stop_at chain hash header height wanted =
      let before = w.prev_blockhash header in
      elim (hash == stop_at) [
        | true ↦ ok (some wanted)
        | false ↦ elim (before == 0) [
          | true ↦ wanted_from fuel stop_at chain before header height ((hash, height) ∷ wanted)
          | false ↦ elim (db.get_header before chain) [
            | none ↦ panic
            | some h ↦ elim (ltb (db.time (h.0)) birth) [
              | true ↦ ok (some ((hash, height) ∷ wanted))
              | false ↦ wanted_from fuel stop_at chain before (h.0) (h.1) ((hash, height) ∷ wanted)
            ]
          ]
        ]
      ]

  -- The queue of `BlockDownload::new`.
  unfoldable pub wanted_at_start : ℕ → Option ℕ → db.Chain → Run (Option (List (ℕ × ℕ)))
  unfolding wanted_from
  wanted_at_start fuel processed chain = elim (db.header_tip chain) [
    | none ↦ ok (some [])
    | some tip ↦
        if ltb birth (db.time (tip.0))
        then wanted_from fuel (elim processed [ none ↦ 0 | some hash ↦ hash ]) chain
            (w.bitcoin_hash (tip.0)) (tip.0) (tip.1) []
        else ok (some [])
  ]

  -- `is_serving_blocks`, of the services of the version of a peer
  unfoldable pub is_serving_blocks : ℕ → Option ℕ → Bool
  is_serving_blocks service_blocks none = false
  is_serving_blocks service_blocks (some services) = not (bit_and services service_blocks == 0)

  -- `get_headers`, with whether the peer is busy with headers already
  unfoldable pub ask_headers : ℕ → Bool → db.Chain → Effects
  ask_headers pid busy chain = if busy then [] else elim (db.header_locators chain) [
    | [] ↦ []
    | first ∷ more ↦ expect_headers pid ∷ get_headers pid (first ∷ more) first ∷ []
  ]

  -- `inv`: an unknown block is asked for by its headers.
  unfoldable pub inv : ℕ → List BlockInventory → Bool → db.Chain → Effects
  unfolding ask_headers
  inv pid v busy chain =
      let is_new : BlockInventory → Bool =
        λ i. i.is_block && elim (db.get_header i.hash chain) [ none ↦ true | some _ ↦ false ] in
      if any is_new v then ask_headers pid busy chain else []

  -- The batch that is open: what it did so far, and the headers that left and joined.
  pub record Batch : Type 0 where
    pub effects : Effects
    pub queues : BlockDownload
    pub connected : List (w.Header × ℕ)
    pub disconnected : List w.Header
    pub some_new : Bool
    pub moved_tip : Option ℕ
    pub height : ℕ
    pub chain : db.Chain

  unfoldable pub tell_left : List w.Header → Effects
  tell_left [] = []
  tell_left (h ∷ hs) =
      let rest = tell_left hs in if ltb birth (db.time h) then block_disconnected h ∷ rest else rest

  unfoldable pub tell_joined : List (w.Header × ℕ) → Effects
  tell_joined [] = []
  tell_joined (h ∷ hs) =
      let rest = tell_joined hs in
      if ltb birth (db.time h.0) then header_connected (h.0) (h.1) ∷ rest else rest

  -- Downstream and the queues follow, and the next batch opens.
  unfoldable pub flush : Batch → Batch
  unfolding tell_left tell_joined
  flush b = record b {
    effects = b.effects ++ tell_left b.disconnected ++ tell_joined b.connected;
    queues =
        follow birth (map db.time b.disconnected)
          (map (λ (h : w.Header × ℕ). (db.time h.0, w.bitcoin_hash h.0, h.1)) b.connected) b.queues;
    connected = [];
    disconnected = [];
  }

  -- The headers of the blocks that left: `unwrap`.
  unfoldable pub left_headers : List ℕ → db.Chain → Run (List w.Header)
  left_headers [] chain = ok []
  left_headers (h ∷ hashes) chain = do
    header ← unwrap (db.get_header h chain)
    rest ← left_headers hashes chain
    ok (header.0 ∷ rest)

  abbrev pub last_of : List ℕ → Option ℕ
  last_of [] = none
  last_of (h ∷ []) = some h
  last_of (h ∷ i ∷ hs) = last_of (i ∷ hs)

  abbrev tip_after : Option ℕ → Option (List ℕ) → Run (Option ℕ)
  tip_after moved none = ok moved
  tip_after moved (some forwards) = unwrap (last_of forwards) >>= λ h. ok (some h)

  -- A header: a reorg ends the batch.
  unfoldable pub add_one : ℕ → w.Header → Batch → Run Batch
  unfolding flush left_headers
  add_one pid header b =
      let r = db.add_header header b.chain in
      elim (r.0) [
        | known ↦ ok (record b { chain = r.1 })
        | failed ↦ ok (record b { chain = r.1 })
        | bad_work ↦ ok (record b { chain = r.1; effects = b.effects ++ ban pid ∷ [] })
        | stored height unwinds forwards ↦ tip_after b.moved_tip forwards >>= λ moved.
            let b' = record b {
              chain = r.1;
              connected = b.connected ++ (header, height) ∷ [];
              some_new = true;
              moved_tip = moved;
              height = height;
            } in
            elim unwinds as (λ _. Run Batch) [
              | none ↦ ok b'
              | some gone ↦
                  left_headers gone (r.1) >>= λ hs. ok (flush (record b' { disconnected = hs }))
            ]
      ]

  unfoldable pub add_headers : ℕ → List w.Header → Batch → Run Batch
  unfolding add_one
  add_headers pid [] b = ok (flush b)
  add_headers pid (h ∷ hs) b = do b' ← add_one pid h b; add_headers pid hs b'

  -- `headers`
  unfoldable pub headers :
      ℕ → List w.Header → Bool → db.Chain → BlockDownload → Run (Effects × BlockDownload × db.Chain)
  unfolding add_headers ask_headers
  headers pid [] busy chain q = ok (received_headers pid ∷ [], q, chain)
  headers pid (h ∷ hs) busy chain q = elim (db.header_tip chain) [
    | none ↦ ok (received_headers pid ∷ [], q, chain)
    | some tip ↦
        add_headers pid (h ∷ hs) (record {
          effects = received_headers pid ∷ [];
          queues = q;
          connected = [];
          disconnected = [];
          some_new = false;
          moved_tip = none;
          height = tip.1;
          chain = chain;
        })
        >>= λ b. ok (
          b.effects
              ++ (if b.some_new then ask_headers pid busy b.chain else [])
              ++ elim (b.moved_tip) [ none ↦ [] | some _ ↦ new_height b.height ∷ [] ],
          b.queues,
          b.chain,
        )
  ]
