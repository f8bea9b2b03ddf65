-- ===== src/BlockDownload.antt =====
-- src/blockdownload.rs: the queues of the blocks that are wanted and of those that were asked of the
-- peer that serves them. A block is its hash and its height. Whether a peer serves blocks, whether
-- the timeouts still wait for it, and what a message of headers did to the chain of headers are
-- arguments.
pub mod Sequence
pub mod Wanted
pub mod Headers
pub mod Service
use defiads.Prelude.{
  ℕ, zero, suc, Bool, true, false, Option, none, some, List, [], ◌∷◌, ◌++◌, map, length, ◌==◌, ltb,
  if◌then◌else◌,
}

pub record BlockDownload : Type 0 where
  pub blocks_wanted : List (ℕ × ℕ)
  pub blocks_asked : List (ℕ × ℕ)
  pub block_download_peer : Option ℕ

-- What goes to the peer, to the timeouts and downstream.
pub data Effect : Type 0 where
  get_data : ℕ → List ℕ → Effect
  expect_blocks : ℕ → ℕ → Effect
  received_block : ℕ → Effect
  block_connected : ℕ × ℕ → Effect

-- A message that does not touch the chain of headers, with what `is_serving_blocks` and
-- `is_busy_with` said.
pub data Event : Type 0 where
  peer_connected : ℕ → Bool → Event
  peer_disconnected : ℕ → Event
  incoming_block : ℕ → ℕ → Bool → Event
  incoming_other : ℕ → Bool → Event

-- The loop of `ask_blocks`, with the number of entries that it may still take.
unfoldable pub take_wanted : ℕ → List (ℕ × ℕ) → List (ℕ × ℕ) → List (ℕ × ℕ) × List (ℕ × ℕ)
take_wanted zero wanted asked = (wanted, asked)
take_wanted (suc n) [] asked = ([], asked)
take_wanted (suc n) (b ∷ wanted) asked = take_wanted n wanted (asked ++ b ∷ [])

abbrev pub max_entries : ℕ
max_entries = 1000

-- The request for the blocks that were asked.
unfoldable pub request_asked : ℕ → List (ℕ × ℕ) → List Effect
request_asked pid [] = []
request_asked pid (b ∷ asked) =
    get_data pid (map (λ (a : ℕ × ℕ). a.0) (b ∷ asked))
    ∷ expect_blocks pid (length (b ∷ asked))
    ∷ []

unfoldable pub ask_blocks : ℕ → Bool → BlockDownload → List Effect × BlockDownload
ask_blocks pid busy q =
    if busy
    then ([], q)
    else (let moved = take_wanted max_entries q.blocks_wanted q.blocks_asked in
        (request_asked pid (moved.1), record q { blocks_wanted = moved.0; blocks_asked = moved.1 }))

abbrev pub is_peer : Option ℕ → ℕ → Bool
is_peer none pid = false
is_peer (some p) pid = p == pid

-- A block that is not the first that was asked is dropped.
unfoldable pub block : ℕ → ℕ → BlockDownload → List Effect × BlockDownload
block pid hash q =
    if is_peer q.block_download_peer pid
    then elim (q.blocks_asked) [
      | [] ↦ ([], q)
      | b ∷ asked ↦
          if hash == b.0
          then (received_block pid ∷ block_connected b ∷ [], record q { blocks_asked = asked })
          else ([], q)
    ]
    else ([], q)

-- What follows a message of a peer: the first peer that speaks is asked for blocks.
unfoldable pub after_message : ℕ → Bool → BlockDownload → List Effect × BlockDownload
after_message pid busy q = elim (q.block_download_peer) [
  | none ↦ ask_blocks pid busy (record q { block_download_peer = some pid })
  | some p ↦ if p == pid then ask_blocks pid busy q else ([], q)
]

-- `while let Some(asked) = blocks_asked.pop_back() { blocks_wanted.push_front(asked) }`
unfoldable pub requeue : List (ℕ × ℕ) → List (ℕ × ℕ) → List (ℕ × ℕ)
requeue [] wanted = wanted
requeue (b ∷ asked) wanted = b ∷ requeue asked wanted

unfoldable pub step : Event → BlockDownload → List Effect × BlockDownload
step (peer_connected pid serving) q = (
  [],
  (if serving
      then elim (q.block_download_peer) [
        | none ↦ record q { block_download_peer = some pid }
        | some _ ↦ q
      ]
      else q),
)
step (peer_disconnected pid) q = (
  [],
  (if is_peer q.block_download_peer pid
      then record {
        blocks_wanted = requeue q.blocks_asked q.blocks_wanted;
        blocks_asked = [];
        block_download_peer = none;
      }
      else q),
)
step (incoming_block pid hash busy) q =
    let r = block pid hash q in let s = after_message pid busy (r.1) in (r.0 ++ s.0, s.1)
step (incoming_other pid busy) q = after_message pid busy q

-- The last element taken off.
abbrev pub pop_back : List (ℕ × ℕ) → List (ℕ × ℕ)
pop_back [] = []
pop_back (b ∷ []) = []
pop_back (b ∷ c ∷ bs) = b ∷ pop_back (c ∷ bs)

-- The end of `headers`: the times of the headers that left the chain, and the times and blocks of
-- those that joined it.
unfoldable pub follow : ℕ → List ℕ → List (ℕ × ℕ × ℕ) → BlockDownload → BlockDownload
follow birth [] [] q = q
follow birth [] ((time, hash, height) ∷ joined) q = follow birth [] joined (
    if ltb birth time
    then record q { blocks_wanted = q.blocks_wanted ++ (hash, height) ∷ [] }
    else q)
follow birth (time ∷ left) joined q =
    follow birth left joined
      (if ltb birth time then record q { blocks_wanted = pop_back q.blocks_wanted } else q)
