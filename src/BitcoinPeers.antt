-- ===== src/BitcoinPeers.antt =====
-- src/p2p_bitcoin.rs: what the node does with the chain and the peers of bitcoin. The threads and
-- sockets are left out. `KeepConnected`, `AddressPoolMaintainer` and `ChainDBTrunk` are those of
-- src/p2p_defiads.rs again, but for the network and for the addresses that peers send.
pub mod Reorg
pub mod Driving
use defiads.Prelude.{
  ℕ, zero, suc, ◌≡◌, bit_and, Bool, true, false, ◌&&◌, Option, none, some, List, [], ◌∷◌, ◌==◌, ltb,
  if◌then◌else◌, Run, ok, panic, ◌>>=◌,
}
use defiads.World.{World}
use defiads.Trunk.{Trunk, ChainDb, chain_db_trunk}
use defiads.Iblt.{Sip}
use defiads.Keys.Socket.{SocketAddr}
use defiads.Addresses.{AddressRow, Addresses, store_address}
use defiads.Discovery.{bitcoin_network}
use defiads.Connections.{AddressPool, keep_connected, pool_connected, pool_disconnected}
use defiads.Store
use defiads.Wallet.{Bank}
use defiads.Ledger
use defiads.Ledger.{Ledger}

-- `KeepConnected::poll`
unfoldable pub keep_bitcoin :
    ((AddressRow → ℕ) → List AddressRow → List AddressRow)
    → ℕ
    → ℕ
    → ℕ
    → ℕ
    → ℕ
    → List SocketAddr
    → List SocketAddr
    → List AddressRow
    → List SocketAddr
    → Option SocketAddr × List SocketAddr
keep_bitcoin = keep_connected bitcoin_network

-- An address that a peer sends: when it was seen, its services, and its socket, if it has one.
pub record Announced : Type 0 where
  pub last_seen : ℕ
  pub services : ℕ
  pub socket : Option SocketAddr

-- A message to the address pool.
pub data PoolEvent : Type 0 where
  connected : ℕ → Option SocketAddr → PoolEvent
  disconnected : ℕ → Bool → PoolEvent
  addr : List Announced → PoolEvent

module _ (sip : Sip) (reparse : SocketAddr → SocketAddr) (needed_services now : ℕ)
    (random : ℕ × ℕ) where
  -- An address that was seen before now and has the needed services.
  unfoldable pub store_announced : Announced → Addresses → Addresses
  store_announced a t =
      if ltb a.last_seen now && bit_and a.services needed_services == needed_services
      then elim (a.socket) [
        | none ↦ t
        | some socket ↦
            store_address sip reparse now random bitcoin_network socket 0 (a.last_seen) 0 t
      ]
      else t

  unfoldable pub store_all : List Announced → Addresses → Addresses
  unfolding store_announced
  store_all [] t = t
  store_all (a ∷ av) t = store_all av (store_announced a t)

  -- `AddressPoolMaintainer::run`, a message
  unfoldable pub on_pool : PoolEvent → AddressPool → AddressPool
  unfolding store_all
  on_pool (connected pid a) p = pool_connected bitcoin_network sip reparse now random pid a p
  on_pool (disconnected pid banned) p =
      pool_disconnected bitcoin_network sip reparse now random pid banned p
  on_pool (addr av) p = record p { table = store_all av p.table }

-- `ChainDBTrunk`
unfoldable pub bitcoin_trunk : (w : World) → ChainDb w → Trunk w
bitcoin_trunk w db = chain_db_trunk w db

module _ {w : World} (b : Bank w) (trunk : Trunk w) where
  -- What murmel tells of the chain.
  pub data ChainEvent : Type 0 where
    block_connected : b.Block → ChainEvent
    header_connected : ℕ → ChainEvent
    block_disconnected : w.Header → ChainEvent

  -- `BitcoinDriver`: errors of the store are `expect`ed not to occur.
  unfoldable pub drive : ChainEvent → Ledger b → Run (Ledger b)
  drive (block_connected block) l = Ledger.block_connected b trunk block l
  drive (header_connected height) l =
      Store.add_header w height l.store >>= λ s. ok (record l { store = s })
  drive (block_disconnected header) l = Ledger.unwind_tip b header l

module _ {w : World} (db : ChainDb w) where
  -- The walk back from the block that was processed last to the trunk: the headers that it leaves, and
  -- the block that it ends at. A header that is not found panics.
  unfoldable pub walk_back : ℕ → w.Header → ℕ → Run (List w.Header × ℕ)
  walk_back zero header processed = panic
  walk_back (suc fuel) header processed = elim (db.pos_on_trunk processed) [
    | some _ ↦ ok ([], processed)
    | none ↦ elim (db.get_header (w.prev_blockhash header)) [
      | none ↦ panic
      | some before ↦
          walk_back fuel (before.0) (w.prev_blockhash header) >>= λ r. ok (header ∷ r.0, r.1)
    ]
  ]

  unfoldable pub find_trunk : ℕ → ℕ → Run (List w.Header × ℕ)
  unfolding walk_back
  find_trunk fuel processed = elim (db.get_header processed) [
    | none ↦ panic
    | some cached ↦ walk_back fuel (cached.0) processed
  ]

module _ {w : World} (b : Bank w) (db : ChainDb w) where
  unfoldable pub disconnect_all : List w.Header → Ledger b → Run (Ledger b)
  disconnect_all [] l = ok l
  disconnect_all (h ∷ headers) l = do l' ← Ledger.unwind_tip b h l; disconnect_all headers l'

  -- The start: a reorg that happened while the node was down is made up for. The block that is
  -- processed last is what the block download begins at.
  unfoldable pub catch_up : ℕ → Ledger b → Run (Option ℕ × Ledger b)
  unfolding find_trunk disconnect_all
  catch_up fuel l = elim (l.out.processed) [
    | none ↦ ok (none, l)
    | some processed ↦
        find_trunk db fuel processed >>= λ r. disconnect_all (r.0) l >>= λ l'. ok (some (r.1), l')
  ]
