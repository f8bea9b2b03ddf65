-- ===== src/Start.antt =====
-- `main` of src/defiads/main.rs, from the options to the content store: the sockets, the wallet that
-- is opened or made, the rescan. The parse of the command line, the files and the log are left out;
-- the tables, the headers of the trunk from its tip down, and a new wallet are arguments. The number
-- of the network 0 is that of bitcoin.
pub mod Reopening
use defiads.Prelude.{
  ℕ, zero, suc, ◌+◌, ◌*◌, ◌%◌, ◌^◌, Bool, true, false, Option, none, some, List, [], ◌∷◌, length,
  ◌==◌, ltb, if◌then◌else◌, Run, ok, panic, ◌>>=◌, ◌>>◌, assert,
}
use defiads.World.{World}
use defiads.Keys.Socket.{SocketAddr, v4, v6}
use defiads.Contents.{Row, Queried, answer, no_rows}
use defiads.Publications.{Publications}
use defiads.Wallet
use defiads.Wallet.{Bank, Wallet, unwrap, key_look_ahead}
use defiads.Outgoing
use defiads.Outgoing.{Outgoing, AccountRow, read_account, read_coins, store_coins, store_master}
use defiads.Store
use defiads.Ledger.{Ledger}

-- How many connections are kept: without discovery, one for each peer that is given.
unfoldable pub connections : Bool → List SocketAddr → ℕ → Run ℕ
connections true peers wanted = ok wanted
connections false [] wanted = panic
connections false (p ∷ peers) wanted = ok (length (p ∷ peers))

-- `sock.set_port(sock.port() + 100)`, of a u16
abbrev raise_port : SocketAddr → SocketAddr
raise_port (v4 a b c d port) = v4 a b c d ((port + 100) % 2 ^ 16)
raise_port (v6 segments port flowinfo scope_id) =
    v6 segments ((port + 100) % 2 ^ 16) flowinfo scope_id

-- A socket that is listened at: the port is raised on any network but bitcoin's own.
unfoldable pub listen_socket : ℕ → SocketAddr → SocketAddr
listen_socket zero sock = sock
listen_socket (suc n) sock = raise_port sock

-- The limit in bytes, of the option.
unfoldable pub storage_limit : ℕ → ℕ
storage_limit n = n * 1000 * 1000 % 2 ^ 64

-- The configuration file. The key of the api is not looked at before the api starts.
pub record Config (w : World) : Type 0 where
  pub apikey : w.codec.Str
  pub encryptedwalletkey : w.codec.Str
  pub keyroot : w.codec.Str
  pub lookahead : ℕ
  pub birth : ℕ

-- An `expect` of a query.
abbrev pub expect_row {ℓ} : {A : Type ℓ} → Queried A → Run A
expect_row (answer a) = ok a
expect_row no_rows = panic

module _ {w : World} (b : Bank w) where
  -- `read_account` and `add_account`
  unfoldable pub open_account : ℕ → ℕ → ℕ → List (AccountRow b) → b.Master → Run b.Master
  open_account account sub look_ahead rows master = do
    a ← expect_row (read_account b account sub look_ahead rows)
    ok (b.add_account a master)

  -- The wallet of a configuration file and the tables.
  unfoldable pub open_wallet : ℕ → Config w → Outgoing b → Run (Wallet b)
  unfolding open_account
  open_wallet network config out = do
    master ← unwrap (b.from_encrypted config.encryptedwalletkey config.keyroot config.birth)
    assert (network == b.network master)
    m ← open_account 0 0 config.lookahead out.accounts master
    m' ← open_account 0 1 config.lookahead out.accounts m
    m'' ← open_account 1 0 0 out.accounts m'
    let r = read_coins b m'' out
    Wallet.from_storage b (r.1) (r.0)

  -- The tables of a new wallet.
  unfoldable pub store_new : Wallet b → Outgoing b → Run (Outgoing b)
  store_new wal out = do
    out' ← store_coins b wal.coins out
    ok (record out' { accounts = (store_master b wal.master out'.accounts).1 })

  -- The first header, from the tip down, that is older than the wallet.
  unfoldable pub find_after : (w.Header → ℕ) → ℕ → List w.Header → Option ℕ
  find_after time birth [] = none
  find_after time birth (h ∷ headers) =
      if ltb (time h) birth then some (w.bitcoin_hash h) else find_after time birth headers

  -- The option `rescan`, over the headers of the trunk from its tip down.
  unfoldable pub rescan :
      (w.Header → ℕ) → ℕ → List w.Header → Wallet b × Outgoing b → Wallet b × Outgoing b
  unfolding find_after
  rescan time birth headers (wal, out) = elim (find_after time birth headers) [
    | none ↦ (wal, out)
    | some after ↦ (Wallet.rescan b wal, Outgoing.rescan b after out)
  ]

  -- The wallet with its tables, and when it was born.
  unfoldable pub load_wallet :
      ℕ → Option (Config w) → Wallet b → Outgoing b → Run (Wallet b × Outgoing b × ℕ)
  unfolding open_wallet store_new
  load_wallet network none fresh out =
      store_new fresh out >>= λ out'. ok (fresh, out', b.birth fresh.master)
  load_wallet network (some config) fresh out =
      open_wallet network config out >>= λ wal. ok (wal, out, config.birth)

  -- From the options to the store. The transaction sender is not set yet.
  unfoldable pub start :
      ℕ
      → Option (Config w)
      → ℕ
      → Bool
      → (w.Header → ℕ)
      → List w.Header
      → Wallet b
      → List (Row w)
      → Publications w
      → Outgoing b
      → Run (Ledger b)
  unfolding load_wallet rescan storage_limit
  start network config gigabytes rescans time headers fresh rows publications out = do
    r ← load_wallet network config fresh out
    let loaded : Wallet b × Outgoing b =
        if rescans then rescan time (r.2) headers (r.0, r.1) else (r.0, r.1)
    store ← Store.new w rows (storage_limit gigabytes)
    ok (record {
      store = store;
      wallet = loaded.0;
      out = loaded.1;
      publications = publications;
      txout = false;
    })
