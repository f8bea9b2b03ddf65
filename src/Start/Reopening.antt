-- ===== src/Start/Reopening.antt =====
-- What a start makes of the tables of an earlier one: the wallet, the rescan, and the catching up.
use defiads.Prelude.{
  ℕ, ◌≤◌, ◌<◌, ◌≡◌, refl, Bool, false, Option, none, some, List, [], ◌∷◌, ◌++◌, All, ltb,
  if◌then◌else◌, ◌⊎◌, arith, inl, inr, Bool-cases, ok, Returns, ap,
}
use defiads.World.{World}
use defiads.Wallet
use defiads.Wallet.{Coin, OutPoint, Bank, Wallet}
use defiads.Outgoing
use defiads.Outgoing.{Outgoing, CoinRow, stored_derivation}
use defiads.Outgoing.Accounts.{Holds}
use defiads.Publications.{Publications}
use defiads.Contents.{Row}
use defiads.Contents.Deletion.{IsUnique}
use defiads.Store.Sync.{HasSketch, new-IsSynced}
use defiads.Trunk.{ChainDb}
use defiads.Ledger.{Ledger}
use defiads.BitcoinPeers.{catch_up}
use defiads.BitcoinPeers.Reorg.{IsLinked, IsAt, IsCaughtUp, catch_up-IsCaughtUp}
use defiads.Start.{Config, find_after, rescan, load_wallet, start, storage_limit}

module _ {w : World} (b : Bank w) where
  -- The accounts that a new wallet has.
  pub record HasWalletAccounts (master : b.Master) : Type 0 where
    pub receiver : Holds b master 0 0
    pub change : Holds b master 0 1
    pub commitments : Holds b master 1 0

  -- A master key to which an account that was held is added from its keys.
  abbrev pub restored :
      (account sub look_ahead : ℕ) {master : b.Master}
      → Holds b master account sub
      → b.Master
      → b.Master
  restored account sub look_ahead h =
      b.add_account (b.new_from_storage (b.account_keys h.held) account sub look_ahead)

  abbrev pub restored_all : ℕ → {master : b.Master} → HasWalletAccounts master → b.Master → b.Master
  restored_all look_ahead a m =
      restored 1 0 0 a.commitments
        (restored 0 1 look_ahead a.change (restored 0 0 look_ahead a.receiver m))

  -- The row of a confirmed coin: with its place, its proof, and the tweak of its key if it has one that
  -- is not empty.
  abbrev pub IsRowOf : b.Coins → OutPoint × Coin w → CoinRow w → Type 0
  IsRowOf coins (point, coin) r =
      (r.point ≡ point)
      × (b.proofs coins point.txid ≡ some r.proof)
      × (r.coin ≡ record coin { derivation = stored_derivation b coin.derivation })

  abbrev pub AreRowsOf : b.Coins → List (OutPoint × Coin w) → List (CoinRow w) → Type 0
  AreRowsOf coins [] [] = Unit
  AreRowsOf coins (c ∷ cs) (r ∷ rows) = IsRowOf coins c r × AreRowsOf coins cs rows
  AreRowsOf coins _ _ = ⊥

  -- The first header, from the tip down, that is older than the wallet.
  pub record IsFound (time : w.Header → ℕ) (birth : ℕ) (headers : List w.Header) : Type 0 where
    pub newer : List w.Header
    pub first : w.Header
    pub rest : List w.Header
    pub split : headers ≡ newer ++ first ∷ rest
    pub is_newer : All (λ h. birth ≤ time h) newer
    pub is_older : time first < birth
    pub found : find_after b time birth headers ≡ some (w.bitcoin_hash first)

  find_after-cases :
      (time : w.Header → ℕ) (birth : ℕ) (headers : List w.Header)
      → (All (λ h. birth ≤ time h) headers × (find_after b time birth headers ≡ none))
        ⊎ IsFound time birth headers
  unfolding find_after
  find_after-cases time birth [] = inl (tt, refl)
  find_after-cases time birth (h ∷ headers) = elim (Bool-cases (ltb (time h) birth)) [
    | inl old ↦ inr (record {
      newer = [];
      first = h;
      rest = headers;
      split = refl;
      is_newer = tt;
      is_older = ground arith;
      found = rw old refl;
    })
    | inr young ↦ elim (find_after-cases time birth headers) [
      | inl none_older ↦ inl ((ground arith, none_older.0), rw young (none_older.1))
      | inr c ↦ inr (record {
        newer = h ∷ c.newer;
        first = c.first;
        rest = c.rest;
        split = ap (◌∷◌ h) (c.split);
        is_newer = (ground arith, c.is_newer);
        is_older = c.is_older;
        found = rw young (c.found);
      })
    ]
  ]

  -- The wallet and its tables after a rescan that begins behind a header.
  pub record IsEmptied (first : w.Header) (before after : Wallet b × Outgoing b) : Type 0 where
    pub master : after.0.master ≡ before.0.master
    pub no_coins : after.0.coins ≡ b.no_coins
    pub processed : after.1.processed ≡ some (w.bitcoin_hash first)
    pub no_txouts : after.1.txouts ≡ []
    pub no_rows : after.1.coins ≡ []
    pub accounts : after.1.accounts ≡ before.1.accounts

  -- Where a block was processed already, a rescan either finds no header of the trunk that is older
  -- than the wallet, and changes nothing; or it finds one such that all headers above it are not
  -- older, makes it the block that is processed last, and forgets the coins, their rows and the
  -- transactions that were sent, and neither the key nor the accounts.
  pub rescan-IsEmptied :
      (time : w.Header → ℕ) (birth : ℕ) (headers : List w.Header) (wal : Wallet b)
      (out : Outgoing b) (p : ℕ)
      → out.processed ≡ some p
      → (All (λ h. birth ≤ time h) headers × (rescan b time birth headers (wal, out) ≡ (wal, out)))
        ⊎ ((c : IsFound time birth headers) × IsEmptied
              (c.first)
              (wal, out)
              (rescan b time birth headers (wal, out)))
  unfolding rescan Wallet.rescan Outgoing.rescan
  rescan-IsEmptied time birth headers wal out p before =
      elim (find_after-cases time birth headers) [
        | inl none_older ↦ inl (none_older.0, rw (rescan, none_older.1) refl)
        | inr c ↦
            let emptied : IsEmptied (c.first) (wal, out)
                (Wallet.rescan b wal, Outgoing.rescan b (w.bitcoin_hash c.first) out) =
              record {
                master = refl;
                no_coins = refl;
                processed = rw before refl;
                no_txouts = refl;
                no_rows = refl;
                accounts = refl;
              } in
            inr (c, rw (rescan, c.found) emptied)
      ]

  -- A start over a table of ads with different ids and a chain of headers that is linked: where the
  -- wallet loads, the store opens over exactly these rows, with their sketch, the wallet and its tables
  -- are those that were loaded, after the rescan if one is asked for. If the block that was processed
  -- last is then cached and the fuel is above its height, the start of the bitcoin peers does not
  -- panic either: it ends with a block on the trunk as the one processed last, and exactly the rows that
  -- the blocks from the former one down to it confirmed are gone, with the coins of these blocks.
  pub start-IsCaughtUp :
      (db : ChainDb w) (network : ℕ) (config : Option (Config w)) (gigabytes : ℕ) (rescans : Bool)
      (time : w.Header → ℕ) (headers : List w.Header) (fresh wal : Wallet b) (rows : List (Row w))
      (publications : Publications w) (out out' : Outgoing b) (birth p height fuel : ℕ)
      (header : w.Header)
      → IsLinked db
      → IsUnique w rows
      → load_wallet b network config fresh out ≡ ok (wal, out', birth)
      → (if rescans then rescan b time birth headers (wal, out') else (wal, out')).1.processed
        ≡ some p
      → db.get_header p ≡ some (header, height)
      → height < fuel
      → Returns
          (start b network config gigabytes rescans time headers fresh rows publications out)
          λ l.
            (l.store.rows ≡ rows)
            × HasSketch w l.store
            × ((l.wallet, l.out)
                ≡ (if rescans then rescan b time birth headers (wal, out') else (wal, out')))
            × Returns (catch_up b db fuel l) (IsCaughtUp b db p l)
  unfolding start
  start-IsCaughtUp db network config gigabytes rescans time headers fresh wal rows publications out
        out' birth p height fuel header linked unique loads processed cached small =
      let opens = new-IsSynced w rows (storage_limit gigabytes) unique in
      let loaded = if rescans then rescan b time birth headers (wal, out') else (wal, out') in
      let ledger : Ledger b = record {
        store = opens.0;
        wallet = loaded.0;
        out = loaded.1;
        publications = publications;
        txout = false;
      } in
      let at : IsAt b p ledger = record { processed = processed; synced = opens.2.1 } in
      rw (start, loads, opens.1)
        (
          ledger,
          refl,
          (
            opens.2.0,
            opens.2.2,
            refl,
            catch_up-IsCaughtUp b db ledger p fuel height header linked at cached small,
          ),
        )
