-- ===== src/Outgoing.antt =====
-- The tables `txout`, `processed`, `coins` and `account` of src/db.rs: what the wallet sent, the block
-- it saw last, its coins and its accounts. A row keeps the values that its bytes and hex texts encode.
pub mod Unconfirmed
pub mod Confirmed
pub mod Accounts
use defiads.Prelude.{
  ℕ, suc, ◌+◌, ◌≡◌, Bool, true, false, not, ◌&&◌, Option, none, some, List, [], ◌∷◌, ◌==◌, map,
  filter, if◌then◌else◌, Run, ok, panic, ◌>>=◌,
}
use defiads.World.{World}
use defiads.Keys.{ContentKey}
use defiads.Contents.{Queried, answer, no_rows}
use defiads.Wallet.{Tx, Coin, KeyDerivation, OutPoint, Bank, unwrap, same_point}

module _ (w : World) where
  pub record TxOutRow : Type 0 where
    pub txid : ℕ
    pub tx : Tx w
    pub confirmed : Option ℕ
    pub publisher : Option w.PublicKey
    pub id : Option ContentKey
    pub term : Option ℕ

  pub record CoinRow : Type 0 where
    pub point : OutPoint
    pub coin : Coin w
    pub proof : w.ProvedTransaction

  -- Who funded which ad, for which term.
  abbrev pub Funding : Type 0
  Funding = w.PublicKey × ContentKey × ℕ

module _ {w : World} (b : Bank w) where
  pub record AccountRow : Type 0 where
    pub account : ℕ
    pub sub : ℕ
    pub keys : b.AccountKeys

  -- The tables of the wallet.
  pub record Outgoing : Type 0 where
    pub txouts : List (TxOutRow w)
    pub processed : Option ℕ
    pub coins : List (CoinRow w)
    pub accounts : List AccountRow

  unfoldable pub txout_row : Tx w → Option (Funding w) → TxOutRow w
  txout_row tx none = record {
    txid = b.txid tx;
    tx = tx;
    confirmed = none;
    publisher = none;
    id = none;
    term = none;
  }
  txout_row tx (some (publisher, id, term)) = record {
    txid = b.txid tx;
    tx = tx;
    confirmed = none;
    publisher = some publisher;
    id = some id;
    term = some term;
  }

  -- `insert or replace`. The list stands for the table in no order: the key is the txid, and a query
  -- may read the rows in any order.
  unfoldable pub store_txout : Tx w → Option (Funding w) → List (TxOutRow w) → List (TxOutRow w)
  store_txout tx funding rows = txout_row tx funding ∷ filter (λ r. not (r.txid == b.txid tx)) rows

  -- `where confirmed is null`
  abbrev pub is_unconfirmed : TxOutRow w → Bool
  is_unconfirmed r = elim (r.confirmed) [ none ↦ true | some _ ↦ false ]

  -- A row with a publisher has an id and a term: `unwrap`.
  unfoldable pub read_funding :
      Option w.PublicKey → Option ContentKey → Option ℕ → Run (Option (Funding w))
  read_funding none id term = ok none
  read_funding (some publisher) id term = do
    i ← unwrap id
    t ← unwrap term
    ok (some (publisher, i, t))

  unfoldable pub read_txouts : List (TxOutRow w) → Run (List (Tx w × Option (Funding w)))
  unfolding read_funding
  read_txouts [] = ok []
  read_txouts (r ∷ rows) = do
    funding ← read_funding r.publisher r.id r.term
    rest ← read_txouts rows
    ok ((r.tx, funding) ∷ rest)

  unfoldable pub read_unconfirmed : List (TxOutRow w) → Run (List (Tx w × Option (Funding w)))
  unfolding read_txouts
  read_unconfirmed rows = read_txouts (filter is_unconfirmed rows)

  -- `update processed`, which changes a row if there is one.
  unfoldable pub rescan : ℕ → Outgoing → Outgoing
  rescan after out = record out {
    processed = elim (out.processed) [ none ↦ none | some _ ↦ some after ];
    txouts = [];
    coins = [];
  }

  unfoldable pub read_processed : Outgoing → Option ℕ
  read_processed out = out.processed

  unfoldable pub store_processed : ℕ → Outgoing → Outgoing
  store_processed block_id out = record out { processed = some block_id }

  -- An empty tweak is stored as null.
  unfoldable pub stored_derivation : KeyDerivation → KeyDerivation
  stored_derivation d = record d {
    tweak = elim (d.tweak) [ none ↦ none | some [] ↦ none | some (x ∷ xs) ↦ some (x ∷ xs) ];
  }

  -- The rows of the confirmed coins, which all have a proof: `expect`.
  unfoldable pub coin_rows : b.Coins → List (OutPoint × Coin w) → Run (List (CoinRow w))
  unfolding stored_derivation
  coin_rows coins [] = ok []
  coin_rows coins ((point, coin) ∷ confirmed) = do
    proof ← unwrap (b.proofs coins point.txid)
    rest ← coin_rows coins confirmed
    ok (
        record {
          point = point;
          coin = record coin { derivation = stored_derivation coin.derivation };
          proof = proof;
        }
        ∷ rest)

  -- The first proof of a transaction.
  unfoldable pub find_proof : ℕ → List w.ProvedTransaction → Option w.ProvedTransaction
  find_proof txid [] = none
  find_proof txid (p ∷ ps) = if b.proof_txid p == txid then some p else find_proof txid ps

  -- `update txout set confirmed = … where txid = …`
  unfoldable pub confirm : ℕ → ℕ → List (TxOutRow w) → List (TxOutRow w)
  confirm block txid = map λ r. if r.txid == txid then record r { confirmed = some block } else r

  -- The loop over the unconfirmed transactions.
  unfoldable pub confirm_all :
      List w.ProvedTransaction
      → List (Tx w × Option (Funding w))
      → List (TxOutRow w)
      → List (TxOutRow w)
  unfolding confirm find_proof
  confirm_all proofs [] rows = rows
  confirm_all proofs ((tx, funding) ∷ sent) rows =
      confirm_all proofs sent (elim (find_proof (b.txid tx) proofs) [
        | none ↦ rows
        | some p ↦ confirm (w.get_block_hash p) (b.proof_txid p) rows
      ])

  unfoldable pub store_coins : b.Coins → Outgoing → Run Outgoing
  unfolding coin_rows confirm_all read_unconfirmed
  store_coins coins out = do
    rows ← coin_rows coins (b.confirmed coins)
    sent ← read_unconfirmed out.txouts
    ok (record out { coins = rows; txouts = confirm_all (b.all_proofs coins) sent out.txouts })

  unfoldable pub add_coins : List (CoinRow w) → b.Coins → b.Coins
  add_coins [] coins = coins
  add_coins (r ∷ rows) coins = add_coins rows (b.add_confirmed r.point r.coin r.proof coins)

  unfoldable pub spend_all : List (TxOutRow w) → b.Master → b.Coins → b.Master × b.Coins
  spend_all [] master coins = (master, coins)
  spend_all (r ∷ rows) master coins =
      let s = b.process_unconfirmed_transaction master r.tx coins in spend_all rows (s.0) (s.1)

  -- The coins of the table, then what the unconfirmed transactions spend of them.
  unfoldable pub read_coins : b.Master → Outgoing → b.Master × b.Coins
  unfolding add_coins spend_all
  read_coins master out =
      spend_all (filter is_unconfirmed out.txouts) master (add_coins out.coins b.no_coins)

  abbrev pub is_account : ℕ → ℕ → AccountRow → Bool
  is_account account sub r = r.account == account && r.sub == sub

  -- `insert or replace`
  unfoldable pub store_account : b.Account → List AccountRow → List AccountRow
  store_account a rows =
      record { account = b.account_number a; sub = b.sub_account_number a; keys = b.account_keys a }
      ∷ filter (λ r. not (is_account (b.account_number a) (b.sub_account_number a) r)) rows

  -- The loop over the accounts: the rows, and how many were inserted.
  unfoldable pub store_accounts : List b.Account → List AccountRow → ℕ × List AccountRow
  unfolding store_account
  store_accounts [] rows = (0, rows)
  store_accounts (a ∷ accounts) rows =
      let r = store_accounts accounts (store_account a rows) in (suc (r.0), r.1)

  unfoldable pub store_master : b.Master → List AccountRow → ℕ × List AccountRow
  unfolding store_accounts
  store_master master rows = store_accounts (b.accounts master) []

  unfoldable pub find_account : ℕ → ℕ → List AccountRow → Option AccountRow
  find_account account sub [] = none
  find_account account sub (r ∷ rows) =
      if is_account account sub r then some r else find_account account sub rows

  -- A missing row is an error of `query_row`, which `?` passes on.
  unfoldable pub read_account : ℕ → ℕ → ℕ → List AccountRow → Queried b.Account
  unfolding find_account
  read_account account sub look_ahead rows = elim (find_account account sub rows) [
    | none ↦ no_rows
    | some r ↦ answer (b.new_from_storage r.keys account sub look_ahead)
  ]
