-- ===== src/Ledger.antt =====
-- `ContentStore` of src/store.rs with its wallet and its tables: the operations that move money, and
-- `block_connected`. The channel to the transaction sender is a Bool, whether it is set; the
-- transactions that are sent through it are a part of the result.
pub mod Publishing
pub mod Connecting
pub mod Noting
use defiads.Prelude.{
  ℕ, suc, ◌+◌, ◌≡◌, Bool, true, false, Option, none, some, List, [], ◌∷◌, ◌==◌, if◌then◌else◌, Run,
  ok, panic, ◌>>=◌,
}
use defiads.Ad.{Ad}
use defiads.World.{World}
use defiads.Keys.{ContentKey}
use defiads.Trunk.{Trunk}
use defiads.Contents.{Content}
use defiads.Publications.{Publications, read_publication}
use defiads.Wallet
use defiads.Wallet.{Tx, Bank, Wallet, Result, failed, done, unwrap, available_balance}
use defiads.Wallet.Payment
use defiads.Wallet.Commitment.{scripter}
use defiads.Outgoing.{
  Outgoing, Funding, store_account, store_txout, read_unconfirmed, store_coins, store_processed,
}
use defiads.Store
use defiads.Store.{Store, add_content}

module _ {w : World} (b : Bank w) where
  pub record Ledger : Type 0 where
    pub store : Store w
    pub wallet : Wallet b
    pub out : Outgoing b
    pub publications : Publications w
    pub txout : Bool

  -- What is left, and the transactions sent.
  abbrev pub Outcome : Type 0 → Type 0
  Outcome A = Result A × Ledger × List (Tx w)

  abbrev pub sent : Bool → Tx w → List (Tx w)
  sent true tx = tx ∷ []
  sent false tx = []

  -- The account that changed and the transaction are stored.
  unfoldable pub note :
      ℕ × ℕ → Tx w → Option (Funding w) → Wallet b → Ledger → Run (Ledger × List (Tx w))
  note account tx funding wal l = do
    a ← unwrap (b.get_account account wal.master)
    let out = record l.out {
      accounts = store_account b a l.out.accounts;
      txouts = store_txout b tx funding l.out.txouts;
    }
    ok (record l { wallet = wal; out = out }, sent l.txout tx)

  -- `ContentStore::fund`: the term is stored as it is given.
  unfoldable pub fund :
      ContentKey
      → ℕ
      → ℕ
      → ℕ
      → w.codec.Str
      → Trunk w
      → (ℕ → ℕ)
      → Ledger
      → Run (Outcome (Tx w × w.PublicKey × ℕ))
  fund id term amount fee_per_vbyte passphrase trunk random l = do
    r ←
        Payment.fund b id.digest term passphrase fee_per_vbyte amount trunk (scripter w) random
          l.wallet
    elim (r.0) [
      | failed fault ↦ ok (failed fault, record l { wallet = r.1 }, [])
      | done (tx, funder, fee) ↦ note (1, 0) tx (some (funder, id, term)) (r.1) l >>= λ n.
          ok (done (tx, funder, fee), n.0, n.1)
    ]

  -- `ContentStore::withdraw`
  unfoldable pub withdraw :
      w.codec.Str → w.Script → ℕ → Option ℕ → Trunk w → (ℕ → ℕ) → Ledger → Run (Outcome (Tx w × ℕ))
  withdraw passphrase address fee_per_vbyte amount trunk random l = do
    r ← Payment.withdraw b passphrase address fee_per_vbyte amount trunk random l.wallet
    elim (r.0) [
      | failed fault ↦ ok (failed fault, record l { wallet = r.1 }, [])
      | done (tx, fee) ↦ note (0, 1) tx none (r.1) l >>= λ n. ok (done (tx, fee), n.0, n.1)
    ]

  unfoldable pub balance : Trunk w → Ledger → List ℕ
  balance trunk l =
      Wallet.balance b l.wallet ∷ available_balance b trunk.len trunk.get_height l.wallet ∷ []

  unfoldable pub deposit_address : Ledger → Run (w.Script × Ledger)
  deposit_address l = do
    r ← unwrap (b.next_key (0, 0) l.wallet.master)
    ok (r.0, record l { wallet = record l.wallet { master = r.1 } })

  -- `unwind_tip`, with the block before as the one that is processed last.
  unfoldable pub unwind_tip : w.Header → Ledger → Run Ledger
  unwind_tip header l = do
    s ← Store.unwind_tip w header l.store
    ok (record l {
      store = s;
      out = store_processed b (w.prev_blockhash header) l.out;
      wallet = Wallet.unwind_tip b (w.bitcoin_hash header) l.wallet;
    })

  -- The position of a transaction in a block.
  unfoldable pub find_tx : ℕ → ℕ → List (Tx w) → Option ℕ
  find_tx txid i [] = none
  find_tx txid i (tx ∷ txs) = if b.txid tx == txid then some i else find_tx txid (suc i) txs

  -- A publication that a block confirmed: the position, the funder, the ad if it is known, the term.
  abbrev pub Confirmed : Type 0
  Confirmed = ℕ × w.PublicKey × Option (Ad w.codec) × ℕ

  unfoldable pub newly_confirmed :
      b.Block → Publications w → List (Tx w × Option (Funding w)) → List Confirmed
  unfolding find_tx
  newly_confirmed block ps [] = []
  newly_confirmed block ps ((t, none) ∷ sent) = newly_confirmed block ps sent
  newly_confirmed block ps ((t, some (p, id, term)) ∷ sent) =
      let rest = newly_confirmed block ps sent in
      elim (find_tx (b.txid t) 0 (b.txdata block)) [
        | none ↦ rest
        | some tix ↦ (tix, p, read_publication w id ps, term) ∷ rest
      ]

  -- The loop that adds the ads.
  unfoldable pub publish : Trunk w → b.Block → List Confirmed → Store w → Run (Store w)
  publish trunk block [] s = ok s
  publish trunk block ((tix, funder, none, term) ∷ cs) s = publish trunk block cs s
  publish trunk block ((tix, funder, some ad, term) ∷ cs) s = do
    r ←
        add_content w trunk
          (record { funding = b.prove block tix; ad = ad; funder = funder; term = term }) s
    publish trunk block cs (r.1)

  unfoldable pub block_connected : Trunk w → b.Block → Ledger → Run Ledger
  unfolding newly_confirmed publish
  block_connected trunk block l = do
    unconfirmed ← read_unconfirmed b l.out.txouts
    let confirmed = newly_confirmed block l.publications unconfirmed
    let r = Wallet.process b block l.wallet
    out ← elim (r.0) as (λ _. Run (Outgoing b)) [
      | true ↦ store_coins b r.1.coins l.out
      | false ↦ ok l.out
    ]
    s ← publish trunk block confirmed l.store
    ok (record l {
      store = s;
      wallet = r.1;
      out = store_processed b (w.bitcoin_hash (b.header block)) out;
    })
