-- ===== src/Ledger/Noting.antt =====
-- `fund` of src/store.rs: what is noted of a payment for an ad.
use defiads.Prelude.{ℕ, min, ◌<◌, ◌≡◌, refl, some, [], ◌∷◌, All, Run, ok, ◌>>=◌, Returns}
use defiads.World.{World}
use defiads.Keys.{ContentKey}
use defiads.Trunk.{Trunk}
use defiads.Store.{find_output}
use defiads.Wallet.{Tx, Bank, Wallet, Result, failed, done, dust, max_term}
use defiads.Wallet.Settling.{IsSound}
use defiads.Wallet.Commitment.{HasAccounts, IsFunded, committed, fund-IsFunded}
use defiads.Outgoing.{read_unconfirmed}
use defiads.Outgoing.Unconfirmed.{IsWhole, without, read-store_txout}
use defiads.Ledger.{Ledger, Outcome, sent, note, fund}

module _ {w : World} (b : Bank w) where
  -- The table `account` gets the accounts that the wallet pays from.
  abbrev pub HasAccount : ℕ × ℕ → Type 0
  HasAccount name = (m : b.Master) → (a : b.Account) × (b.get_account name m ≡ some a)

  -- How `fund` of the store ends.
  abbrev pub IsNoted : ContentKey → ℕ → Ledger b → Outcome b (Tx w × w.PublicKey × ℕ) → Type 0
  IsNoted id term l (failed fault, l', messages) =
      (l'.out ≡ l.out) × (l'.store ≡ l.store) × (l'.wallet.coins ≡ l.wallet.coins) × (messages ≡ [])
  IsNoted id term l (done (tx, funder, fee), l', messages) =
      Returns (read_unconfirmed b l.out.txouts) (λ before.
        (read_unconfirmed b l'.out.txouts
          ≡ ok ((tx, some (funder, id, term)) ∷ without b (b.txid tx) before))
        × All (IsWhole b) l'.out.txouts)
      × ((v : ℕ) × (find_output w (committed w funder id.digest (min max_term term)) tx.output
            ≡ some v)
          × (dust < v))
      × (l'.store ≡ l.store)
      × (messages ≡ sent b l.txout tx)

  noted :
      (id : ContentKey) (term : ℕ) (l : Ledger b) (r : Result (Tx w × w.PublicKey × ℕ) × Wallet b)
      → HasAccount (1, 0)
      → All (IsWhole b) l.out.txouts
      → IsFunded b id.digest term l.wallet r
      → Returns
          (elim r.0 as (λ _. Run (Outcome b (Tx w × w.PublicKey × ℕ))) [
            | failed fault ↦ ok (failed fault, record l { wallet = r.1 }, [])
            | done (tx, funder, fee) ↦ note b (1, 0) tx (some (funder, id, term)) (r.1) l >>= λ n.
                ok (done (tx, funder, fee), n.0, n.1)
          ])
          (IsNoted id term l)
  unfolding note
  noted id term l (failed fault, left) accounts whole f = (_, refl, (refl, refl, f, refl))
  noted id term l (done (tx, funder, fee), left) accounts whole f =
      let a = accounts left.master in
      rw a.1 (
        _,
        refl,
        (read-store_txout b tx (some (funder, id, term)) l.out.txouts whole, f, refl, refl),
      )

  -- Where the crates keep their promises, the wallet has its accounts and the rows of the sent
  -- transactions are whole: `fund` of the store ends. If it fails, the store, the tables and the coins
  -- are as before, and nothing is sent. If it makes a transaction, then that one is sent if there is a
  -- sender, is read back first among the unconfirmed ones, with the funder, the id and the term that
  -- was asked for, and pays the script that commits to the id for that term, 4320 at most.
  pub fund-IsNoted :
      IsSound b
      → HasAccounts b
      → HasAccount (1, 0)
      → (id : ContentKey) (term amount fee_per_vbyte : ℕ) (passphrase : w.codec.Str)
      → (trunk : Trunk w) (random : ℕ → ℕ) (l : Ledger b) → All (IsWhole b) l.out.txouts
      → Returns (fund b id term amount fee_per_vbyte passphrase trunk random l) (IsNoted id term l)
  unfolding fund
  fund-IsNoted h accounts account id term amount fee_per_vbyte passphrase trunk random l whole =
      let r =
        fund-IsFunded b h accounts id.digest term passphrase fee_per_vbyte amount trunk random
          l.wallet in
      rw r.1 (noted id term l r.0 account whole r.2)
