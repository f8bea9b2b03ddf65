-- ===== src/Wallet/Payment.antt =====
-- `fund` and `withdraw` of src/wallet.rs. They share their last part, the loop that sets the outputs
-- and the fee: `settle`. The loop runs on fuel; that two rounds are enough is proved. A fee above the
-- amount wraps `amount - fee`.
use defiads.Prelude.{
  ℕ, zero, suc, min, ◌+◌, ◌-◌, ◌%◌, ◌^◌, Bool, true, false, ◌&&◌, Option, none, some, List, [], ◌∷◌,
  ◌==◌, ltb, if◌then◌else◌, length, Run, ok, panic, ◌>>=◌,
}
use defiads.Prelude.Array.{Array}
use defiads.Keys.{digest_len}
use defiads.World.{World, ScriptOp}
use defiads.Trunk.{Trunk}
use defiads.Wallet.{
  Tx, Chosen, Bank, Wallet, Result, failed, done, library, insufficient_funds, less_than_fees,
  not_all_signed, dust, max_term, unwrap, available_balance, total_input, unsigned, find_coin,
  charge, clamp_fee,
}

-- `Vec::insert` at 0 or 1, of a vector of at least one element
abbrev pub insert_at {ℓ} : {A : Type ℓ} → ℕ → A → List A → List A
insert_at zero a xs = a ∷ xs
insert_at (suc i) a [] = a ∷ []
insert_at (suc i) a (x ∷ xs) = x ∷ insert_at i a xs

-- What is paid: the amount that is to be paid, fee included, to a script, out of the coins chosen,
-- with a script for the change.
pub record Order (w : World) : Type 0 where
  pub amount : ℕ
  pub target : w.Script
  pub change : w.Script
  pub chosen : List (Chosen w)
  pub rate : ℕ

module _ {w : World} (b : Bank w) where
  -- `total_input > amount && (total_input - amount) > DUST`
  unfoldable pub has_change : Order w → Bool
  has_change o =
      ltb o.amount (total_input b o.chosen) && ltb dust (total_input b o.chosen - o.amount)

  -- The outputs at a fee, or none where they would be dust.
  unfoldable pub outputs : Order w → ℕ → ℕ → Option (List (ℕ × w.Script))
  outputs o random fee =
      let paid = (o.amount + 2 ^ 64 - fee) % 2 ^ 64 in
      let contract = (paid, o.target) ∷ [] in
      if ltb dust paid
      then some (
          if has_change o
          then insert_at (random % 2) (total_input b o.chosen - o.amount, o.change) contract
          else contract)
      else none

  -- The loop: with no fee yet it signs once to learn the weight.
  unfoldable pub compile :
      Order w → b.Master → (ℕ → ℕ) → ℕ → ℕ → Tx w → b.Unlocker → Option (Result (Tx w × ℕ))
  compile o master random zero fee tx u = none
  compile o master random (suc fuel) fee tx u = elim (outputs o (random fuel) fee) [
    | none ↦ some (failed less_than_fees)
    | some os ↦ elim (b.sign master (record tx { output = os }) (find_coin b o.chosen) u) [
      | none ↦ some (failed library)
      | some (n, signed, u') ↦ elim (n == length signed.input) [
        | false ↦ some (failed not_all_signed)
        | true ↦ elim fee [
          | zero ↦ compile o master random fuel (charge b o.rate signed) signed u'
          | suc before ↦ some (done (signed, suc before))
        ]
      ]
    ]
  ]

  -- The rounds of the loop.
  abbrev pub rounds : ℕ
  rounds = 2

  -- What `fund` and `withdraw` do once the coins and the scripts are known.
  unfoldable pub settle :
      Order w → ℕ → (ℕ → ℕ) → b.Unlocker → Wallet b → Run (Result (Tx w × ℕ) × Wallet b)
  settle o height random u wal =
      if ltb (total_input b o.chosen) o.amount
      then ok (failed insufficient_funds, wal)
      else elim (compile o wal.master random rounds 0 (unsigned b height o.chosen) u) [
        | none ↦ panic
        | some (failed fault) ↦ ok (failed fault, wal)
        | some (done (tx, fee)) ↦
            let r = b.process_unconfirmed_transaction wal.master tx wal.coins in
            ok (done (tx, fee), record { master = r.0; coins = r.1 })
      ]

  abbrev pub with_funder : w.PublicKey → Result (Tx w × ℕ) → Result (Tx w × w.PublicKey × ℕ)
  with_funder funder (failed fault) = failed fault
  with_funder funder (done (tx, fee)) = done (tx, funder, fee)

  -- The key of the ad is made before the funds are looked at, so it stays when they do not suffice.
  unfoldable pub fund :
      Array ℕ digest_len
      → ℕ
      → w.codec.Str
      → ℕ
      → ℕ
      → Trunk w
      → (w.PublicKey → Option ℕ → List ScriptOp)
      → (ℕ → ℕ)
      → Wallet b
      → Run (Result (Tx w × w.PublicKey × ℕ) × Wallet b)
  fund id term passphrase fee_per_vbyte amount trunk scripter random wal =
      elim (b.unlocker wal.master passphrase) [
        | none ↦ ok (failed library, wal)
        | some u ↦ do
          change ← unwrap (b.next_key (0, 1) wal.master)
          let chosen = b.choose_inputs wal.coins amount trunk.len trunk.get_height
          committed ←
              unwrap (b.add_script_key (1, 0) scripter id (some (min max_term term)) change.1)
          contract ← unwrap (b.get_key (1, 0) committed.0 committed.1)
          funder ← unwrap (b.compute_base_public_key (1, 0) committed.0 committed.1)
          r ←
              settle
                (record {
                  amount = amount;
                  target = contract;
                  change = change.0;
                  chosen = chosen;
                  rate = clamp_fee b fee_per_vbyte;
                })
                trunk.len random u (record wal { master = committed.1 })
          ok (with_funder funder r.0, r.1)
      ]

  -- Without an amount, all that is available is withdrawn.
  unfoldable pub withdraw :
      w.codec.Str
      → w.Script
      → ℕ
      → Option ℕ
      → Trunk w
      → (ℕ → ℕ)
      → Wallet b
      → Run (Result (Tx w × ℕ) × Wallet b)
  withdraw passphrase address fee_per_vbyte wanted trunk random wal =
      elim (b.unlocker wal.master passphrase) [
        | none ↦ ok (failed library, wal)
        | some u ↦ do
          let amount : ℕ = elim wanted [
            | some n ↦ n
            | none ↦ available_balance b trunk.len trunk.get_height wal
          ]
          change ← unwrap (b.next_key (0, 1) wal.master)
          settle
              (record {
                amount = amount;
                target = address;
                change = change.0;
                chosen = b.choose_inputs wal.coins amount trunk.len trunk.get_height;
                rate = clamp_fee b fee_per_vbyte;
              })
              trunk.len random u (record wal { master = change.1 })
      ]
