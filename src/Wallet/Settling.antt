-- ===== src/Wallet/Settling.antt =====
-- `fund` and `withdraw` of src/wallet.rs: the loop ends, and every way in which it ends.
use native.Mathlib.Nat.{mul-pos, mul-le-mul_left}
use mathlib.Core.Option.{none-ne-some}
use defiads.Prelude.{
  ℕ, zero, suc, ◌+◌, ◌-◌, ◌*◌, ◌/◌, ◌%◌, ◌^◌, ◌≤◌, ◌<◌, ◌≡◌, refl, sym, ap, ◌∙◌, ◌⊎◌, inl, inr,
  arith, Option, none, some, List, map, ◌==◌, ltb, length, Run, ok, panic, Returns, Bool-cases,
  Option-cases,
}
use defiads.World.{World}
use defiads.Wallet.{
  Tx, TxIn, Bank, Wallet, OutPoint, Result, failed, done, library, insufficient_funds,
  less_than_fees, not_all_signed, dust, total_input, unsigned, find_coin, charge,
}
use defiads.Wallet.Payment.{Order, outputs, compile, settle}

module _ {w : World} where
  -- What an input spends, and under which lock.
  abbrev pub spends : TxIn w → OutPoint × ℕ
  spends i = (i.previous_output, i.sequence)

  abbrev pub spent : Tx w → List (OutPoint × ℕ)
  spent tx = map spends tx.input

module _ {w : World} (b : Bank w) where
  -- What the crates promise: a signature leaves the outputs, and what the inputs spend; a transaction
  -- has a weight, of 32 bits.
  pub record IsSound : Type 0 where
    pub sign-output :
        (m : b.Master) (tx : Tx w) (f : OutPoint → Option (ℕ × w.Script)) (u : b.Unlocker)
        (r : ℕ × Tx w × b.Unlocker)
        → b.sign m tx f u ≡ some r
        → r.1.output ≡ tx.output
    pub sign-spent :
        (m : b.Master) (tx : Tx w) (f : OutPoint → Option (ℕ × w.Script)) (u : b.Unlocker)
        (r : ℕ × Tx w × b.Unlocker)
        → b.sign m tx f u ≡ some r
        → spent r.1 ≡ spent tx
    pub weighs : (tx : Tx w) → 0 < b.get_weight tx
    pub fits : (tx : Tx w) → b.get_weight tx < 2 ^ 32

  module _ (o : Order w) (points : List (OutPoint × ℕ)) where
    -- A fee at which the loop sets the outputs: 0, or what the transaction of the first round weighs.
    pub record IsCharged (fee : ℕ) : Type 0 where
      pub first : Tx w
      pub first_spent : spent first ≡ points
      pub random : ℕ
      pub first_output : outputs b o random 0 ≡ some first.output
      pub charged : fee ≡ charge b o.rate first

    -- A transaction that spends the points, with the outputs at the fee.
    pub record IsPayment (tx : Tx w) (fee : ℕ) : Type 0 where
      pub tx_spent : spent tx ≡ points
      pub is_charged : IsCharged fee
      pub random : ℕ
      pub tx_output : outputs b o random fee ≡ some tx.output

    abbrev pub IsCompiled : Result (Tx w × ℕ) → Type 0
    IsCompiled (failed insufficient_funds) = ⊥
    IsCompiled (failed less_than_fees) =
        (fee : ℕ) × ((fee ≡ 0) ⊎ IsCharged fee) × ((o.amount + 2 ^ 64 - fee) % 2 ^ 64 ≤ dust)
    IsCompiled (failed library) = Unit
    IsCompiled (failed not_all_signed) = Unit
    IsCompiled (done (tx, fee)) = IsPayment tx fee

    abbrev Ends : Option (Result (Tx w × ℕ)) → Type 0
    Ends run = (r : Result (Tx w × ℕ)) × (run ≡ some r) × IsCompiled r

    too_little :
        (random fee : ℕ) → outputs b o random fee ≡ none → (o.amount + 2 ^ 64 - fee) % 2 ^ 64 ≤ dust
    unfolding outputs
    too_little random fee e = elim (Bool-cases (ltb dust ((o.amount + 2 ^ 64 - fee) % 2 ^ 64))) [
      | inl much ↦ absurd (none-ne-some _ (sym (rw much at e)))
      | inr little ↦ ground (arith, little)
    ]

    module _ (h : IsSound) (m : b.Master) (random : ℕ → ℕ) where
      abbrev after_signing : ℕ → ℕ → Tx w → b.Unlocker → Option (Result (Tx w × ℕ))
      after_signing fuel fee signed u = elim fee [
        | zero ↦ compile b o m random fuel (charge b o.rate signed) signed u
        | suc before ↦ some (done (signed, suc before))
      ]

      -- A round ends in a failure, or with a signed transaction of the outputs at the fee.
      round-Ends :
          (fuel fee : ℕ) (tx : Tx w) (u : b.Unlocker)
          → spent tx ≡ points
          → (fee ≡ 0) ⊎ IsCharged fee
          → ((signed : Tx w) (u' : b.Unlocker)
              → spent signed ≡ points
              → outputs b o (random fuel) fee ≡ some signed.output
              → Ends (after_signing fuel fee signed u'))
          → Ends (compile b o m random (suc fuel) fee tx u)
      unfolding compile
      round-Ends fuel fee tx u p c next = elim (Option-cases (outputs b o (random fuel) fee)) [
        | inl e ↦
            rw (compile, e) (failed less_than_fees, refl, (fee, c, too_little (random fuel) fee e))
        | inr (os, e) ↦
            let compiled = record tx { output = os } in
            elim (Option-cases (b.sign m compiled (find_coin b o.chosen) u)) [
              | inl f ↦ rw (compile, e, f) (failed library, refl, tt)
              | inr ((n, signed, u'), f) ↦ elim (Bool-cases (n == length signed.input)) [
                | inr g ↦ rw (compile, e, f, g) (failed not_all_signed, refl, tt)
                | inl g ↦
                    rw (compile, e, f, g)
                      (next signed u' (h.sign-spent m compiled _ u _ f ∙ p)
                        (e ∙ sym (ap some (h.sign-output m compiled _ u _ f))))
              ]
            ]
      ]

  -- A fee is that of each begun quarter of a weight unit: no wrap, and never 0.
  pub charge_exact :
      (h : IsSound) (rate : ℕ) (tx : Tx w)
      → rate ≤ 100
      → charge b rate tx ≡ (b.get_weight tx * rate + 3) / 4
  unfolding charge
  charge_exact h rate tx small =
      let much = mul-le-mul_left (b.get_weight tx) small in
      let light = h.fits tx in
      let fits : (b.get_weight tx * rate + 3) % 2 ^ 64 ≡ b.get_weight tx * rate + 3 = omega arith in
      ap (λ n. n / 4) fits

  charge_pos : (h : IsSound) (rate : ℕ) (tx : Tx w) → 0 < rate → rate ≤ 100 → 0 < charge b rate tx
  charge_pos h rate tx pos small =
      let some_weight = mul-pos (h.weighs tx) pos in
      let e = charge_exact h rate tx small in omega arith

  module _ (h : IsSound) (o : Order w) (points : List (OutPoint × ℕ)) (m : b.Master)
      (random : ℕ → ℕ) where
    last_round :
        (fuel before : ℕ) (tx : Tx w) (u : b.Unlocker)
        → spent tx ≡ points
        → IsCharged o points (suc before)
        → Ends o points (compile b o m random (suc fuel) (suc before) tx u)
    last_round fuel before tx u p c =
        round-Ends o points h m random fuel (suc before) tx u p (inr c) (λ signed u' q e. (
          done (signed, suc before),
          refl,
          record { tx_spent = q; is_charged = c; random = random fuel; tx_output = e },
        ))

    second_round :
        (fuel fee : ℕ) (tx : Tx w) (u : b.Unlocker)
        → spent tx ≡ points
        → IsCharged o points fee
        → 0 < fee
        → Ends o points (compile b o m random (suc fuel) fee tx u)
    second_round fuel zero tx u p c pos = absurd (omega (arith, pos))
    second_round fuel (suc before) tx u p c pos = last_round fuel before tx u p c

    -- Two rounds are enough.
    pub compile-Ends :
        (fuel : ℕ) (tx : Tx w) (u : b.Unlocker)
        → 0 < o.rate
        → o.rate ≤ 100
        → spent tx ≡ points
        → Ends o points (compile b o m random (suc (suc fuel)) 0 tx u)
    compile-Ends fuel tx u pos small p =
        round-Ends o points h m random (suc fuel) 0 tx u p (inl refl) (λ signed u' q e.
          second_round fuel (charge b o.rate signed) signed u' q
            (record {
              first = signed;
              first_spent = q;
              random = random (suc fuel);
              first_output = e;
              charged = refl;
            })
            (charge_pos h o.rate signed pos small))

  -- How `fund` and `withdraw` end, with the wallet that they leave.
  abbrev pub IsSettled : Order w → ℕ → Wallet b → Result (Tx w × ℕ) × Wallet b → Type 0
  IsSettled o height wal (failed insufficient_funds, left) =
      (total_input b o.chosen < o.amount) × (left ≡ wal)
  IsSettled o height wal (failed fault, left) =
      (o.amount ≤ total_input b o.chosen)
      × IsCompiled o (spent (unsigned b height o.chosen)) (failed fault)
      × (left ≡ wal)
  IsSettled o height wal (done (tx, fee), left) =
      (o.amount ≤ total_input b o.chosen)
      × IsPayment o (spent (unsigned b height o.chosen)) tx fee
      × ((left.master, left.coins) ≡ b.process_unconfirmed_transaction wal.master tx wal.coins)

  settled :
      (o : Order w) (height : ℕ) (wal : Wallet b) (r : Result (Tx w × ℕ))
      → o.amount ≤ total_input b o.chosen
      → IsCompiled o (spent (unsigned b height o.chosen)) r
      → Returns
          (elim (some r) as (λ _. Run (Result (Tx w × ℕ) × Wallet b)) [
            | none ↦ panic
            | some (failed fault) ↦ ok (failed fault, wal)
            | some (done (tx, fee)) ↦
                let r = b.process_unconfirmed_transaction wal.master tx wal.coins in
                ok (done (tx, fee), record { master = r.0; coins = r.1 })
          ])
          (IsSettled o height wal)
  settled o height wal (failed insufficient_funds) enough c = elim c [ ]
  settled o height wal (failed less_than_fees) enough c = (_, refl, (enough, c, refl))
  settled o height wal (failed library) enough c = (_, refl, (enough, c, refl))
  settled o height wal (failed not_all_signed) enough c = (_, refl, (enough, c, refl))
  settled o height wal (done (tx, fee)) enough c = (_, refl, (enough, c, refl))

  -- Where the crates keep their promises and the rate is between 1 and 100: setting the outputs and
  -- the fee of a payment always ends, without running out of rounds. It fails for too little money
  -- exactly where the coins are worth less than the amount; for an amount below the fee, only where
  -- what is left at a fee that was charged is dust; and a payment that it makes spends the chosen
  -- coins, has the outputs of its fee, and is noted in the wallet, which otherwise stays as it was.
  pub settle-IsSettled :
      IsSound
      → (o : Order w) (height : ℕ) (random : ℕ → ℕ) (u : b.Unlocker) (wal : Wallet b) → 0 < o.rate
      → o.rate ≤ 100
      → Returns (settle b o height random u wal) (IsSettled o height wal)
  unfolding settle
  settle-IsSettled h o height random u wal pos small =
      elim (Bool-cases (ltb (total_input b o.chosen) o.amount)) [
        | inl poor ↦ rw poor (_, refl, (ground (arith, poor), refl))
        | inr rich ↦
            let c =
              compile-Ends h o (spent (unsigned b height o.chosen)) wal.master random 0
                (unsigned b height o.chosen) u pos small refl in
            rw (rich, c.1) (settled o height wal c.0 (ground (arith, rich)) c.2)
      ]
