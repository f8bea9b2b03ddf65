-- ===== src/Wallet/Conservation.antt =====
-- `fund` and `withdraw` of src/wallet.rs: where the money of a payment goes.
use mathlib.Core.Option.{none-ne-some, some-injective}
use defiads.Prelude.{
  ℕ, zero, suc, ◌+◌, ◌-◌, ◌%◌, ◌^◌, ◌≤◌, ◌<◌, ◌≡◌, sym, ◌∙◌, subst, inl, inr, arith, Bool, ◌&&◌,
  some, List, [], ◌∷◌, ltb, if◌then◌else◌, All, ok, Bool-cases, ok_injective,
}
use defiads.World.{World}
use defiads.Wallet.{Tx, Bank, Wallet, Chosen, done, dust, total_input}
use defiads.Wallet.Payment.{Order, insert_at, outputs, has_change, settle}
use defiads.Wallet.Settling.{IsSound, IsSettled, settle-IsSettled}

-- The sum of the outputs, without a wrap.
abbrev pub values : {S : Type 0} → List (ℕ × S) → ℕ
values [] = 0
values (o ∷ os) = o.0 + values os

abbrev IsDear : {S : Type 0} → ℕ × S → Type 0
IsDear o = dust < o.0

-- A transaction pays the fee and the outputs out of the total, and no more than the dust is lost.
pub record IsConserved {S : Type 0} (total fee : ℕ) (os : List (ℕ × S)) : Type 0 where
  pub within : values os + fee ≤ total
  pub nothing_lost : total ≤ values os + fee + dust
  pub no_dust : All IsDear os

module _ {S : Type 0} where
  insert_at-cases :
      (P : List (ℕ × S) → Type 0) (i : ℕ) (a c : ℕ × S)
      → P (a ∷ c ∷ [])
      → P (c ∷ a ∷ [])
      → P (insert_at i a (c ∷ []))
  insert_at-cases P zero a c before after = before
  insert_at-cases P (suc zero) a c before after = after
  insert_at-cases P (suc (suc i)) a c before after = after

  abbrev placed : Bool → ℕ → ℕ × S → List (ℕ × S) → List (ℕ × S)
  placed test i a os = if test then insert_at i a os else os

  placed-IsConserved :
      (total amount fee i : ℕ) (target change : S)
      → amount ≤ total
      → fee ≤ amount
      → dust < amount - fee
      → IsConserved total fee (
          placed
            (ltb amount total && ltb dust (total - amount))
            i
            (total - amount, change)
            ((amount - fee, target) ∷ []))
  placed-IsConserved total amount fee i target change enough small dear =
      elim (Bool-cases (ltb amount total && ltb dust (total - amount))) [
        | inl e ↦ rw e (
            let much : dust < total - amount = ground (arith, e) in
            insert_at-cases (IsConserved total fee) i (total - amount, change)
              (amount - fee, target)
              (record {
                within = omega arith;
                nothing_lost = omega arith;
                no_dust = (much, (dear, tt));
              })
              (record {
                within = omega arith;
                nothing_lost = omega arith;
                no_dust = (dear, (much, tt));
              }))
        | inr e ↦ rw e (
            let few : total ≤ amount + dust = ground (arith, e) in
            record { within = omega arith; nothing_lost = omega arith; no_dust = (dear, tt) })
      ]

module _ {w : World} (b : Bank w) where
  total_input-small : (chosen : List (Chosen w)) → total_input b chosen < 2 ^ 64
  unfolding total_input
  total_input-small [] = omega arith
  total_input-small ((point, coin, h) ∷ chosen) = omega arith

  outputs-IsConserved :
      (o : Order w) (random fee : ℕ) (os : List (ℕ × w.Script))
      → outputs b o random fee ≡ some os
      → o.amount ≤ total_input b o.chosen
      → fee ≤ o.amount
      → IsConserved (total_input b o.chosen) fee os
  unfolding outputs has_change
  outputs-IsConserved o random fee os e enough small =
      let bound = total_input-small o.chosen in
      let exact : (o.amount + 2 ^ 64 - fee) % 2 ^ 64 ≡ o.amount - fee = omega arith in
      elim (Bool-cases (ltb dust (o.amount - fee))) [
        | inr f ↦ absurd (none-ne-some os (rw (exact, f) at e))
        | inl f ↦
            subst (IsConserved (total_input b o.chosen) fee)
              (some-injective _ _ (rw (exact, f) at e))
              (placed-IsConserved (total_input b o.chosen) o.amount fee (random % 2) o.target
                o.change enough small (ground (arith, f)))
      ]

  -- Where the crates keep their promises and the rate is between 1 and 100: a payment whose fee is
  -- within the amount pays its fee and its outputs out of the coins that it spends, to the last
  -- satoshi but at most 546, and has no output of 546 or less.
  pub settle-IsConserved :
      IsSound b
      → (o : Order w) (height : ℕ) (random : ℕ → ℕ) (u : b.Unlocker) (wal left : Wallet b)
      → (tx : Tx w) (fee : ℕ) → 0 < o.rate
      → o.rate ≤ 100
      → settle b o height random u wal ≡ ok (done (tx, fee), left)
      → fee ≤ o.amount
      → IsConserved (total_input b o.chosen) fee tx.output
  settle-IsConserved h o height random u wal left tx fee pos small e within =
      let r = settle-IsSettled b h o height random u wal pos small in
      let s : IsSettled b o height wal (done (tx, fee), left) =
        subst (IsSettled b o height wal) (ok_injective (sym r.1 ∙ e)) r.2 in
      outputs-IsConserved o s.1.random fee tx.output s.1.tx_output s.0 within

  outputs_overdrawn :
      (o : Order w) (random fee : ℕ) (os : List (ℕ × w.Script))
      → outputs b o random fee ≡ some os
      → o.amount < fee
      → fee < 2 ^ 64
      → 2 ^ 64 + o.amount ≤ values os + fee
  unfolding outputs
  outputs_overdrawn o random fee os e over small =
      let paid = (o.amount + 2 ^ 64 - fee) % 2 ^ 64 in
      let wrapped : paid + fee ≡ 2 ^ 64 + o.amount = omega arith in
      let extra : ℕ × w.Script = (total_input b o.chosen - o.amount, o.change) in
      elim (Bool-cases (ltb dust paid)) [
        | inr f ↦ absurd (none-ne-some os (rw f at e))
        | inl f ↦
            subst (λ xs. 2 ^ 64 + o.amount ≤ values xs + fee) (some-injective _ _ (rw f at e))
              (elim (Bool-cases (has_change b o)) [
                | inl g ↦ rw g (
                    insert_at-cases (λ xs. 2 ^ 64 + o.amount ≤ values xs + fee) (random % 2) extra
                      (paid, o.target) (omega arith) (omega arith))
                | inr g ↦ rw g (omega arith)
              ])
      ]

  -- Where the crates keep their promises and the rate is between 1 and 100: a payment that is made
  -- although its fee is above its amount has outputs worth 2 ^ 64 + amount - fee at the least.
  pub settle_overdrawn :
      IsSound b
      → (o : Order w) (height : ℕ) (random : ℕ → ℕ) (u : b.Unlocker) (wal left : Wallet b)
      → (tx : Tx w) (fee : ℕ) → 0 < o.rate
      → o.rate ≤ 100
      → settle b o height random u wal ≡ ok (done (tx, fee), left)
      → o.amount < fee
      → fee < 2 ^ 64
      → 2 ^ 64 + o.amount ≤ values tx.output + fee
  settle_overdrawn h o height random u wal left tx fee pos small e over bound =
      let r = settle-IsSettled b h o height random u wal pos small in
      let s : IsSettled b o height wal (done (tx, fee), left) =
        subst (IsSettled b o height wal) (ok_injective (sym r.1 ∙ e)) r.2 in
      outputs_overdrawn o s.1.random fee tx.output s.1.tx_output over bound
