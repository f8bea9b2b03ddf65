-- ===== src/Ledger/Publishing.antt =====
-- From the payment to the ad: when the block of the payment for an ad lets the ad in, and when it
-- never does.
use mathlib.Core.Bool.{false≢true}
use mathlib.Core.Option.{none-ne-some, some-injective}
use defiads.Prelude.{
  ℕ, zero, suc, min, ◌+◌, ◌-◌, ◌%◌, ◌^◌, ◌≤◌, ◌<◌, ◌≡◌, ◌≢◌, refl, sym, ap, ap₂, ◌∙◌, subst, inl,
  inr, arith, Bool, true, false, none, some, Option-cases, Bool-cases, List, [], ◌∷◌, ltb, ok,
  ok_injective,
}
use defiads.World.{World}
use defiads.Keys.{ContentKey}
use defiads.Trunk.{Trunk}
use defiads.Contents.{Content, digest}
use defiads.Store.{admissible, commitment, find_output, funding_address}
use defiads.Store.Guards.{admissible-IsAdmitted, IsAdmitted-admissible}
use defiads.Wallet.{Tx, Bank, Wallet, Result, failed, done, dust, max_term}
use defiads.Wallet.Payment
use defiads.Wallet.Payment.{Order, outputs, has_change, insert_at, with_funder}
use defiads.Wallet.Settling.{IsSound, IsSettled}
use defiads.Wallet.Commitment.{
  HasAccounts, IsFunded, committed, scripter, fund-IsFunded, fund-IsOrdered,
}

module _ {w : World} (b : Bank w) where
  -- The ad that a payment for an id funds, once a proof of the payment is there.
  abbrev pub IsPaid : Content w → w.PublicKey → ContentKey → ℕ → Tx w → Type 0
  IsPaid c funder id term tx =
      (digest w c.ad ≡ id)
      × (c.funder ≡ funder)
      × (c.term ≡ term)
      × (w.output (w.get_transaction c.funding) ≡ tx.output)

  commitment-committed :
      (c : Content w) (funder : w.PublicKey) (id : ContentKey) (term : ℕ) (tx : Tx w)
      → IsPaid c funder id term tx
      → commitment w c ≡ committed w funder id.digest term
  unfolding commitment digest
  commitment-committed c funder id term tx h =
      let key : w.sha256 (w.cbor c.ad) ≡ id.digest = ap (λ (k : ContentKey). k.digest) h.0 in
      ap₂ (λ pk t. funding_address w pk t) (ap₂ (λ f k. w.tweak_exp_add f k) h.1 key) h.2

  -- Where the crates keep their promises and the wallet has its accounts: an ad that `fund` paid for,
  -- for at most 4320 blocks, passes the guards of `add_content` as soon as the block of the payment is
  -- on the trunk with the merkle root of the proof and the term is not over, if the proved
  -- transaction has the outputs of the payment and a version of 2 or above. The value that it locks
  -- is above 546.
  pub funded_IsAdmissible :
      IsSound b
      → HasAccounts b
      → (id : ContentKey) (term : ℕ) (passphrase : w.codec.Str) (fee_per_vbyte amount : ℕ)
      → (trunk : Trunk w) (random : ℕ → ℕ) (wal left : Wallet b)
      → (tx : Tx w) (funder : w.PublicKey) (fee : ℕ)
      → Payment.fund b id.digest term passphrase fee_per_vbyte amount trunk (scripter w) random wal
        ≡ ok (done (tx, funder, fee), left)
      → term ≤ max_term
      → (later : Trunk w) (c : Content w) (height : ℕ) (header : w.Header)
      → IsPaid c funder id term tx
      → later.get_height (w.get_block_hash c.funding) ≡ some height
      → later.len ≤ (height + term) % 2 ^ 32
      → later.get_header (w.get_block_hash c.funding) ≡ some header
      → w.merkle_root header ≡ w.proof_merkle_root c.funding
      → 2 ≤ w.version (w.get_transaction c.funding)
      → (v : ℕ) × (admissible w later c ≡ some (height, header, v)) × (dust < v)
  funded_IsAdmissible h accounts id term passphrase fee_per_vbyte amount trunk random wal left tx
        funder fee e short later c height header paid on_trunk unexpired in_block rooted modern =
      let r =
        fund-IsFunded b h accounts id.digest term passphrase fee_per_vbyte amount trunk random
          wal in
      let (v, pays, dear) =
        subst (IsFunded b id.digest term wal) (ok_injective (sym r.1 ∙ e)) r.2 in
      let clamped : min max_term term ≡ term = omega arith in
      let pays' : find_output w (commitment w c) (w.output (w.get_transaction c.funding)) ≡ some v =
        ap₂ (find_output w)
          (commitment-committed c funder id term tx paid
            ∙ sym (ap (committed w funder id.digest) clamped))
          paid.3
        ∙ pays in
      (
        v,
        admissible-IsAdmitted w later c height header v (record {
          on_trunk = on_trunk;
          unexpired = rw paid.2 unexpired;
          in_block = in_block;
          proved = rooted;
          version = modern;
          pays = pays';
        }),
        dear,
      )

  find_inserted :
      (script : w.Script) (i : ℕ) (a c : ℕ × w.Script)
      → w.script_eq a.1 script ≡ false
      → w.script_eq c.1 script ≡ false
      → find_output w script (insert_at i a (c ∷ [])) ≡ none
  unfolding find_output
  find_inserted script zero a c f g = rw (f, g) refl
  find_inserted script (suc zero) a c f g = rw (g, f) refl
  find_inserted script (suc (suc i)) a c f g = rw (g, f) refl

  differs : (x y : w.Script) → x ≢ y → w.script_eq x y ≡ false
  differs x y n = elim (Bool-cases (w.script_eq x y)) [
    | inl e ↦ absurd (n ((w.script_eq_iff x y).0 e))
    | inr e ↦ e
  ]

  -- A script that is neither the target nor the change is not paid.
  outputs_unpaid :
      (o : Order w) (random fee : ℕ) (os : List (ℕ × w.Script)) (script : w.Script)
      → outputs b o random fee ≡ some os
      → o.target ≢ script
      → o.change ≢ script
      → find_output w script os ≡ none
  unfolding outputs find_output
  outputs_unpaid o random fee os script e n m =
      let paid = (o.amount + 2 ^ 64 - fee) % 2 ^ 64 in
      let f = differs o.target script n in
      let g = differs o.change script m in
      elim (Bool-cases (ltb dust paid)) [
        | inr t ↦ absurd (none-ne-some os (rw t at e))
        | inl t ↦
            subst (λ xs. find_output w script xs ≡ none) (some-injective _ _ (rw t at e))
              (elim (Bool-cases (has_change b o)) [
                | inl u ↦ rw u (find_inserted script (random % 2) _ _ g f)
                | inr u ↦ rw u (rw (find_output, f) refl)
              ])
      ]

  abbrev result_or :
      Tx w × w.PublicKey × ℕ → Result (Tx w × w.PublicKey × ℕ) → Tx w × w.PublicKey × ℕ
  result_or d (failed fault) = d
  result_or d (done r) = r

  abbrev is_done : Result (Tx w × w.PublicKey × ℕ) → Bool
  is_done (failed fault) = false
  is_done (done r) = true

  done_order :
      (o : Order w) (height : ℕ) (wal : Wallet b) (r : Result (Tx w × ℕ) × Wallet b)
      (pk funder : w.PublicKey) (tx : Tx w) (fee : ℕ)
      → with_funder b pk r.0 ≡ done (tx, funder, fee)
      → IsSettled b o height wal r
      → (pk ≡ funder) × (random : ℕ) × (outputs b o random fee ≡ some tx.output)
  done_order o height wal (failed fault, left) pk funder tx fee e s =
      absurd (false≢true (ap is_done e))
  done_order o height wal (done (tx', fee'), left) pk funder tx fee e s =
      let same : Path (Tx w × w.PublicKey × ℕ) (tx', pk, fee') (tx, funder, fee) =
        ap (result_or (tx, funder, fee)) e in
      (
        ap (λ (x : Tx w × w.PublicKey × ℕ). x.1) same,
        s.1.random,
        subst (λ (x : Tx w × w.PublicKey × ℕ). outputs b o s.1.random x.2 ≡ some x.0.output) same
            s.1.tx_output,
      )

  -- Where the crates keep their promises and the wallet has its accounts: an ad that `fund` paid for,
  -- for more than 4320 blocks, never passes the guards of `add_content` with the term that was asked
  -- for, which is the term that is noted with the payment, if the scripts for that term and for 4320
  -- differ and the change goes elsewhere.
  pub overlong_not_admissible :
      IsSound b
      → (accounts : HasAccounts b) (id : ContentKey) (term : ℕ) (passphrase : w.codec.Str)
      → (fee_per_vbyte amount : ℕ) (trunk : Trunk w) (random : ℕ → ℕ) (wal left : Wallet b)
      → (tx : Tx w) (funder : w.PublicKey) (fee : ℕ)
      → Payment.fund b id.digest term passphrase fee_per_vbyte amount trunk (scripter w) random wal
        ≡ ok (done (tx, funder, fee), left)
      → max_term < term
      → ((pk : w.PublicKey) → committed w pk id.digest max_term ≢ committed w pk id.digest term)
      → ((pk : w.PublicKey) → (accounts.changes wal.master).0.0 ≢ committed w pk id.digest term)
      → (later : Trunk w) (c : Content w) → IsPaid c funder id term tx
      → admissible w later c ≡ none
  overlong_not_admissible h accounts id term passphrase fee_per_vbyte amount trunk random wal left
        tx funder fee e long apart elsewhere later c paid =
      elim (fund-IsOrdered b h accounts id.digest term passphrase fee_per_vbyte amount trunk random
        wal) [
          | inl f ↦ absurd (
              false≢true
                (ap (λ (r : Result (_) × Wallet b). is_done r.0) (ok_injective (sym f ∙ e))))
          | inr r ↦
              let (same, n, paying) =
                done_order r.order trunk.len (record wal { master = r.master }) r.result r.funder
                  funder tx fee
                  (ap (λ (x : Result (_) × Wallet b). x.0) (ok_injective (sym r.ends ∙ e)))
                  r.settled in
              let script = committed w funder id.digest term in
              let clamped : min max_term term ≡ max_term = omega arith in
              let target : r.order.target ≡ committed w funder id.digest max_term =
                r.target ∙ ap₂ (λ pk t. committed w pk id.digest t) same clamped in
              let unpaid =
                outputs_unpaid r.order n fee tx.output script paying
                  (λ p. apart funder (sym target ∙ p)) (λ p. elsewhere funder (sym r.change ∙ p)) in
              elim (Option-cases (admissible w later c)) [
                | inl none_found ↦ none_found
                | inr ((height, header, v), found) ↦
                    let admitted = IsAdmitted-admissible w later c height header v found in
                    absurd (
                      none-ne-some v (
                        sym unpaid
                        ∙ sym (
                            ap₂ (find_output w) (commitment-committed c funder id term tx paid)
                              paid.3)
                        ∙ admitted.pays))
              ]
        ]
