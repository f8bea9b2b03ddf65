-- ===== src/Wallet/Commitment.antt =====
-- `fund` of src/wallet.rs with the scripts of src/store.rs: a payment for an ad commits to that ad.
use mathlib.Core.Option.{none-ne-some, some-injective}
use defiads.Prelude.{
  ℕ, zero, suc, min, ◌+◌, ◌-◌, ◌%◌, ◌^◌, ◌≤◌, ◌<◌, ◌≡◌, refl, ap, subst, ◌⊎◌, inl, inr, arith, true,
  Option, none, some, List, [], ◌∷◌, ltb, Run, ok, Returns, Bool-cases, Option-cases,
}
use defiads.Prelude.Array.{Array}
use defiads.Keys.{digest_len}
use defiads.World.{World, ScriptOp}
use defiads.Trunk.{Trunk}
use defiads.Store.{funding_script, funding_address, find_output}
use defiads.Wallet.{
  Tx, Bank, Wallet, Result, failed, done, library, insufficient_funds, less_than_fees,
  not_all_signed, dust, max_term, total_input, clamp_fee,
}
use defiads.Wallet.Payment.{Order, insert_at, outputs, has_change, fund, with_funder}
use defiads.Wallet.Settling.{IsSound, IsSettled, settle-IsSettled}

module _ (w : World) where
  -- The closure that `ContentStore::fund` gives to the wallet. It would panic without a term.
  unfoldable pub scripter : w.PublicKey → Option ℕ → List ScriptOp
  scripter pk term = elim term [ some t ↦ funding_script w pk t | none ↦ [] ]

  -- The script that commits to an id for a term.
  abbrev pub committed : w.PublicKey → Array ℕ digest_len → ℕ → w.Script
  committed funder id term = funding_address w (w.tweak_exp_add funder id) term

module _ {w : World} (b : Bank w) where
  -- The accounts that the wallet draws on exist, and make keys. The key for an id is the base key
  -- tweaked by the id, and its address is that of the script which the scripter makes of it.
  pub record HasAccounts : Type 0 where
    pub changes : (m : b.Master) → (r : w.Script × b.Master) × (b.next_key (0, 1) m ≡ some r)
    pub commits :
        (m : b.Master) (make : w.PublicKey → Option ℕ → List ScriptOp) (id : Array ℕ digest_len)
        (term : Option ℕ)
        → (r : ℕ × b.Master) × (funder : w.PublicKey) × (b.add_script_key (1, 0) make id term m
            ≡ some r)
          × (b.compute_base_public_key (1, 0) r.0 r.1 ≡ some funder)
          × (b.get_key (1, 0) r.0 r.1 ≡ some (w.p2wsh (make (w.tweak_exp_add funder id) term)))

  -- A search for the script finds an output above the dust.
  abbrev IsLocked : w.Script → List (ℕ × w.Script) → Type 0
  IsLocked script os = (v : ℕ) × (find_output w script os ≡ some v) × (dust < v)

  found_first :
      (script : w.Script) (value : ℕ) (os : List (ℕ × w.Script))
      → dust < value
      → IsLocked script ((value, script) ∷ os)
  unfolding find_output
  found_first script value os dear = rw ((w.script_eq_iff script script).1 refl) (value, refl, dear)

  found_second :
      (script : w.Script) (value : ℕ) (a : ℕ × w.Script)
      → dust < value
      → dust < a.0
      → IsLocked script (a ∷ (value, script) ∷ [])
  unfolding find_output
  found_second script value a dear dear' = elim (Bool-cases (w.script_eq a.1 script)) [
    | inl e ↦ rw (find_output, e) (a.0, refl, dear')
    | inr e ↦ let r = found_first script value [] dear in rw (find_output, e) (r.0, r.1, r.2)
  ]

  found_inserted :
      (script : w.Script) (value i : ℕ) (a : ℕ × w.Script)
      → dust < value
      → dust < a.0
      → IsLocked script (insert_at i a ((value, script) ∷ []))
  found_inserted script value zero a dear dear' = found_second script value a dear dear'
  found_inserted script value (suc zero) a dear dear' = found_first script value _ dear
  found_inserted script value (suc (suc i)) a dear dear' = found_first script value _ dear

  changed : (o : Order w) → has_change b o ≡ true → dust < total_input b o.chosen - o.amount
  unfolding has_change
  changed o e = ground (arith, e)

  outputs-IsLocked :
      (o : Order w) (random fee : ℕ) (os : List (ℕ × w.Script))
      → outputs b o random fee ≡ some os
      → IsLocked o.target os
  unfolding outputs
  outputs-IsLocked o random fee os e =
      let paid = (o.amount + 2 ^ 64 - fee) % 2 ^ 64 in
      elim (Bool-cases (ltb dust paid)) [
        | inr f ↦ absurd (none-ne-some os (rw f at e))
        | inl f ↦
            let dear : dust < paid = ground (arith, f) in
            subst (IsLocked o.target) (some-injective _ _ (rw f at e))
              (elim (Bool-cases (has_change b o)) [
                | inl g ↦ rw g (found_inserted o.target paid (random % 2) _ dear (changed o g))
                | inr g ↦ rw g (found_first o.target paid [] dear)
              ])
      ]

  -- How `fund` ends.
  abbrev pub IsFunded :
      Array ℕ digest_len → ℕ → Wallet b → Result (Tx w × w.PublicKey × ℕ) × Wallet b → Type 0
  IsFunded id term wal (failed fault, left) = left.coins ≡ wal.coins
  IsFunded id term wal (done (tx, funder, fee), left) =
      (v : ℕ) × (find_output w (committed w funder id (min max_term term)) tx.output ≡ some v)
      × (dust < v)

  funded :
      (id : Array ℕ digest_len) (term : ℕ) (funder : w.PublicKey) (o : Order w) (height : ℕ)
      (wal : Wallet b) (master : b.Master) (r : Result (Tx w × ℕ) × Wallet b)
      → o.target ≡ committed w funder id (min max_term term)
      → IsSettled b o height (record wal { master = master }) r
      → IsFunded id term wal (with_funder b funder r.0, r.1)
  funded id term funder o height wal master (failed insufficient_funds, left) e s =
      ap (λ (x : Wallet b). x.coins) s.1
  funded id term funder o height wal master (failed library, left) e s =
      ap (λ (x : Wallet b). x.coins) s.2
  funded id term funder o height wal master (failed less_than_fees, left) e s =
      ap (λ (x : Wallet b). x.coins) s.2
  funded id term funder o height wal master (failed not_all_signed, left) e s =
      ap (λ (x : Wallet b). x.coins) s.2
  funded id term funder o height wal master (done (tx, fee), left) e s =
      subst (λ target. IsLocked target tx.output) e
        (outputs-IsLocked o s.1.random fee tx.output s.1.tx_output)

  clamp_fee_between : (n : ℕ) → (0 < clamp_fee b n) × (clamp_fee b n ≤ 100)
  unfolding clamp_fee
  clamp_fee_between n = (omega arith, omega arith)

  -- What `fund` does behind the passphrase: it settles a payment to the script that commits to the id.
  pub record IsOrdered (accounts : HasAccounts) (id : Array ℕ digest_len) (term height : ℕ)
      (wal : Wallet b) (run : Run (Result (Tx w × w.PublicKey × ℕ) × Wallet b)) : Type 0 where
    pub funder : w.PublicKey
    pub order : Order w
    pub master : b.Master
    pub result : Result (Tx w × ℕ) × Wallet b
    pub target : order.target ≡ committed w funder id (min max_term term)
    pub change : order.change ≡ (accounts.changes wal.master).0.0
    pub settled : IsSettled b order height (record wal { master = master }) result
    pub ends : run ≡ ok (with_funder b funder result.0, result.1)

  pub fund-IsOrdered :
      IsSound b
      → (accounts : HasAccounts) (id : Array ℕ digest_len) (term : ℕ) (passphrase : w.codec.Str)
      → (fee_per_vbyte amount : ℕ) (trunk : Trunk w) (random : ℕ → ℕ) (wal : Wallet b)
      → (fund b id term passphrase fee_per_vbyte amount trunk (scripter w) random wal
          ≡ ok (failed library, wal))
        ⊎ IsOrdered accounts id term trunk.len wal
            (fund b id term passphrase fee_per_vbyte amount trunk (scripter w) random wal)
  unfolding fund scripter funding_address
  fund-IsOrdered h accounts id term passphrase fee_per_vbyte amount trunk random wal =
      elim (Option-cases (b.unlocker wal.master passphrase)) [
        | inl e ↦ inl (rw (fund, e) refl)
        | inr (u, e) ↦
            let change = accounts.changes wal.master in
            let key = accounts.commits change.0.1 (scripter w) id (some (min max_term term)) in
            let o : Order w = record {
              amount = amount;
              target = committed w key.1 id (min max_term term);
              change = change.0.0;
              chosen = b.choose_inputs wal.coins amount trunk.len trunk.get_height;
              rate = clamp_fee b fee_per_vbyte;
            } in
            let between = clamp_fee_between fee_per_vbyte in
            let wal' = record wal { master = key.0.1 } in
            let s = settle-IsSettled b h o trunk.len random u wal' between.0 between.1 in
            inr (record {
              funder = key.1;
              order = o;
              master = key.0.1;
              result = s.0;
              target = refl;
              change = refl;
              settled = s.2;
              ends = rw (fund, e, change.1, key.2, key.4, key.3, s.1) refl;
            })
      ]

  -- Where the crates keep their promises and the wallet has its accounts: `fund` ends, whatever is
  -- asked of it. If it fails the coins are as before. If it makes a transaction, then the script that
  -- commits the funder to the id, for the term or for 4320 blocks if that is less, is paid by it, with
  -- more than 546.
  pub fund-IsFunded :
      IsSound b
      → HasAccounts
      → (id : Array ℕ digest_len) (term : ℕ) (passphrase : w.codec.Str) (fee_per_vbyte amount : ℕ)
      → (trunk : Trunk w) (random : ℕ → ℕ) (wal : Wallet b)
      → Returns
          (fund b id term passphrase fee_per_vbyte amount trunk (scripter w) random wal)
          (IsFunded id term wal)
  fund-IsFunded h accounts id term passphrase fee_per_vbyte amount trunk random wal =
      elim (fund-IsOrdered h accounts id term passphrase fee_per_vbyte amount trunk random wal) [
        | inl e ↦ (_, e, refl)
        | inr r ↦ (
          _,
          r.ends,
          funded id term r.funder r.order trunk.len wal r.master r.result r.target r.settled,
        )
      ]
