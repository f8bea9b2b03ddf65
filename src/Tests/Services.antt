-- ===== src/Tests/Services.antt =====
-- A transaction sender with one transaction cached, a call of the api, and a chain with a reorg.
use mathlib.Core.Option.{none-ne-some, some-injective}
use defiads.Prelude.{
  ℕ, ◌≡◌, refl, arith, true, false, Option, none, some, List, [], ◌∷◌, All, ok, ◌==◌, if◌then◌else◌,
  Returns, Bool-cases, ==_iff, inl, inr, sym, subst, ap, suc,
}
use defiads.Trunk.{ChainDb}
use defiads.Wallet.{Tx}
use defiads.SendTx.{Inventory, TxCache, tx_hashes, on_get_data, IsNamed}
use defiads.SendTx.Answers.{IsAnswer, on_get_data-IsAnswer}
use defiads.Api.Arguments.{array, string, Rejection, rejected}
use defiads.Api.{deposit, call}
use defiads.Api.Access.{call_without_key}
use defiads.Ledger.{Ledger}
use defiads.BitcoinPeers.{catch_up}
use defiads.BitcoinPeers.Reorg.{IsLinked, IsCaughtUp, catch_up-IsCaughtUp}
use defiads.Store.{Store}
use defiads.Store.Sync.{IsSynced}
use defiads.Store.Tables.{compute-eq-table}
use defiads.Tests.Stores.{world, trunk, store, row}
use defiads.Tests.Wallets.{bank, paid}
use defiads.Tests.Ledgers.{sent_row, sent_row-IsWhole, ledger}

-- A cache of one transaction at most.
abbrev Slot : Type 0
Slot = Option (ℕ × Tx world)

abbrev slot_entries : Slot → List (ℕ × Tx world)
slot_entries none = []
slot_entries (some e) = e ∷ []

abbrev slot_get : ℕ → Slot → Option (Tx world × Slot)
slot_get hash none = none
slot_get hash (some e) = if e.0 == hash then some (e.1, some e) else none

slot_get-All :
    (P : ℕ × Tx world → Type 0) (hash : ℕ) (c c' : Slot) (t : Tx world)
    → slot_get hash c ≡ some (t, c')
    → All P (slot_entries c)
    → P (hash, t) × All P (slot_entries c')
slot_get-All P hash none c' t e h = absurd (none-ne-some _ e)
slot_get-All P hash (some (n, s)) c' t e h = elim (Bool-cases (n == hash)) [
  | inr differs ↦ absurd (none-ne-some _ (rw differs at e))
  | inl same ↦
      let found : Path (Tx world × Slot) (s, some (n, s)) (t, c') =
        some-injective _ _ (rw same at e) in
      subst (λ (x : Tx world × Slot). P (hash, x.0) × All P (slot_entries x.1)) found
        (subst (λ m. P (m, s)) ((==_iff n hash).0 same) h.0, h)
]

abbrev cache : TxCache world
cache = record {
  Cache = Slot;
  get_mut = slot_get;
  contains_key = λ hash c. elim c [ none ↦ false | some e ↦ e.0 == hash ];
  insert = λ hash t c. (elim c [ none ↦ none | some e ↦ some (e.1) ], some (hash, t));
  entries = slot_entries;
  get_mut-All = slot_get-All;
  insert-All = λ P hash c t p h. (p, tt);
}

abbrev wanted : List Inventory
wanted =
    record { is_transaction = true; hash = 2 } ∷ record { is_transaction = false; hash = 7 } ∷ []

on_get_data-IsAnswer_example :
    Returns
      (on_get_data bank cache 4 wanted (sent_row ∷ []) (some (2, paid)))
      λ r. All (IsAnswer bank cache 4 (tx_hashes bank cache wanted)) r.0 × IsNamed bank cache r.1
on_get_data-IsAnswer_example =
    on_get_data-IsAnswer bank cache 4 wanted (sent_row ∷ []) (some (2, paid)) (refl, tt)
      sent_row-IsWhole

call_without_key_example :
    (r : Rejection) × (call bank
        (true ∷ [])
        (λ h. 0)
        trunk
        (λ n. n)
        deposit
        (array (string (false ∷ []) ∷ []))
        ledger
      ≡ ok (rejected r, ledger, []))
call_without_key_example =
    call_without_key world (true ∷ []) bank (λ h. 0) trunk (λ n. n)
      (array (string (false ∷ []) ∷ [])) refl deposit ledger

-- A chain of the blocks 0 and 1, and the block 6 behind 0 that is not on the trunk. The block before
-- every header is 0.
abbrev pub chain : ChainDb world
chain = record {
  pos_on_trunk = λ h. if h == 6 then none else some h;
  get_header = λ h. if h == 6 then some ((9, 6), 1) else some ((9, 0), 0);
  get_header_for_height = λ n. none;
  header_tip = some ((9, 1), 1);
}

abbrev height_of : Option ((ℕ × ℕ) × ℕ) → ℕ
height_of none = 0
height_of (some c) = c.1

pub chain-IsLinked : IsLinked chain
chain-IsLinked = record {
  genesis = λ hash header e. elim (Bool-cases (hash == 6)) [
    | inl side ↦ let high : 1 ≡ 0 = ap height_of (rw side at e) in absurd (omega (arith, high))
    | inr main ↦ (hash, rw main refl)
  ];
  before = λ hash header height e. elim (Bool-cases (hash == 6)) [
    | inl side ↦
        let low : 1 ≡ suc height = ap height_of (rw side at e) in
        let zero_height : height ≡ 0 = omega arith in
        ((9, 0), ap (λ n. some ((9, 0), n)) (sym zero_height))
    | inr main ↦
        let low : 0 ≡ suc height = ap height_of (rw main at e) in absurd (omega (arith, low))
  ];
}

-- The row of the store, confirmed by a block off the trunk.
abbrev side : Store world
side = record store { rows = record row { block_id = 6 } ∷ [] }

side-IsSynced : IsSynced world side
side-IsSynced = record {
  tables = ((omega arith, compute-eq-table world 7 side.rows (omega arith)), tt);
  unique = (tt, tt);
}

abbrev behind : Ledger bank
behind = record ledger { store = side; out = record ledger.out { processed = some 6 } }

catch_up-IsCaughtUp_example :
    Returns (catch_up bank chain 5 behind) (IsCaughtUp bank chain 6 behind)
catch_up-IsCaughtUp_example =
    catch_up-IsCaughtUp bank chain behind 6 5 1 (9, 6) chain-IsLinked
      (record { processed = refl; synced = side-IsSynced }) refl (omega arith)
