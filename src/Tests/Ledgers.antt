-- ===== src/Tests/Ledgers.antt =====
-- The way of an ad: it is prepared, paid for, and published by the block of its payment.
use defiads.Prelude.{
  ℕ, ◌<◌, ◌≡◌, ◌≢◌, refl, arith, true, false, not, none, some, List, [], ◌∷◌, filter, All, ok,
  Returns, sym, subst, inr, length,
}
use defiads.Ad
use defiads.Ad.{Ad}
use defiads.Keys.{ContentKey, content_eq}
use defiads.Contents.{Content, Row, digest, row_of}
use defiads.Contents
use defiads.Store.{admissible, commitment, find_output, funding_script, funding_address}
use defiads.Publications.{
  Publication, prepare, read_publication, list_publication, find_publication, read-prepare,
}
use defiads.Wallet
use defiads.Wallet.{OutPoint, Tx, Bank, Wallet, Result, done, dust, max_term}
use defiads.Wallet.Payment
use defiads.Wallet.Commitment.{committed, scripter}
use mathlib.Core.List.{Permᴰ}
use defiads.Outgoing.{
  TxOutRow, Outgoing, txout_row, read_funding, read_unconfirmed, store_txout, store_coins,
}
use defiads.Contents.{Queried, answer}
use defiads.Outgoing.Unconfirmed.{IsWhole, without, pending, read-store_txout_perm}
use defiads.Outgoing.Confirmed.{has_proof, store_coins-pending}
use defiads.Ledger.{Ledger, fund, newly_confirmed}
use defiads.Ledger.Noting.{IsNoted, fund-IsNoted}
use defiads.Ledger.Publishing.{funded_IsAdmissible, overlong_not_admissible}
use defiads.Ledger.Connecting.{IsAccepted, Extends}
use defiads.Tests.Stores.{world, trunk, ad, empty, decodes, measured}
use defiads.Tests.Wallets.{
  bank, bank-IsSound, bank_accounts, wallet, paid, key, spent_wallet, funds,
}

read-prepare_example : Returns (prepare world (true ∷ []) (false ∷ []) (true ∷ true ∷ []) []) λ r.
    (r.0 ≡ digest world (Ad.new world.codec (true ∷ []) (false ∷ []) (true ∷ true ∷ [])))
    × (read_publication world r.0 r.1
        ≡ some (Ad.new world.codec (true ∷ []) (false ∷ []) (true ∷ true ∷ [])))
    × ((other : ContentKey)
        → content_eq r.0 other ≡ false
        → read_publication world other r.1 ≡ read_publication world other [])
    × (list_publication world r.1
        ≡ r.0 ∷ filter (λ x. not (content_eq x r.0)) (list_publication world []))
read-prepare_example = read-prepare world (true ∷ []) (false ∷ []) (true ∷ true ∷ []) []

abbrev pub sent_row : TxOutRow world
sent_row = record {
  txid = 2;
  tx = paid;
  confirmed = none;
  publisher = some 3;
  id = some key;
  term = some 10;
}

abbrev out : Outgoing bank
out = record { txouts = sent_row ∷ []; processed = some 8; coins = []; accounts = [] }

pub sent_row-IsWhole : All (IsWhole bank) (sent_row ∷ [])
unfolding read_funding
sent_row-IsWhole = (record { named = refl; funded = refl }, tt)

-- A withdrawal with one output.
abbrev withdrawal : Tx world
withdrawal = record paid { output = (700, 7) ∷ [] }

-- The database reads the older row first.
by_key :
    Permᴰ
      (sent_row ∷ txout_row bank withdrawal none ∷ [])
      (store_txout bank withdrawal none (sent_row ∷ []))
unfolding store_txout
by_key = Permᴰ.swap refl refl

read-store_txout_perm_example : Returns (read_unconfirmed bank (sent_row ∷ [])) λ before.
    Returns (read_unconfirmed bank (sent_row ∷ txout_row bank withdrawal none ∷ [])) λ after.
      Permᴰ after ((withdrawal, none) ∷ without bank 1 before)
      × All (IsWhole bank) (sent_row ∷ txout_row bank withdrawal none ∷ [])
read-store_txout_perm_example =
    read-store_txout_perm bank withdrawal none (sent_row ∷ [])
      (sent_row ∷ txout_row bank withdrawal none ∷ []) sent_row-IsWhole by_key

abbrev coins : bank.Coins
coins = (wallet.coins.0, (7, 9, 2, paid.output) ∷ wallet.coins.1)

store_coins-pending_example : Returns (store_coins bank coins out) λ out'.
    Returns (read_unconfirmed bank out.txouts) λ before.
      (read_unconfirmed bank out'.txouts
        ≡ ok (filter (λ s. not (has_proof bank coins.1 (bank.txid s.0))) before))
      × All (IsWhole bank) out'.txouts
store_coins-pending_example = store_coins-pending bank coins out sent_row-IsWhole ((_, refl), tt)

abbrev pub ledger : Ledger bank
ledger = record { store = empty; wallet = wallet; out = out; publications = []; txout = true }

fund-IsNoted_example :
    Returns (fund bank key 10 100000 10 [] trunk (λ n. n) ledger) (IsNoted bank key 10 ledger)
fund-IsNoted_example =
    fund-IsNoted bank bank-IsSound bank_accounts (λ m. (_, refl)) key 10 100000 10 [] trunk (λ n. n)
      ledger sent_row-IsWhole

-- The ad with the proof of its payment, for a term.
abbrev proved : ℕ → List (ℕ × ℕ) → Content world
proved term outputs = record { ad = ad; funding = (7, 9, 2, outputs); funder = 3; term = term }

funded_IsAdmissible_example :
    (v : ℕ) × (admissible world trunk (proved 10 paid.output) ≡ some (100, (9, 7), v)) × (dust < v)
funded_IsAdmissible_example =
    funded_IsAdmissible bank bank-IsSound bank_accounts key 10 [] 10 100000 trunk (λ n. n) wallet
      (spent_wallet 10) paid 3 1000 funds (omega arith) trunk (proved 10 paid.output) 100 (9, 7)
      (refl, refl, refl, refl) refl (omega arith) refl refl (omega arith)

-- The payment for 5000 blocks is locked for 4320.
abbrev clamped : Tx world
clamped = record paid { output = (100000, 7) ∷ (99000, 4320) ∷ [] }

funds_overlong :
    Payment.fund bank key.digest 5000 [] 10 100000 trunk (scripter world) (λ n. n) wallet
    ≡ ok (done (clamped, 3, 1000), spent_wallet 4320)
unfolding Payment.fund Payment.settle Payment.compile Payment.outputs Payment.has_change
    Wallet.total_input Wallet.unsigned Wallet.charge Wallet.clamp_fee scripter funding_script
funds_overlong = refl

far_apart : (pk : ℕ) → committed world pk key.digest 4320 ≢ committed world pk key.digest 5000
unfolding funding_address funding_script
far_apart pk = omega arith

elsewhere : (pk : ℕ) → 7 ≢ committed world pk key.digest 5000
unfolding funding_address funding_script
elsewhere pk = omega arith

overlong_not_admissible_example : admissible world trunk (proved 5000 clamped.output) ≡ none
overlong_not_admissible_example =
    overlong_not_admissible bank bank-IsSound bank_accounts key 5000 [] 10 100000 trunk (λ n. n)
      wallet (spent_wallet 4320) clamped 3 1000 funds_overlong (omega arith) far_apart elsewhere
      trunk (proved 5000 clamped.output) (refl, refl, refl, refl)

-- The ad as it was prepared.
abbrev prepared : Publication world
prepared = record {
  id = key;
  cat = true ∷ [];
  abs = false ∷ [];
  text = true ∷ true ∷ [];
  length = 10;
}

abbrev pub waiting : Ledger bank
waiting = record ledger { publications = prepared ∷ [] }

confirmed_one :
    newly_confirmed bank (paid ∷ []) waiting.publications (pending bank (sent_row ∷ []))
    ≡ (0, 3, some ad, 10) ∷ []
unfolding newly_confirmed find_publication read_publication content_eq Ad.new digest
confirmed_one = refl

lets_in : admissible world trunk (proved 10 paid.output) ≡ some (100, (9, 7), 99000)
unfolding admissible commitment funding_address funding_script find_output
lets_in = refl

abbrev pub published : Row world
published = row_of world 100 7 (proved 10 paid.output) 99000 (true ∷ true ∷ [])

accepted : IsAccepted bank trunk (paid ∷ []) (proved 10 paid.output) []
unfolding Contents.content_length
accepted = record {
  height = 100;
  header = (9, 7);
  value = 99000;
  text = true ∷ true ∷ [];
  admits = lets_in;
  decodes = decodes;
  nonempty = measured;
  fresh = tt;
}

pub publishes_one :
    Extends bank trunk
      (paid ∷ [])
      (newly_confirmed bank (paid ∷ []) waiting.publications (pending bank (sent_row ∷ [])))
      []
      (published ∷ [])
unfolding accepted
publishes_one =
    subst (λ cs. Extends bank trunk (paid ∷ []) cs [] (published ∷ [])) (sym confirmed_one)
      (inr (accepted, refl))
