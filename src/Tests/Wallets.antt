-- ===== src/Tests/Wallets.antt =====
-- A small bank in the place of `bitcoin_wallet`, a wallet with one coin, and its payments.
use mathlib.Core.Option.{some-injective}
use defiads.Prelude.{
  ℕ, zero, suc, ◌+◌, ◌≤◌, ◌≡◌, refl, sym, ap, arith, true, Option, none, some, List, [], ◌∷◌, map,
  length, ok, ◌==◌, if◌then◌else◌, Returns,
}
use defiads.Keys.{ContentKey}
use defiads.Contents.{digest}
use defiads.Store.{funding_script}
use defiads.Wallet.{
  OutPoint, TxIn, Tx, Coin, Bank, Wallet, done, total_input, unsigned, charge, clamp_fee,
}
use defiads.Wallet.Payment.{Order, settle, compile, outputs, has_change, fund}
use defiads.Wallet.Settling.{IsSound, IsSettled, settle-IsSettled}
use defiads.Wallet.Conservation.{IsConserved, values, settle-IsConserved, settle_overdrawn}
use defiads.Wallet.Commitment.{HasAccounts, scripter}
use defiads.Tests.Stores.{world, trunk, content}

abbrev Proof : Type 0
Proof = ℕ × ℕ × ℕ × List (ℕ × ℕ)

abbrev tx_outputs : ℕ → List (Tx world) → List (ℕ × ℕ)
tx_outputs i [] = []
tx_outputs zero (tx ∷ txs) = tx.output
tx_outputs (suc i) (tx ∷ txs) = tx_outputs i txs

abbrev find : ℕ → List Proof → Option Proof
find txid [] = none
find txid (p ∷ ps) = if length p.3 == txid then some p else find txid ps

abbrev first : {A : Type 0} → List A → Option A
first [] = none
first (x ∷ xs) = some x

-- A transaction is known by the number of its outputs, and the keys are a list of scripts, all of the
-- funder 3. Every input is signed. A block, of the header (9, 7), is a list of transactions.
abbrev pub bank : Bank world
bank = record {
  Master = List ℕ;
  Coins = List (OutPoint × Coin world) × List Proof;
  Unlocker = Unit;
  Block = List (Tx world);
  unlocker = λ m passphrase. some tt;
  next_key = λ name m. some (7, m);
  add_script_key =
      λ name make id term m. some (0, world.p2wsh (make (world.tweak_exp_add 3 id) term) ∷ m);
  get_key = λ name kix m. first m;
  compute_base_public_key = λ name kix m. some 3;
  do_look_ahead = λ name kix m. some m;
  sign = λ m tx f u. some (length tx.input, tx, tt);
  empty_script = 0;
  get_weight = λ tx. 400;
  no_coins = ([], []);
  confirmed = λ coins. coins.0;
  unconfirmed = λ coins. [];
  confirmed_balance = λ coins. length coins.0;
  unconfirmed_balance = λ coins. 0;
  available_balance = λ coins height f. length coins.0;
  choose_inputs =
      λ coins amount height f. map (λ (c : OutPoint × Coin world). (c.0, c.1, 100)) coins.0;
  unwind_tip = λ h coins. coins;
  process = λ m block coins. (true, m, (coins.0, (7, 9, 2, tx_outputs 0 block) ∷ coins.1));
  process_unconfirmed_transaction = λ m tx coins. (m, ([], coins.1));
  proofs = λ coins txid. find txid coins.1;
  all_proofs = λ coins. coins.1;
  add_confirmed = λ point coin proof coins. ((point, coin) ∷ coins.0, proof ∷ coins.1);
  txid = λ tx. length tx.output;
  proof_txid = λ p. length p.3;
  header = λ block. (9, 7);
  txdata = λ block. block;
  prove = λ block i. (7, 9, 2, tx_outputs i block);
  Account = ℕ × ℕ;
  account_number = λ a. a.0;
  sub_account_number = λ a. a.1;
  AccountKeys = ℕ;
  account_keys = λ a. a.0;
  new_from_storage = λ keys account sub look_ahead. (account, sub);
  accounts = λ m. (0, 0) ∷ (0, 1) ∷ (1, 0) ∷ [];
  get_account = λ name m. some name;
  add_account = λ a m. a.1 ∷ m;
  from_encrypted = λ encrypted public birth. some [];
  network = λ m. 0;
  birth = λ m. 7;
}

pub bank-IsSound : IsSound bank
bank-IsSound = record {
  sign-output =
      λ m tx f u r e. ap (λ (x : ℕ × Tx world × Unit). x.1.output) (sym (some-injective _ _ e));
  sign-spent = λ m tx f u r e.
      ap
        (λ (x : ℕ × Tx world × Unit).
          map (λ (i : TxIn world). (i.previous_output, i.sequence)) x.1.input)
        (sym (some-injective _ _ e));
  weighs = λ tx. omega arith;
  fits = λ tx. omega arith;
}

abbrev pub bank_accounts : HasAccounts bank
bank_accounts = record {
  changes = λ m. ((7, m), refl);
  commits = λ m make id term.
      ((0, world.p2wsh (make (world.tweak_exp_add 3 id) term) ∷ m), 3, refl, refl, refl);
}

abbrev pub coin : Coin world
coin = record {
  output = (200000, 7);
  derivation = record { account = 0; sub = 1; kix = 0; tweak = none; csv = some 3 };
}

abbrev pub point : OutPoint
point = record { txid = 1; vout = 0 }

-- A wallet with one coin, of the transaction 1.
abbrev pub wallet : Wallet bank
wallet = record { coins = ((point, coin) ∷ [], (7, 9, 2, (200000, 7) ∷ []) ∷ []); master = [] }

abbrev order : Order world
order = record {
  amount = 100000;
  target = 10;
  change = 7;
  chosen = (point, coin, 100) ∷ [];
  rate = 10;
}

settle-IsSettled_example :
    Returns (settle bank order 105 (λ n. n) tt wallet) (IsSettled bank order 105 wallet)
settle-IsSettled_example =
    settle-IsSettled bank bank-IsSound order 105 (λ n. n) tt wallet (omega arith) (omega arith)

abbrev pub paid : Tx world
paid = record {
  input = record { previous_output = point; script_sig = 0; sequence = 3; witness = [] } ∷ [];
  output = (100000, 7) ∷ (99000, 10) ∷ [];
  version = 2;
  lock_time = 0;
}

abbrev left : Wallet bank
left = record { coins = ([], (7, 9, 2, (200000, 7) ∷ []) ∷ []); master = [] }

settles : settle bank order 105 (λ n. n) tt wallet ≡ ok (done (paid, 1000), left)
unfolding settle compile outputs has_change total_input unsigned charge
settles = refl

settle-IsConserved_example : IsConserved 200000 1000 paid.output
unfolding total_input
settle-IsConserved_example =
    settle-IsConserved bank bank-IsSound order 105 (λ n. n) tt wallet left paid 1000 (omega arith)
      (omega arith) settles (omega arith)

abbrev small_order : Order world
small_order = record order { amount = 700 }

-- The fee of 1000 is above the amount of 700.
abbrev wrapped : Tx world
wrapped = record paid { output = (199300, 7) ∷ (18446744073709551316, 10) ∷ [] }

wraps : settle bank small_order 105 (λ n. n) tt wallet ≡ ok (done (wrapped, 1000), left)
unfolding settle compile outputs has_change total_input unsigned charge
wraps = refl

settle_overdrawn_example : 18446744073709551616 + 700 ≤ values wrapped.output + 1000
settle_overdrawn_example =
    settle_overdrawn bank bank-IsSound small_order 105 (λ n. n) tt wallet left wrapped 1000
      (omega arith) (omega arith) wraps (omega arith) (omega arith)

abbrev pub key : ContentKey
key = digest world content.ad

abbrev pub spent_wallet : ℕ → Wallet bank
spent_wallet script = record left { master = script ∷ [] }

pub funds :
    fund bank key.digest 10 [] 10 100000 trunk (scripter world) (λ n. n) wallet
    ≡ ok (done (paid, 3, 1000), spent_wallet 10)
unfolding fund settle compile outputs has_change total_input unsigned charge clamp_fee scripter
    funding_script
funds = refl
