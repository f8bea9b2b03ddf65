-- ===== src/Wallet.antt =====
-- src/wallet.rs: the wallet over the crate `bitcoin_wallet`, of which `Bank` has what the wallet
-- calls. The u64 and u32 arithmetic wraps, as in a release build. Random numbers are arguments, and
-- so is the look at the trunk. The check of scripts that the feature `bitcoinconsensus` adds is left
-- out, as it is by default.
pub mod Payment
pub mod Settling
pub mod Conservation
pub mod Commitment
use defiads.Prelude.{
  ℕ, zero, suc, min, max, ◌+◌, ◌-◌, ◌*◌, ◌/◌, ◌%◌, ◌^◌, Bool, true, false, ◌&&◌, Option, none, some,
  List, [], ◌∷◌, map, ◌==◌, ltb, if◌then◌else◌, length, Run, ok, panic, ◌>>=◌,
}
use defiads.Prelude.Array.{Array}
use defiads.Keys.{digest_len}
use defiads.World.{World, ScriptOp}
use defiads.Trunk.{Trunk}

abbrev pub key_look_ahead : ℕ
key_look_ahead = 10

abbrev pub dust : ℕ
dust = 546

abbrev pub max_fee_per_vbyte : ℕ
max_fee_per_vbyte = 100

abbrev pub min_fee_per_vbyte : ℕ
min_fee_per_vbyte = 1

abbrev pub max_term : ℕ
max_term = 6 * 24 * 30

abbrev pub rbf : ℕ
rbf = 4294967293

pub record OutPoint : Type 0 where
  pub txid : ℕ
  pub vout : ℕ

abbrev pub same_point : OutPoint → OutPoint → Bool
same_point a b = a.txid == b.txid && a.vout == b.vout

pub record KeyDerivation : Type 0 where
  pub account : ℕ
  pub sub : ℕ
  pub kix : ℕ
  pub tweak : Option (List ℕ)
  pub csv : Option ℕ

-- Why an operation of the wallet fails: an error of `bitcoin_wallet`, or one of its own.
pub data Fault : Type 0 where
  library : Fault
  insufficient_funds less_than_fees not_all_signed : Fault

pub data Result {ℓ} (A : Type ℓ) : Type ℓ where
  failed : Fault → Result A
  done : A → Result A

-- `unwrap` and `expect`
abbrev pub unwrap {ℓ} : {A : Type ℓ} → Option A → Run A
unwrap none = panic
unwrap (some a) = ok a

module _ (w : World) where
  pub record TxIn : Type 0 where
    pub previous_output : OutPoint
    pub script_sig : w.Script
    pub sequence : ℕ
    pub witness : List (List ℕ)

  pub record Tx : Type 0 where
    pub input : List TxIn
    pub output : List (ℕ × w.Script)
    pub version : ℕ
    pub lock_time : ℕ

  pub record Coin : Type 0 where
    pub output : ℕ × w.Script
    pub derivation : KeyDerivation

  abbrev pub Chosen : Type 0
  Chosen = OutPoint × Coin × ℕ

  -- What the wallet uses of `bitcoin_wallet` and `bitcoin`. An account is named by its two numbers.
  pub record Bank : Type 1 where
    pub Master : Type 0
    pub Coins : Type 0
    pub Unlocker : Type 0
    pub Block : Type 0
    -- `Unlocker::new` of the encrypted key, for a passphrase
    pub unlocker : Master → w.codec.Str → Option Unlocker
    -- the address that `next_key` makes, as a script
    pub next_key : ℕ × ℕ → Master → Option (w.Script × Master)
    pub add_script_key :
        ℕ × ℕ
        → (w.PublicKey → Option ℕ → List ScriptOp)
        → Array ℕ digest_len
        → Option ℕ
        → Master
        → Option (ℕ × Master)
    -- the address of `get_key`, as a script
    pub get_key : ℕ × ℕ → ℕ → Master → Option w.Script
    pub compute_base_public_key : ℕ × ℕ → ℕ → Master → Option w.PublicKey
    pub do_look_ahead : ℕ × ℕ → ℕ → Master → Option Master
    -- `sign` gives the number of inputs that it signed.
    pub sign :
        Master → Tx → (OutPoint → Option (ℕ × w.Script)) → Unlocker → Option (ℕ × Tx × Unlocker)
    pub empty_script : w.Script
    pub get_weight : Tx → ℕ
    pub no_coins : Coins
    pub confirmed : Coins → List (OutPoint × Coin)
    pub unconfirmed : Coins → List (OutPoint × Coin)
    pub confirmed_balance : Coins → ℕ
    pub unconfirmed_balance : Coins → ℕ
    pub available_balance : Coins → ℕ → (ℕ → Option ℕ) → ℕ
    pub choose_inputs : Coins → ℕ → ℕ → (ℕ → Option ℕ) → List Chosen
    pub unwind_tip : ℕ → Coins → Coins
    pub process : Master → Block → Coins → Bool × Master × Coins
    pub process_unconfirmed_transaction : Master → Tx → Coins → Master × Coins
    pub proofs : Coins → ℕ → Option w.ProvedTransaction
    -- the values of `proofs`
    pub all_proofs : Coins → List w.ProvedTransaction
    pub add_confirmed : OutPoint → Coin → w.ProvedTransaction → Coins → Coins
    pub txid : Tx → ℕ
    -- the txid of the transaction that a proof holds
    pub proof_txid : w.ProvedTransaction → ℕ
    pub header : Block → w.Header
    pub txdata : Block → List Tx
    -- `ProvedTransaction::new` of a block and a position in it
    pub prove : Block → ℕ → w.ProvedTransaction
    pub Account : Type 0
    pub account_number : Account → ℕ
    pub sub_account_number : Account → ℕ
    -- the type of the addresses, the public key and the instantiated keys of an account
    pub AccountKeys : Type 0
    pub account_keys : Account → AccountKeys
    -- `Account::new_from_storage`, for the two numbers and a look ahead
    pub new_from_storage : AccountKeys → ℕ → ℕ → ℕ → Account
    pub accounts : Master → List Account
    pub get_account : ℕ × ℕ → Master → Option Account
    pub add_account : Account → Master → Master
    -- `MasterAccount::from_encrypted` of the texts of the encrypted key and of the public one, or none
    -- where one of them does not parse
    pub from_encrypted : w.codec.Str → w.codec.Str → ℕ → Option Master
    pub network : Master → ℕ
    pub birth : Master → ℕ

module _ {w : World} (b : Bank w) where
  pub record Wallet : Type 0 where
    pub coins : b.Coins
    pub master : b.Master

  -- The sum wraps.
  unfoldable pub balance : Wallet → ℕ
  balance wal = (b.confirmed_balance wal.coins + b.unconfirmed_balance wal.coins) % 2 ^ 64

  unfoldable pub available_balance : ℕ → (ℕ → Option ℕ) → Wallet → ℕ
  available_balance height height_for_block wal =
      b.available_balance wal.coins height height_for_block

  unfoldable pub unwind_tip : ℕ → Wallet → Wallet
  unwind_tip block_hash wal = record wal { coins = b.unwind_tip block_hash wal.coins }

  unfoldable pub rescan : Wallet → Wallet
  rescan wal = record wal { coins = b.no_coins }

  unfoldable pub process : b.Block → Wallet → Bool × Wallet
  process block wal =
      let r = b.process wal.master block wal.coins in (r.0, record { master = r.1; coins = r.2 })

  unfoldable pub prove : ℕ → Wallet → Option w.ProvedTransaction
  prove txid wal = b.proofs wal.coins txid

  -- The sum of the u64 values.
  unfoldable pub total_input : List (Chosen w) → ℕ
  total_input [] = 0
  total_input ((point, coin, h) ∷ chosen) = (coin.output.0 + total_input chosen) % 2 ^ 64

  -- An input without a relative lock can be replaced; `height - *h` wraps.
  unfoldable pub unsigned_input : ℕ → Chosen w → TxIn w
  unsigned_input height (point, coin, h) = record {
    previous_output = point;
    script_sig = b.empty_script;
    sequence = elim (coin.derivation.csv) [
      | some csv ↦ min csv ((height + 2 ^ 32 - h) % 2 ^ 32)
      | none ↦ rbf
    ];
    witness = [];
  }

  unfoldable pub unsigned : ℕ → List (Chosen w) → Tx w
  unfolding unsigned_input
  unsigned height chosen = record {
    input = map (unsigned_input height) chosen;
    output = [];
    version = 2;
    lock_time = 0;
  }

  -- The output that a point spends, for `sign`.
  unfoldable pub find_coin : List (Chosen w) → OutPoint → Option (ℕ × w.Script)
  find_coin [] point = none
  find_coin ((o, coin, h) ∷ chosen) point =
      if same_point o point then some coin.output else find_coin chosen point

  unfoldable pub charge : ℕ → Tx w → ℕ
  charge rate tx = (b.get_weight tx * rate + 3) % 2 ^ 64 / 4

  unfoldable pub clamp_fee : ℕ → ℕ
  clamp_fee fee_per_vbyte = min max_fee_per_vbyte (max min_fee_per_vbyte fee_per_vbyte)

  unfoldable pub from_storage_all : List (OutPoint × Coin w) → b.Master → Run b.Master
  from_storage_all [] master = ok master
  from_storage_all ((point, coin) ∷ coins) master = do
    let d = coin.derivation
    master' ← unwrap (b.do_look_ahead (d.account, d.sub) d.kix master)
    from_storage_all coins master'

  unfoldable pub from_storage : b.Coins → b.Master → Run Wallet
  unfolding from_storage_all
  from_storage coins master = do
    m ← from_storage_all (b.confirmed coins) master
    m' ← from_storage_all (b.unconfirmed coins) m
    ok (record { coins = coins; master = m' })
