-- ===== src/World.antt =====
-- What the program takes from libraries: hash functions, serde, the types of the crates `bitcoin`
-- and `bitcoin_wallet`, and the sorting of SQLite. A block hash, 32 bytes, is a number.
use mathlib.Core.List.{Permᴰ}
use defiads.Prelude.{ℕ, ◌≡◌, ◌↔◌, Bool, true, Option, List, [], ◌∷◌, All, ◌≤◌}
use defiads.Prelude.Array.{Array}
use defiads.Text.{Codec}
use defiads.Ad.{Ad}
use defiads.Iblt.{Sip}
use defiads.Keys.{ContentKey, digest_len}

-- What a script is built of in `funding_script`.
pub data ScriptOp : Type 0 where
  push_int : ℕ → ScriptOp
  push_slice : List ℕ → ScriptOp
  op_csv op_drop op_checksig : ScriptOp

-- The values do not rise from the first element on.
abbrev pub IsFalling : {A : Type 0} → (A → ℕ) → List A → Type 0
IsFalling f [] = Unit
IsFalling f (x ∷ xs) = All (λ y. f y ≤ f x) xs × IsFalling f xs

pub record World : Type 1 where
  pub codec : Codec
  pub sip : Sip
  pub sha256 : List ℕ → Array ℕ digest_len
  -- `serde_cbor::ser::to_vec` of an ad
  pub cbor : Ad codec → List ℕ
  pub Header : Type 0
  pub bitcoin_hash : Header → ℕ
  pub merkle_root : Header → ℕ
  pub prev_blockhash : Header → ℕ
  pub Script : Type 0
  pub script_eq : Script → Script → Bool
  pub script_eq_iff : (a b : Script) → (script_eq a b ≡ true) ↔ (a ≡ b)
  pub Transaction : Type 0
  -- the bit pattern of the i32
  pub version : Transaction → ℕ
  pub output : Transaction → List (ℕ × Script)
  pub ProvedTransaction : Type 0
  pub get_block_hash : ProvedTransaction → ℕ
  pub proof_merkle_root : ProvedTransaction → ℕ
  pub get_transaction : ProvedTransaction → Transaction
  pub PublicKey : Type 0
  pub to_bytes : PublicKey → List ℕ
  -- `SecpContext::tweak_exp_add` of a clone of the key
  pub tweak_exp_add : PublicKey → Array ℕ digest_len → PublicKey
  -- `Address::p2wsh(…).script_pubkey()`
  pub p2wsh : List ScriptOp → Script
  -- `order by … desc`: some order in which the values do not rise
  pub order_by_desc : (A : Type 0) → (A → ℕ) → List A → List A
  pub order_by_desc-perm : (A : Type 0) (f : A → ℕ) (xs : List A) → Permᴰ (order_by_desc A f xs) xs
  pub order_by_desc-IsFalling :
      (A : Type 0) (f : A → ℕ) (xs : List A) → IsFalling f (order_by_desc A f xs)
  -- `order by … , … desc`: an order by a text, and in it by numbers that do not rise
  pub order_by_text : (A : Type 0) → (A → codec.Str) → (A → ℕ) → List A → List A
  pub order_by_text-perm :
      (A : Type 0) (text : A → codec.Str) (f : A → ℕ) (xs : List A)
      → Permᴰ (order_by_text A text f xs) xs
  -- the hex text of an id, and the parses of an id and of an address, given as its script
  pub id_text : ContentKey → codec.Str
  pub parse_id : codec.Str → Option ContentKey
  pub parse_address : codec.Str → Option Script
