-- ===== src/Api/Arguments.antt =====
-- src/api.rs: the parse of the parameters of a call.
use defiads.Prelude.{ℕ, min, ◌%◌, ◌^◌, true, false, Option, none, some, List, [], ◌∷◌}
use defiads.World.{World}
use defiads.Keys.{ContentKey}
use defiads.Listing.{same_text}
use defiads.Wallet.{Fault}

-- Why a call is rejected.
pub data Rejection : Type 0 where
  expecting_strings expecting_array missing_key invalid_key : Rejection
  missing_passphrase invalid_passphrase too_few unknown_publication : Rejection
  malformed_address malformed_id malformed_amount malformed_term malformed_fee : Rejection
  refused : Fault → Rejection

pub data Reply {ℓ} (A : Type ℓ) : Type ℓ where
  rejected : Rejection → Reply A
  replied : A → Reply A

infixl 5 ◌>>=◌
abbrev ◌>>=◌ {ℓ κ} : {A : Type ℓ} {B : Type κ} → Reply A → (A → Reply B) → Reply B
rejected r >>= k = rejected r
replied a >>= k = k a

-- A JSON value: a string, a number with its `as_u64`, or anything else.
pub data Value (w : World) : Type 0 where
  string : w.codec.Str → Value w
  number : Option ℕ → Value w
  other : Value w

pub data Params (w : World) : Type 0 where
  array : List (Value w) → Params w
  no_array : Params w

module _ (w : World) where
  unfoldable pub strings : List (Value w) → Reply (List w.codec.Str)
  strings [] = replied []
  strings (string s ∷ vs) = do rest ← strings vs; replied (s ∷ rest)
  strings (v ∷ vs) = rejected expecting_strings

  unfoldable pub check_key : w.codec.Str → List w.codec.Str → Reply (List w.codec.Str)
  check_key api_key [] = rejected missing_key
  check_key api_key (s ∷ args) = elim (same_text w s api_key) [
    | true ↦ replied args
    | false ↦ rejected invalid_key
  ]

  unfoldable pub parse_arguments : w.codec.Str → Params w → Reply (List w.codec.Str)
  unfolding strings check_key
  parse_arguments api_key no_array = rejected expecting_array
  parse_arguments api_key (array vs) = do args ← strings vs; check_key api_key args

  unfoldable pub passphrase_of : Value w → List (Value w) → Reply (w.codec.Str × List (Value w))
  passphrase_of (string s) args = replied (s, args)
  passphrase_of v args = rejected invalid_passphrase

  unfoldable pub parse_wallet_arguments :
      w.codec.Str → Params w → Reply (w.codec.Str × List (Value w))
  unfolding passphrase_of
  parse_wallet_arguments api_key (array (string s ∷ v ∷ args)) = elim (same_text w s api_key) [
    | true ↦ passphrase_of v args
    | false ↦ rejected invalid_key
  ]
  parse_wallet_arguments api_key (array (k ∷ v ∷ args)) = rejected invalid_key
  parse_wallet_arguments api_key (array vs) = rejected missing_passphrase
  parse_wallet_arguments api_key no_array = rejected expecting_array

  -- `as_u64` of a number, or the rejection.
  unfoldable pub parse_number : Rejection → Value w → Reply ℕ
  parse_number r (number (some n)) = replied n
  parse_number r v = rejected r

  unfoldable pub parse_target : Value w → Reply w.Script
  parse_target (string s) = elim (w.parse_address s) [
    | some a ↦ replied a
    | none ↦ rejected malformed_address
  ]
  parse_target v = rejected malformed_address

  unfoldable pub parse_key : Value w → Reply ContentKey
  parse_key (string s) = elim (w.parse_id s) [ some i ↦ replied i | none ↦ rejected malformed_id ]
  parse_key v = rejected malformed_id

  -- The amount of a withdrawal: anything but a number in the place of it is no amount.
  unfoldable pub optional_amount : List (Value w) → Option ℕ
  optional_amount (number n ∷ more) = n
  optional_amount vs = none

  unfoldable pub parse_withdrawal : List (Value w) → Reply (w.Script × ℕ × Option ℕ)
  unfolding parse_target parse_number optional_amount
  parse_withdrawal (target ∷ fee ∷ more) = do
    a ← parse_target target
    sats ← parse_number malformed_fee fee
    replied (a, min sats 100, optional_amount more)
  parse_withdrawal vs = rejected too_few

  -- The id, the amount, the term and the fee. The term is cut to 16 bits.
  unfoldable pub parse_funding : List (Value w) → Reply (ContentKey × ℕ × ℕ × ℕ)
  unfolding parse_key parse_number
  parse_funding (key ∷ amount ∷ term ∷ fee ∷ more) = do
    id ← parse_key key
    a ← parse_number malformed_amount amount
    t ← parse_number malformed_term term
    sats ← parse_number malformed_fee fee
    replied (id, a, t % 2 ^ 16, min sats 100)
  parse_funding vs = rejected too_few
