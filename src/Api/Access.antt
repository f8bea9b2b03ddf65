-- ===== src/Api/Access.antt =====
-- src/api.rs: no call without the key of the api.
use defiads.Prelude.{ℕ, ◌≡◌, refl, Bool, false, [], ◌∷◌, ◌⊎◌, inl, inr, ok}
use defiads.World.{World}
use defiads.Trunk.{Trunk}
use defiads.Listing.{same_text}
use defiads.Wallet.{Bank}
use defiads.Ledger.{Ledger}
use defiads.Api.Arguments.{
  string, number, other, Params, array, no_array, Reply, rejected, replied, Rejection, invalid_key,
  strings, check_key, parse_arguments, parse_wallet_arguments,
}
use defiads.Api.{
  Method, categories, list, read, balance, deposit, prepare_ad, list_prepared, read_prepared,
  withdraw, fund, call,
}

module _ (w : World) (api_key : w.codec.Str) where
  -- The first parameter is the key.
  abbrev pub has_key : Params w → Bool
  has_key (array (string s ∷ vs)) = same_text w s api_key
  has_key p = false

  abbrev IsRejected : {A : Type 0} → Reply A → Type 0
  IsRejected reply = (r : Rejection) × (reply ≡ rejected r)

  reply_cases : {A : Type 0} (reply : Reply A) → IsRejected reply ⊎ ((a : A) × (reply ≡ replied a))
  reply_cases (rejected r) = inl (r, refl)
  reply_cases (replied a) = inr (a, refl)

  arguments-IsRejected :
      (p : Params w) → has_key p ≡ false → IsRejected (parse_arguments w api_key p)
  unfolding parse_arguments strings check_key
  arguments-IsRejected no_array h = (_, refl)
  arguments-IsRejected (array []) h = (_, refl)
  arguments-IsRejected (array (number n ∷ vs)) h = (_, refl)
  arguments-IsRejected (array (other ∷ vs)) h = (_, refl)
  arguments-IsRejected (array (string s ∷ vs)) h = elim (reply_cases (strings w vs)) [
    | inl (r, e) ↦ rw e (r, refl)
    | inr (rest, e) ↦
        let wrong : same_text w s api_key ≡ false = h in
        rw (e, check_key, wrong) (invalid_key, refl)
  ]

  wallet_arguments-IsRejected :
      (p : Params w) → has_key p ≡ false → IsRejected (parse_wallet_arguments w api_key p)
  unfolding parse_wallet_arguments
  wallet_arguments-IsRejected no_array h = (_, refl)
  wallet_arguments-IsRejected (array []) h = (_, refl)
  wallet_arguments-IsRejected (array (number n ∷ [])) h = (_, refl)
  wallet_arguments-IsRejected (array (other ∷ [])) h = (_, refl)
  wallet_arguments-IsRejected (array (string s ∷ [])) h = (_, refl)
  wallet_arguments-IsRejected (array (number n ∷ v ∷ vs)) h = (_, refl)
  wallet_arguments-IsRejected (array (other ∷ v ∷ vs)) h = (_, refl)
  wallet_arguments-IsRejected (array (string s ∷ v ∷ vs)) h =
      let wrong : same_text w s api_key ≡ false = h in
      rw (parse_wallet_arguments, wrong) (invalid_key, refl)

  -- A call whose first parameter is not the key of the api, whatever the method and the other
  -- parameters, is rejected, leaves the store as it was, and sends nothing.
  pub call_without_key :
      (b : Bank w) (time : w.Header → ℕ) (trunk : Trunk w) (random : ℕ → ℕ) (p : Params w)
      → has_key p ≡ false
      → (method : Method) (l : Ledger b)
      → (r : Rejection) × (call b api_key time trunk random method p l ≡ ok (rejected r, l, []))
  unfolding call
  call_without_key b time trunk random p h method l =
      let plain = arguments-IsRejected p h in
      let walleted = wallet_arguments-IsRejected p h in
      elim method
        as (λ m.
          (r : Rejection) × (call b api_key time trunk random m p l ≡ ok (rejected r, l, []))) [
            | categories ↦ rw plain.1 (_, refl)
            | list ↦ rw plain.1 (_, refl)
            | read ↦ rw plain.1 (_, refl)
            | balance ↦ rw plain.1 (_, refl)
            | deposit ↦ rw plain.1 (_, refl)
            | prepare_ad ↦ rw plain.1 (_, refl)
            | list_prepared ↦ rw plain.1 (_, refl)
            | read_prepared ↦ rw plain.1 (_, refl)
            | withdraw ↦ rw walleted.1 (_, refl)
            | fund ↦ rw walleted.1 (_, refl)
          ]
