-- ===== src/Outgoing/Accounts.antt =====
-- The table `account`: an account is read back as it was stored.
use mathlib.Core.Bool.{false≢true}
use defiads.Prelude.{
  ℕ, ◌≡◌, refl, ap, ap₂, ◌∙◌, Bool, true, false, not, ◌&&◌, none, some, inl, inr, List, [], ◌∷◌,
  filter, Bool-cases, ◌==◌, ◌++◌, All, subst, ==_iff, if◌then◌else◌,
}
use defiads.World.{World}
use defiads.Contents.{Queried, answer, no_rows}
use defiads.Wallet.{Bank}
use defiads.Outgoing.{
  AccountRow, is_account, store_account, store_accounts, store_master, find_account, read_account,
}

both : (a b : Bool) → a && b ≡ true → (a ≡ true) × (b ≡ true)
both true b e = (refl, e)
both false b e = absurd (false≢true e)

module _ {w : World} (b : Bank w) where
  -- The row that answers for an account, when those of another are gone.
  find_others :
      (account sub account' sub' : ℕ) (rows : List (AccountRow b))
      → account' == account && sub' == sub ≡ false
      → find_account b account sub (filter (λ r. not (is_account b account' sub' r)) rows)
        ≡ find_account b account sub rows
  unfolding find_account
  find_others account sub account' sub' [] h = refl
  find_others account sub account' sub' (r ∷ rows) h =
      elim (Bool-cases (is_account b account' sub' r)) [
        | inr kept ↦ rw kept (
            ap (λ found. if is_account b account sub r then some r else found)
              (find_others account sub account' sub' rows h))
        | inl gone ↦
            let same = both (r.account == account') (r.sub == sub') gone in
            let e : is_account b account sub r ≡ false =
              ap₂ (λ x y. x == account && y == sub) ((==_iff _ _).0 same.0) ((==_iff _ _).0 same.1)
              ∙ h in
            rw (gone, e) (find_others account sub account' sub' rows h)
      ]

  -- An account that is stored is read back with its keys, under its numbers, and any other account
  -- is read as before.
  pub read-store_account :
      (a : b.Account) (look_ahead : ℕ) (rows : List (AccountRow b))
      → (read_account b
            (b.account_number a)
            (b.sub_account_number a)
            look_ahead
            (store_account b a rows)
          ≡ answer (
              b.new_from_storage
                (b.account_keys a)
                (b.account_number a)
                (b.sub_account_number a)
                look_ahead))
        × ((account sub : ℕ)
            → b.account_number a == account && b.sub_account_number a == sub ≡ false
            → read_account b account sub look_ahead (store_account b a rows)
              ≡ read_account b account sub look_ahead rows)
  unfolding read_account store_account find_account
  read-store_account a look_ahead rows =
      let same : is_account b (b.account_number a) (b.sub_account_number a) (record {
        account = b.account_number a;
        sub = b.sub_account_number a;
        keys = b.account_keys a;
      })
          ≡ true =
        ap₂ (λ x y. x && y) ((==_iff (b.account_number a) (b.account_number a)).1 refl)
          ((==_iff (b.sub_account_number a) (b.sub_account_number a)).1 refl) in
      (
        rw (read_account, same) refl,
        (λ account sub h.
            rw (read_account, h)
              (ap
                (λ found. elim found as (λ _. Queried b.Account) [
                  | none ↦ no_rows
                  | some r ↦ answer (b.new_from_storage r.keys account sub look_ahead)
                ])
                (find_others account sub (b.account_number a) (b.sub_account_number a) rows h))),
      )

  -- No account of a list has these numbers.
  abbrev pub IsOther : ℕ → ℕ → b.Account → Type 0
  IsOther account sub a = b.account_number a == account && b.sub_account_number a == sub ≡ false

  read-store_others :
      (account sub look_ahead : ℕ) (accounts : List b.Account) (rows : List (AccountRow b))
      → All (IsOther account sub) accounts
      → read_account b account sub look_ahead (store_accounts b accounts rows).1
        ≡ read_account b account sub look_ahead rows
  unfolding store_accounts
  read-store_others account sub look_ahead [] rows h = refl
  read-store_others account sub look_ahead (a ∷ accounts) rows h =
      read-store_others account sub look_ahead accounts (store_account b a rows) h.1
      ∙ (read-store_account a look_ahead rows).1 account sub h.0

  read-store_accounts :
      (a : b.Account) (before after : List b.Account) (look_ahead : ℕ) (rows : List (AccountRow b))
      → All (IsOther (b.account_number a) (b.sub_account_number a)) after
      → read_account b
          (b.account_number a)
          (b.sub_account_number a)
          look_ahead
          (store_accounts b (before ++ a ∷ after) rows).1
        ≡ answer (
            b.new_from_storage
              (b.account_keys a)
              (b.account_number a)
              (b.sub_account_number a)
              look_ahead)
  unfolding store_accounts
  read-store_accounts a [] after look_ahead rows h =
      read-store_others (b.account_number a) (b.sub_account_number a) look_ahead after
        (store_account b a rows) h
      ∙ (read-store_account a look_ahead rows).0
  read-store_accounts a (c ∷ before) after look_ahead rows h =
      read-store_accounts a before after look_ahead (store_account b c rows) h

  -- The account of a master that is stored last under its numbers.
  pub record Holds (master : b.Master) (account sub : ℕ) : Type 0 where
    pub held : b.Account
    pub before : List b.Account
    pub after : List b.Account
    pub split : b.accounts master ≡ before ++ held ∷ after
    pub last : All (IsOther (b.account_number held) (b.sub_account_number held)) after
    pub numbered : b.account_number held ≡ account
    pub sub_numbered : b.sub_account_number held ≡ sub

  -- After the accounts of a master are stored, each of its accounts that is the last under its numbers
  -- is read back with its keys, under these numbers.
  pub read-store_master :
      (master : b.Master) (account sub look_ahead : ℕ) (rows : List (AccountRow b))
      (h : Holds master account sub)
      → read_account b account sub look_ahead (store_master b master rows).1
        ≡ answer (b.new_from_storage (b.account_keys h.held) account sub look_ahead)
  unfolding store_master
  read-store_master master account sub look_ahead rows h =
      subst
        (λ n.
          read_account b n sub look_ahead (store_accounts b (b.accounts master) []).1
          ≡ answer (b.new_from_storage (b.account_keys h.held) n sub look_ahead))
        h.numbered
        (subst
          (λ n.
            read_account b (b.account_number h.held) n look_ahead
              (store_accounts b (b.accounts master) []).1
            ≡ answer
                (b.new_from_storage (b.account_keys h.held) (b.account_number h.held) n look_ahead))
          h.sub_numbered
          (ap
              (λ accounts.
                read_account b (b.account_number h.held) (b.sub_account_number h.held) look_ahead
                  (store_accounts b accounts []).1)
              h.split
            ∙ read-store_accounts h.held h.before h.after look_ahead [] h.last))
