-- ===== src/Api.antt =====
-- src/api.rs: the methods of the api. The HTTP server is a library; a call is a method with its
-- parameters, and its effect is that on the store. A JSON number is what `as_u64` gives of it.
pub mod Arguments
pub mod Access
use defiads.Prelude.{
  ℕ, min, ◌≡◌, Bool, true, false, Option, none, some, List, [], ◌∷◌, map, leb, if◌then◌else◌,
  length, Run, ok, panic, ◌>>=◌,
}
use defiads.Text.{as_string}
use defiads.World.{World}
use defiads.Keys.{ContentKey}
use defiads.Trunk.{Trunk}
use defiads.Readable.{Readable}
use defiads.Listing.{list_categories, list_abstracts, read_contents}
use defiads.Publications.{prepare, read_publication, list_publication}
use defiads.Wallet.{Tx, Bank, Fault, Result, failed, done, unwrap}
use defiads.Ledger
use defiads.Ledger.{Ledger}
use defiads.Api.Arguments.{
  Params, Reply, rejected, replied, Rejection, too_few, malformed_id, unknown_publication, refused,
  parse_arguments, parse_wallet_arguments, parse_withdrawal, parse_funding,
}

-- The methods that are added to the handler.
pub data Method : Type 0 where
  categories list read balance deposit prepare_ad list_prepared read_prepared withdraw fund : Method

pub data Json (w : World) : Type 0 where
  texts : List w.codec.Str → Json w
  table : List (List w.codec.Str) → Json w
  contents : List (Readable w) → Json w
  amounts : List ℕ → Json w
  address : w.Script → Json w
  publication : ContentKey → Json w
  publications : List ContentKey → Json w
  ad_text : w.codec.Str → w.codec.Str → w.codec.Str → Json w
  txid : ℕ → Json w

module _ {w : World} (b : Bank w) (api_key : w.codec.Str) (time : w.Header → ℕ) (trunk : Trunk w)
    (random : ℕ → ℕ) where
  -- The answer, the store after it, and what was sent.
  abbrev pub Called : Type 0
  Called = Reply (Json w) × Ledger b × List (Tx w)

  abbrev pub shows : Json w → Ledger b → Run Called
  shows json l = ok (replied json, l, [])

  abbrev pub rejects : Rejection → Ledger b → Run Called
  rejects r l = ok (rejected r, l, [])

  unfoldable pub on_prepare : List w.codec.Str → Ledger b → Run Called
  on_prepare (cat ∷ abs ∷ content ∷ more) l = do
    r ← prepare w cat abs content l.publications
    shows (publication (r.0)) (record l { publications = r.1 })
  on_prepare args l = rejects too_few l

  unfoldable pub on_read_prepared : List w.codec.Str → Ledger b → Run Called
  on_read_prepared [] l = rejects too_few l
  on_read_prepared (arg ∷ args) l = elim (w.parse_id arg) [
    | none ↦ rejects malformed_id l
    | some id ↦ elim (read_publication w id l.publications) [
      | none ↦ rejects unknown_publication l
      | some ad ↦ do
        content ← as_string w.codec ad.content
        text ← unwrap content
        shows (ad_text ad.cat ad.abs text) l
    ]
  ]

  unfoldable pub on_deposit : Ledger b → Run Called
  on_deposit l = do r ← Ledger.deposit_address b l; shows (address (r.0)) (r.1)

  -- What a payment answers: the id of the transaction, or the error of the wallet.
  abbrev pub answers_tx : {A : Type 0} → (A → Tx w) → Ledger.Outcome b A → Run Called
  answers_tx tx_of (failed fault, l, messages) = ok (rejected (refused fault), l, messages)
  answers_tx tx_of (done a, l, messages) = ok (replied (txid (b.txid (tx_of a))), l, messages)

  unfoldable pub on_withdraw : w.codec.Str → w.Script × ℕ × Option ℕ → Ledger b → Run Called
  on_withdraw passphrase (target, fee_per_vbyte, amount) l =
      Ledger.withdraw b passphrase target fee_per_vbyte amount trunk random l
      >>= answers_tx λ a. a.0

  unfoldable pub on_fund : w.codec.Str → ContentKey × ℕ × ℕ × ℕ → Ledger b → Run Called
  on_fund passphrase (id, amount, term, fee_per_vbyte) l =
      Ledger.fund b id term amount fee_per_vbyte passphrase trunk random l >>= answers_tx λ a. a.0

  -- A method behind the parse of its arguments.
  abbrev pub with_arguments :
      {A : Type 0} → Reply A → (A → Ledger b → Run Called) → Ledger b → Run Called
  with_arguments (rejected r) k l = rejects r l
  with_arguments (replied a) k l = k a l

  unfoldable pub call : Method → Params w → Ledger b → Run Called
  call categories p l =
      with_arguments (parse_arguments w api_key p)
        (λ args l'. shows (texts (list_categories w l'.store.rows)) l') l
  call list p l =
      with_arguments (parse_arguments w api_key p)
        (λ args l'. shows (table (list_abstracts w args l'.store.rows)) l') l
  call read p l =
      with_arguments (parse_arguments w api_key p)
        (λ args l'. read_contents w time trunk args l'.store.rows >>= λ rs. shows (contents rs) l')
        l
  call balance p l =
      with_arguments (parse_arguments w api_key p)
        (λ args l'. shows (amounts (Ledger.balance b trunk l')) l') l
  call deposit p l = with_arguments (parse_arguments w api_key p) (λ args l'. on_deposit l') l
  call prepare_ad p l = with_arguments (parse_arguments w api_key p) on_prepare l
  call list_prepared p l =
      with_arguments (parse_arguments w api_key p)
        (λ args l'. shows (publications (list_publication w l'.publications)) l') l
  call read_prepared p l = with_arguments (parse_arguments w api_key p) on_read_prepared l
  call withdraw p l =
      with_arguments (parse_wallet_arguments w api_key p)
        (λ args. with_arguments (parse_withdrawal w args.1) (on_withdraw args.0)) l
  call fund p l =
      with_arguments (parse_wallet_arguments w api_key p)
        (λ args. with_arguments (parse_funding w args.1) (on_fund args.0)) l
