-- ===== src/Contents.antt =====
-- The table `content` of src/db.rs and src/content.rs: a list of rows, of which no two have one id.
-- The id, the hex text of the digest of the ad, is the digest; proof and publisher are kept as the
-- values that their bytes encode. Errors of SQLite itself are not modelled.
pub mod Deletion
pub mod Limit
use defiads.Prelude.{
  ℕ, ◌+◌, ◌/◌, ◌%◌, ◌^◌, Bool, true, false, not, Option, none, some, List, [], ◌∷◌, ◌++◌, ◌==◌, ltb,
  leb, if◌then◌else◌, length, filter, any, map, Run, ok, panic, ◌>>=◌, ◌>>◌, assert,
}
use defiads.Ad
use defiads.Ad.{Ad}
use defiads.Text.{as_string}
use defiads.World.{World}
use defiads.Keys.{ContentKey, content_eq, content_key}
use defiads.Iblt
use defiads.Iblt.{Iblt, insert_all}
use defiads.Sketch.{min_sketch}

-- The number of hash functions and their keys.
abbrev pub nh : ℕ
nh = 4

abbrev pub key0 : ℕ
key0 = 1614418600579272000

abbrev pub key1 : ℕ
key1 = 8727507265883984962

-- `Content` of src/content.rs
pub record Content (w : World) : Type 0 where
  pub ad : Ad w.codec
  pub funding : w.ProvedTransaction
  pub funder : w.PublicKey
  pub term : ℕ

pub record Row (w : World) : Type 0 where
  pub id : ContentKey
  pub cat : w.codec.Str
  pub abs : w.codec.Str
  pub text : w.codec.Str
  pub block_id : ℕ
  pub height : ℕ
  pub proof : w.ProvedTransaction
  pub publisher : w.PublicKey
  pub term : ℕ
  pub weight : ℕ
  pub length : ℕ

-- The answer of a query that may end in the error `QueryReturnedNoRows`.
pub data Queried {ℓ} (A : Type ℓ) : Type ℓ where
  answer : A → Queried A
  no_rows : Queried A

module _ (w : World) where
  -- `Ad::digest`, as a key
  unfoldable pub digest : Ad w.codec → ContentKey
  digest ad = record { digest = w.sha256 (w.cbor ad) }

  -- `Content::length`
  unfoldable pub content_length : Content w → ℕ
  content_length c = length (w.cbor c.ad) % 2 ^ 32

  abbrev pub has_id : ContentKey → Row w → Bool
  has_id x r = content_eq r.id x

  abbrev pub ids : List (Row w) → List ContentKey
  ids = map (λ (r : Row w). r.id)

  unfoldable pub row_of : ℕ → ℕ → Content w → ℕ → w.codec.Str → Row w
  unfolding digest content_length
  row_of height block_id c amount text = record {
    id = digest c.ad;
    cat = c.ad.cat;
    abs = c.ad.abs;
    text = text;
    block_id = block_id;
    height = height;
    proof = c.funding;
    publisher = c.funder;
    term = c.term;
    weight = amount / content_length c % 2 ^ 32;
    length = content_length c;
  }

  -- `insert or replace`
  unfoldable pub insert_or_replace : Row w → List (Row w) → List (Row w)
  insert_or_replace r rows = r ∷ filter (λ q. not (has_id r.id q)) rows

  -- The text of the ad is `expect`ed to decode, and the division by the length panics at 0.
  unfoldable pub store_content : ℕ → ℕ → Content w → ℕ → List (Row w) → Run (List (Row w))
  store_content height block_id c amount rows = do
    decoded ← as_string w.codec c.ad.content
    elim decoded [
      | none ↦ panic
      | some text ↦
          assert (not (content_length c == 0))
          >> ok (insert_or_replace (row_of height block_id c amount text) rows)
    ]

  unfoldable pub find_row : ContentKey → List (Row w) → Option (Row w)
  find_row x [] = none
  find_row x (r ∷ rows) = if has_id x r then some r else find_row x rows

  -- A missing row is an error of `query_row`, which `?` passes on.
  unfoldable pub read_content : ContentKey → List (Row w) → Queried (Option (Content w))
  unfolding find_row
  read_content x rows = elim (find_row x rows) [
    | none ↦ no_rows
    | some r ↦ answer (
        some (record {
          ad = Ad.new w.codec r.cat r.abs r.text;
          funding = r.proof;
          funder = r.publisher;
          term = r.term;
        }))
  ]

  -- `delete from content where id in (…)`
  unfoldable pub delete_ids : List ContentKey → List (Row w) → List (Row w)
  delete_ids gone = filter (λ r. not (any (λ x. has_id x r) gone))

  -- The loop of `truncate_content` over the rows by falling weight.
  unfoldable pub over_limit : ℕ → ℕ → List (Row w) → List ContentKey
  over_limit limit size [] = []
  over_limit limit size (r ∷ rows) =
      let size' = (size + r.length) % 2 ^ 64 in
      let rest = over_limit limit size' rows in if ltb limit size' then r.id ∷ rest else rest

  unfoldable pub truncate_content : ℕ → List (Row w) → List ContentKey × List (Row w)
  unfolding over_limit delete_ids
  truncate_content limit rows =
      let gone = over_limit limit 0 (w.order_by_desc (Row w) (λ r. r.weight) rows) in
      (gone, delete_ids gone rows)

  -- `height + term <= ?1`
  abbrev pub is_expired : ℕ → Row w → Bool
  is_expired height r = leb (r.height + r.term) height

  unfoldable pub delete_expired : ℕ → List (Row w) → List ContentKey × List (Row w)
  unfolding delete_ids
  delete_expired height rows =
      let gone = ids (filter (is_expired height) rows) in (gone, delete_ids gone rows)

  unfoldable pub delete_confirmed : ℕ → List (Row w) → List ContentKey × List (Row w)
  unfolding delete_ids
  delete_confirmed block_id rows =
      let gone = ids (filter (λ r. r.block_id == block_id) rows) in (gone, delete_ids gone rows)

  unfoldable pub compute_content_iblt : ℕ → List (Row w) → Run (Iblt ContentKey)
  compute_content_iblt len rows = Iblt.new ⦃key = content_key w.sip⦄ w.sip len nh key0 key1 >>= λ t.
      insert_all ⦃key = content_key w.sip⦄ t (ids rows)

  unfoldable pub compute_content_sketch : ℕ → List (Row w) → Run (List ℕ × List (ℕ × ℕ) × ℕ)
  compute_content_sketch len rows =
      min_sketch ⦃key = content_key w.sip⦄ w.sip len key0 key1 (ids rows)
