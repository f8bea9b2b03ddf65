-- ===== src/Tests/Stores.antt =====
-- A small world in the place of the libraries, and stores in it.
use mathlib.Core.List.Permᴰ
use defiads.Prelude.{
  ℕ, ◌+◌, ◌%◌, ◌≡◌, ◌↔◌, refl, arith, true, false, not, none, some, List, [], ◌∷◌, filter, length,
  ok, ◌==◌, ==_iff, Returns,
}
use defiads.Prelude.Array.{Array, zeros}
use defiads.Text
use defiads.Text.{as_string, as_string-new}
use defiads.Ad
use defiads.Ad.{Ad}
use defiads.World.{World, ScriptOp, push_int}
use defiads.Trunk.{Trunk}
use defiads.Keys.{digest_len, content_eq}
use defiads.Contents.{
  digest, truncate_content, over_limit, delete_ids, Content, Row, ids, content_length, row_of,
  is_expired, compute_content_iblt,
}
use defiads.Store.Tables.{table, compute-eq-table}
use defiads.Store.{
  Store, commitment, funding_address, funding_script, find_output, add_header, unwind_tip,
  add_content, admissible, get_iblt, truncate_to_limit,
}
use defiads.Store.Sync.{IsSynced, HasSketch, compute-eq-sketch_of, opened}
use defiads.Store.Headers.{add_header-IsSynced, unwind_tip-IsSynced, add_header_stale}
use defiads.Store.Adding.{add_content-IsSynced, get_iblt-IsSynced}
use defiads.Store.Guards.{IsAdmitted, admissible_iff}
use defiads.Store.Truncation.{IsWithin, truncate_to_limit-IsWithin}
use defiads.Tests.Sorting.{sort_desc, sort_desc_perm, sort_desc-IsFalling}
use defiads.Tests.Tables.{sip}
use defiads.Tests.Texts.{codec}

abbrev pub word : List ℕ → Array ℕ digest_len
word [] = zeros digest_len
word (x ∷ xs) = (x, zeros 31)

-- A script is known by the term of its lock.
abbrev lock : List ScriptOp → ℕ
lock (push_int term ∷ ops) = term
lock ops = 0

-- Headers are pairs of a merkle root and of a hash, and so are transactions of outputs and versions.
abbrev pub world : World
world = record {
  codec = codec;
  sip = sip;
  sha256 = word;
  cbor = λ ad. length ad.cat ∷ length ad.abs ∷ ad.content.encoded;
  Header = ℕ × ℕ;
  bitcoin_hash = λ h. h.1;
  merkle_root = λ h. h.0;
  prev_blockhash = λ h. 0;
  Script = ℕ;
  script_eq = λ a b. a == b;
  script_eq_iff = ==_iff;
  Transaction = ℕ × List (ℕ × ℕ);
  version = λ t. t.0;
  output = λ t. t.1;
  ProvedTransaction = ℕ × ℕ × ℕ × List (ℕ × ℕ);
  get_block_hash = λ p. p.0;
  proof_merkle_root = λ p. p.1;
  get_transaction = λ p. (p.2, p.3);
  PublicKey = ℕ;
  to_bytes = λ k. k ∷ [];
  tweak_exp_add = λ k d. (k + d.0) % 256;
  p2wsh = lock;
  order_by_desc = λ A f xs. sort_desc f xs;
  order_by_desc-perm = λ A f xs. sort_desc_perm f xs;
  order_by_desc-IsFalling = λ A f xs. sort_desc-IsFalling f xs;
  order_by_text = λ A text f xs. xs;
  order_by_text-perm = λ A text f xs. Permᴰ.refl xs;
  id_text = λ x. (x.digest.0 == 0) ∷ [];
  parse_id = λ s. elim s [ [] ↦ none | b ∷ bs ↦ some (record { digest = word [] }) ];
  parse_address = λ s. elim s [ [] ↦ none | b ∷ bs ↦ some (length bs) ];
}

abbrev pub ad : Ad codec
ad = Ad.new codec (true ∷ []) (false ∷ []) (true ∷ true ∷ [])

-- An ad that the block 7 confirmed, at height 100, for 10 blocks.
abbrev pub content : Content world
content = record { ad = ad; funding = (7, 9, 2, (5000, 10) ∷ []); funder = 3; term = 10 }

abbrev pub trunk : Trunk world
trunk = record {
  is_on_trunk = λ h. h == 7;
  get_header = λ h. some (9, 7);
  get_header_for_height = λ n. some (9, 7);
  get_height = λ h. some 100;
  get_tip = some (9, 7);
  len = 105;
}

abbrev pub row : Row world
row = row_of world 100 7 content 5000 (true ∷ true ∷ [])

abbrev pub rows : List (Row world)
rows = row ∷ []

-- A store that holds the ad, with a table of 7 buckets, and one without a table.
abbrev pub store : Store world
store = record (opened world rows 1000) { iblts = (7, table world 7 (ids world rows)) ∷ [] }

pub store-IsSynced : IsSynced world store
store-IsSynced = record {
  tables = ((omega arith, compute-eq-table world 7 rows (omega arith)), tt);
  unique = (tt, tt);
}

pub store-HasSketch : HasSketch world store
store-HasSketch = compute-eq-sketch_of world rows

abbrev pub bare : Store world
bare = opened world rows 1000

bare-IsSynced : IsSynced world bare
bare-IsSynced = record { tables = tt; unique = (tt, tt) }

add_header-IsSynced_example :
    Returns
      (add_header world 110 store)
      λ s'. (s'.rows ≡ filter (λ r. not (is_expired world 110 r)) rows) × IsSynced world s'
add_header-IsSynced_example = add_header-IsSynced world store store-IsSynced 110

unwind_tip-IsSynced_example :
    Returns
      (unwind_tip world (9, 7) store)
      λ s'. (s'.rows ≡ filter (λ r. not (r.block_id == 7)) rows) × IsSynced world s'
unwind_tip-IsSynced_example = unwind_tip-IsSynced world store store-IsSynced (9, 7)

add_header_stale_example : Returns (add_header world 110 bare) λ s'.
    (s'.rows ≡ filter (λ r. not (is_expired world 110 r)) rows)
    × (s'.min_sketch ≡ bare.min_sketch)
    × (s'.n_keys ≡ bare.n_keys)
add_header_stale_example = add_header_stale world bare bare-IsSynced 110 refl

get_iblt-IsSynced_example :
    Returns
      (get_iblt world 9 store)
      λ r. (compute_content_iblt world 9 rows ≡ ok r.0) × (r.1.rows ≡ rows) × IsSynced world r.1
get_iblt-IsSynced_example = get_iblt-IsSynced world 9 store (omega arith) store-IsSynced

abbrev pub empty : Store world
empty = opened world [] 1000

pub admits : admissible world trunk content ≡ some (100, (9, 7), 5000)
unfolding commitment funding_address funding_script find_output
admits = ((admissible_iff world trunk content empty).0 100 (9, 7) 5000).1 (record {
  on_trunk = refl;
  unexpired = omega arith;
  in_block = refl;
  proved = refl;
  version = omega arith;
  pays = refl;
})

pub decodes : as_string codec content.ad.content ≡ ok (some (true ∷ true ∷ []))
unfolding Ad.new
decodes = as_string-new codec (true ∷ true ∷ [])

pub measured : (content_length world content == 0) ≡ false
unfolding content_length Ad.new Text.new Text.write_units
measured = refl

add_content-IsSynced_example : Returns (add_content world trunk content empty) λ r.
    (r.0 ≡ true)
    × (r.1.rows ≡ row_of world 100 7 content 5000 (true ∷ true ∷ []) ∷ [])
    × IsSynced world r.1
    × HasSketch world r.1
    × (length r.1.iblts ≡ 0)
    × (r.1.storage_limit ≡ 1000)
add_content-IsSynced_example =
    add_content-IsSynced world trunk content empty 100 (9, 7) 5000 (true ∷ true ∷ []) admits decodes
      measured tt (record { tables = tt; unique = tt }) (compute-eq-sketch_of world [])

admissible_iff_example :
    ((height : ℕ) (header : ℕ × ℕ) (value : ℕ)
      → (admissible world trunk content ≡ some (height, header, value))
        ↔ IsAdmitted world trunk content height header value)
    × ((admissible world trunk content ≡ none)
        ↔ (add_content world trunk content empty ≡ ok (false, empty)))
admissible_iff_example = admissible_iff world trunk content empty

-- A lighter row before the row, and a limit that only one of them fits.
abbrev light : Row world
light = record row { id = record { digest = word (5 ∷ []) }; weight = 0; length = 8 }

abbrev both : List (Row world)
both = light ∷ row ∷ []

abbrev crowded : Store world
crowded = record (opened world both 10) { iblts = (7, table world 7 (ids world both)) ∷ [] }

crowded-IsSynced : IsSynced world crowded
unfolding content_eq row_of digest Ad.new
crowded-IsSynced = record {
  tables = ((omega arith, compute-eq-table world 7 both (omega arith)), tt);
  unique = ((refl, tt), (tt, tt));
}

truncate_to_limit-IsWithin_example :
    Returns
      (truncate_to_limit world crowded)
      λ s'. IsWithin world 10 both s'.rows × IsSynced world s' × HasSketch world s'
unfolding row_of content_length digest
truncate_to_limit-IsWithin_example =
    truncate_to_limit-IsWithin world crowded crowded-IsSynced (compute-eq-sketch_of world both)
      (omega arith) (omega arith)

one_truncated : truncate_content world 10 both ≡ (light.id ∷ [], row ∷ [])
unfolding truncate_content over_limit delete_ids content_eq row_of content_length digest Ad.new
    Text.new
one_truncated = refl
