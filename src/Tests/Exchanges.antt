-- ===== src/Tests/Exchanges.antt =====
-- Exchanges: of a peer with itself, and of a node without ads with one that holds an ad.
use defiads.Prelude.{
  none, ℕ, ◌+◌, ◌%◌, ltb, length, get_or, ok, ◌≡◌, refl, arith, some, true, false, [], ◌∷◌,
}
use mathlib.Core.List.Permᴰ
use defiads.World.{World}
use defiads.Trunk.{Trunk}
use defiads.Ad
use defiads.Text
use defiads.Keys.{ContentKey, content_key, content_xor, content_hash, content_eq}
use defiads.Iblt.{Iblt, Sip, new, insert_all, substract, substract_buckets, generate_ksequence}
use defiads.BucketIterator.{positions}
use defiads.IbltIterator.Endless.{crossed}
use defiads.Contents.{
  compute_content_iblt, nh, key0, key1, answer, digest, find_row, read_content, row_of,
}
use defiads.Store.Sync.{opened, compute-eq-sketch_of}
use defiads.Updater.Delivery.{IsDelivered, delivers}
use defiads.Store.{get_tip, find_iblt, get_iblt}
use defiads.Store.Tables.{table}
use defiads.Updater.{Updater, iblt_size, minimum_iblt_size, on_content_iblt}
use defiads.Updater.Stalling.{on_content_iblt-crossed}
use defiads.Updater.Size.{IsSizeFor, iblt_size-IsSizeFor}
use defiads.Tests.Tables.{float}
use defiads.Tests.Stores.{
  word, world, trunk, store, rows, row, empty, content, store-IsSynced, store-HasSketch, admits,
  decodes, measured,
}

abbrev updater : Updater world
updater = record {
  store = store;
  poll_asked = (8, record { tip = 7; sketch = 4 ∷ 5 ∷ []; size = 1 }) ∷ [];
  last_polled = 0;
}

iblt_size-IsSizeFor_example : IsSizeFor 1000 minimum_iblt_size (iblt_size 1000)
iblt_size-IsSizeFor_example = iblt_size-IsSizeFor 1000

at_tip : get_tip world trunk ≡ some 7
unfolding get_tip
at_tip = refl

-- A node without ads, and one that holds an ad.
abbrev bare_node : Updater world
bare_node = record { store = empty; poll_asked = []; last_polled = 0 }

holds : read_content world (digest world content.ad) rows ≡ answer (some content)
unfolding read_content find_row row_of content_eq digest Ad.new
holds = refl

delivers_example : IsDelivered world float trunk 3 1 2 7 100 false content row bare_node updater
unfolding row_of Ad.new Text.new
delivers_example =
    delivers world float trunk 3 1 2 7 100 false content bare_node updater 100 (9, 7) 5000
      (true ∷ true ∷ []) at_tip (omega arith) (omega arith) (Permᴰ.refl _) holds
      (record { tables = tt; unique = tt }) (compute-eq-sketch_of world []) store-IsSynced
      store-HasSketch admits decodes measured tt (omega arith) (omega arith)

-- A hash function under which the buckets of a key are two neighbours.
abbrev neighbours : Sip
neighbours k0 k1 bytes = elim (ltb (length bytes) 9) [
  | true ↦ k0 + 1
  | false ↦ get_or bytes 0 0 + k0 % 2
]

abbrev open_world : World
open_world = record world { sip = neighbours }

abbrev open_trunk : Trunk open_world
open_trunk = record {
  is_on_trunk = λ h. true;
  get_header = λ h. none;
  get_header_for_height = λ n. none;
  get_height = λ h. none;
  get_tip = some (9, 7);
  len = 105;
}

abbrev key_at : ℕ → ContentKey
key_at n = record { digest = word (n ∷ []) }

abbrev open_table : Iblt ContentKey
open_table = table open_world 4 []

abbrev malicious : Iblt ContentKey
malicious =
    crossed ⦃key = content_key neighbours⦄ key0 key1 nh open_table.ksequence 0 (key_at 1) (key_at 3)

abbrev open_node : Updater open_world
open_node = record { store = opened open_world [] 1000; poll_asked = []; last_polled = 0 }

open_table_at :
    get_iblt open_world 4 (opened open_world [] 1000)
    ≡ ok (open_table, record (opened open_world [] 1000) { iblts = (4, open_table) ∷ [] })
unfolding get_iblt find_iblt compute_content_iblt new insert_all
open_table_at = refl

open_difference : substract ⦃key = content_key neighbours⦄ malicious open_table ≡ ok malicious
unfolding substract substract_buckets content_xor content_hash
open_difference = refl

open_spots :
    (positions ⦃key = content_key neighbours⦄ 4 open_table.ksequence (key_at 1) ≡ ok (1 ∷ 2 ∷ []))
    × (positions ⦃key = content_key neighbours⦄ 4 open_table.ksequence (key_at 3) ≡ ok (0 ∷ 3 ∷ []))
unfolding positions content_hash generate_ksequence
open_spots = (refl, refl)

on_content_iblt-crossed_example :
    on_content_iblt open_world float open_trunk 1000 8 7 malicious open_node ≡ ok none
unfolding get_tip
on_content_iblt-crossed_example =
    on_content_iblt-crossed float open_trunk 8 7 malicious open_table open_node
      (record open_node.store { iblts = (4, open_table) ∷ [] }) key0 key1 nh 0 open_table.ksequence
      (key_at 1) (key_at 3) refl open_table_at open_difference open_spots.0 open_spots.1 1000
