-- ===== src/Tests/Peers.antt =====
-- A table of addresses with one peer, and a download of two blocks.
use defiads.Prelude.{
  ℕ, true, false, none, ◌++◌, ◌≡◌, refl, some, List, [], ◌∷◌, map, length, Returns,
}
use defiads.Keys.Socket
use defiads.Keys.Socket.{SocketAddr, v4}
use defiads.Addresses.{AddressRow, Addresses, find_slot, slot_of, store_address}
use defiads.Addresses.Slots.{IsKeyed, IsStored, store_address-IsStored}
use defiads.BlockDownload.{BlockDownload}
use defiads.BlockDownload.Sequence.{pending}
use defiads.BlockDownload.Service.{
  PeerEvent, on_connected, on_disconnected, on_headers, on_block, on_other, serve_all, delivered,
  serve_all-pending,
}
use defiads.BlockDownload.Headers.{HeaderDb, stored, headers}
use defiads.BlockDownload.Wanted.{headers-wanted}
use defiads.Tests.Tables.{sip}
use defiads.Tests.Stores.{world}

abbrev pub network : List ℕ
network = 100 ∷ 101 ∷ []

abbrev pub friend : SocketAddr
friend = v4 10 0 0 1 21919

-- A peer of the same address on another port, which has the same slot.
abbrev pub rival : SocketAddr
rival = v4 10 0 0 1 8333

abbrev pub known : AddressRow
known = record {
  network = network;
  slot = slot_of sip (3, 4) network friend;
  ip = friend;
  connected = 1000000;
  last_seen = 1000000;
  banned = 0;
}

abbrev pub addresses : Addresses
addresses = record { seed = some (3, 4); rows = known ∷ [] }

store_address-IsStored_example :
    IsStored sip
      (λ a. a)
      1000100
      (8, 9)
      network
      friend
      5
      1000050
      0
      addresses
      (3, 4)
      refl
      (find_slot network (slot_of sip (3, 4) network friend) addresses.rows)
    × IsKeyed (store_address sip (λ a. a) 1000100 (8, 9) network friend 5 1000050 0 addresses).rows
store_address-IsStored_example =
    store_address-IsStored sip (λ a. a) 1000100 (8, 9) network friend 5 1000050 0 addresses (3, 4)
      refl (tt, tt)

friend_slot : find_slot network (slot_of sip (3, 4) network friend) addresses.rows ≡ some known
unfolding find_slot slot_of Socket.new
friend_slot = refl

rival_slot : find_slot network (slot_of sip (3, 4) network rival) addresses.rows ≡ some known
unfolding find_slot slot_of Socket.new
rival_slot = refl

abbrev download : BlockDownload
download = record {
  blocks_wanted = (11, 1) ∷ (12, 2) ∷ [];
  blocks_asked = [];
  block_download_peer = none;
}

-- A chain of headers that stores every header that it is given, on the trunk, at the length of the
-- chain; a header is its time and its hash.
abbrev header_db : HeaderDb world
header_db = record {
  Chain = List (ℕ × ℕ);
  header_tip = λ chain. elim chain [ [] ↦ none | h ∷ hs ↦ some (h, length hs) ];
  get_header = λ hash chain. none;
  header_locators = λ chain. map (λ h. h.1) chain;
  add_header = λ h chain. (stored (length chain) none (some (h.1 ∷ [])), h ∷ chain);
  time = λ h. h.0;
}

abbrev genesis : List (ℕ × ℕ)
genesis = (1, 10) ∷ []

abbrev batch : List (ℕ × ℕ)
batch = (4, 11) ∷ (6, 12) ∷ []

headers-wanted_example : Returns (headers header_db 5 3 batch false genesis download) λ r.
    (r.1.blocks_wanted ≡ (11, 1) ∷ (12, 2) ∷ (12, 2) ∷ [])
    × (r.1.blocks_asked ≡ [])
    × (r.1.block_download_peer ≡ none)
    × (r.2 ≡ (6, 12) ∷ (4, 11) ∷ (1, 10) ∷ [])
headers-wanted_example =
    headers-wanted header_db 5 3 batch false genesis download ((1, 10), 0) refl (tt, (tt, tt))

-- Two peers, of which the first leaves with a block that it was asked for, and headers of two blocks.
abbrev messages : List (PeerEvent world)
messages =
    on_connected 4 true false
    ∷ on_other 4 false
    ∷ on_block 4 11 true
    ∷ on_headers 5 batch true false true
    ∷ on_disconnected 4
    ∷ on_block 5 12 false
    ∷ on_block 5 12 true
    ∷ []

serve_all-pending_example :
    Returns
      (serve_all header_db 5 messages download genesis)
      λ r. delivered header_db 5 r.0 ++ pending r.1 ≡ (11, 1) ∷ (12, 2) ∷ (12, 2) ∷ []
serve_all-pending_example =
    serve_all-pending header_db 5 messages download genesis
      (tt, (tt, (tt, (((((1, 10), 0), refl), (tt, (tt, tt))), (tt, (tt, (tt, tt)))))))
