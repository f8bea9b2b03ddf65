-- ===== src/Addresses.antt =====
-- The table `address` of src/db.rs: what the node knows of peers, one address in each slot of a
-- network. The clock, the random numbers and the random position are arguments. A socket is kept as
-- text, and `reparse` is what comes of a socket that is written and read again.
pub mod Slots
use defiads.Prelude.{
  ℕ, ◌+◌, ◌-◌, ◌/◌, ◌%◌, ◌^◌, min, max, Bool, true, false, not, ◌&&◌, ◌||◌, Option, none, some,
  List, [], ◌∷◌, ◌++◌, map, ◌==◌, ltb, if◌then◌else◌, length, filter, any, get_or,
}
use defiads.Prelude.Array.{to_le_bytes, eq_array}
use defiads.Iblt.{Sip}
use defiads.Keys.{NetAddress}
use defiads.Keys.Socket
use defiads.Keys.Socket.{SocketAddr, v4, v6}

abbrev pub address_slots : ℕ
address_slots = 10000

-- Five days, and a day, in seconds.
abbrev pub old_connection : ℕ
old_connection = 432000

abbrev pub ban_time : ℕ
ban_time = 86400

pub record AddressRow : Type 0 where
  pub network : List ℕ
  pub slot : ℕ
  pub ip : SocketAddr
  pub connected : ℕ
  pub last_seen : ℕ
  pub banned : ℕ

pub record Addresses : Type 0 where
  pub seed : Option (ℕ × ℕ)
  pub rows : List AddressRow

abbrev pub same_bytes : List ℕ → List ℕ → Bool
same_bytes [] [] = true
same_bytes (a ∷ rest) (b ∷ bs) = a == b && same_bytes rest bs
same_bytes xs ys = false

-- `PartialEq` of sockets
abbrev pub same_socket : SocketAddr → SocketAddr → Bool
same_socket (v4 a b c d p) (v4 a' b' c' d' p') =
    a == a' && (b == b' && (c == c' && (d == d' && p == p')))
same_socket (v6 s p f i) (v6 s' p' f' i') = eq_array 8 s s' && (p == p' && (f == f' && i == i'))
same_socket x y = false

-- `u64` subtraction in a release build.
abbrev pub u64_sub : ℕ → ℕ → ℕ
u64_sub a b = (a + (2 ^ 64 - b)) % 2 ^ 64

-- SQLite compares the numbers as i64.
abbrev pub i64_less : ℕ → ℕ → Bool
i64_less a b = ltb ((a + 2 ^ 63) % 2 ^ 64) ((b + 2 ^ 63) % 2 ^ 64)

unfoldable pub read_seed : ℕ × ℕ → Addresses → (ℕ × ℕ) × Addresses
read_seed random t = elim (t.seed) [
  | none ↦ (random, record t { seed = some random })
  | some seed ↦ (seed, t)
]

unfoldable pub slot_of : Sip → ℕ × ℕ → List ℕ → SocketAddr → ℕ
slot_of sip (k0, k1) network address =
    sip k0 k1 (network ++ to_le_bytes 8 (Socket.new address).address) % address_slots

abbrev pub at_slot : List ℕ → ℕ → AddressRow → Bool
at_slot network slot r = same_bytes network r.network && slot == r.slot

unfoldable pub find_slot : List ℕ → ℕ → List AddressRow → Option AddressRow
find_slot network slot [] = none
find_slot network slot (r ∷ rows) =
    if at_slot network slot r then some r else find_slot network slot rows

-- `insert or replace`
unfoldable pub replace_slot : AddressRow → List AddressRow → List AddressRow
replace_slot r rows = r ∷ filter (λ q. not (at_slot r.network r.slot q)) rows

-- The row that goes into the slot of an old row, or `none` where nothing is written.
unfoldable pub replacement : ℕ → SocketAddr → ℕ → ℕ → ℕ → AddressRow → Option AddressRow
replacement now address connected last_seen banned old =
    if same_socket old.ip address
    then some (record old {
      connected = max old.connected connected;
      last_seen = max old.last_seen last_seen;
      banned = max old.banned banned;
    })
    else (if ltb 0 old.banned || ltb old.connected (u64_sub now old_connection)
        then some (record old {
          ip = address;
          connected = connected;
          last_seen = last_seen;
          banned = banned;
        })
        else none)

-- Writes a row, if there is one.
unfoldable pub write :
    (SocketAddr → SocketAddr) → Option AddressRow → List AddressRow → List AddressRow
write reparse none rows = rows
write reparse (some r) rows = replace_slot (record r { ip = reparse r.ip }) rows

module _ (sip : Sip) (reparse : SocketAddr → SocketAddr) where
  unfoldable pub store_address : ℕ → ℕ × ℕ → List ℕ → SocketAddr → ℕ → ℕ → ℕ → Addresses → Addresses
  store_address now random network address connected last_seen banned t =
      let (seed, t') = read_seed random t in
      let slot = slot_of sip seed network address in
      let fresh : AddressRow = record {
        network = network;
        slot = slot;
        ip = address;
        connected = connected;
        last_seen = last_seen;
        banned = banned;
      } in
      let chosen : Option AddressRow = elim (find_slot network slot t'.rows) [
        | none ↦ some fresh
        | some old ↦ replacement now address connected last_seen banned old
      ] in
      record t' { rows = write reparse chosen t'.rows }

-- The addresses that may be drawn, by falling time they were last seen, in the order that the
-- database gives them.
unfoldable pub eligible :
    ((AddressRow → ℕ) → List AddressRow → List AddressRow)
    → ℕ
    → List ℕ
    → List SocketAddr
    → List AddressRow
    → List SocketAddr
eligible order_by_desc now network other_than rows =
    filter (λ a. not (any (same_socket a) other_than))
      (map (λ (r : AddressRow). r.ip)
        (order_by_desc (λ r. r.last_seen)
          (filter (λ r. same_bytes r.network network && i64_less r.banned (u64_sub now ban_time))
            rows)))

-- `sample` is the number that the Poisson distribution gave.
unfoldable pub get_an_address :
    ((AddressRow → ℕ) → List AddressRow → List AddressRow)
    → ℕ
    → ℕ
    → List ℕ
    → List SocketAddr
    → List AddressRow
    → Option SocketAddr
get_an_address order_by_desc sample now network other_than rows =
    elim (eligible order_by_desc now network other_than rows) [
      | [] ↦ none
      | a ∷ found ↦ some (get_or (a ∷ found) (min (length found) sample) a)
    ]
