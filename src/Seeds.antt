-- ===== src/Seeds.antt =====
-- src/find_peers.rs, and what `P2PBiadNet::start` of src/p2p_defiads.rs and `P2PBitcoin::start` of
-- src/p2p_bitcoin.rs do with peers and seeds before the first poll. The lookup of a host is an
-- argument, as are the seeds of bitcoin. The start of threads and listeners is not modelled.
use defiads.Prelude.{
  ℕ, ◌+◌, ◌≡◌, refl, Bool, Option, none, some, List, [], ◌∷◌, ◌++◌, if◌then◌else◌, map,
}
use defiads.Iblt.{Sip}
use defiads.Keys.Socket.{SocketAddr, v4, v6}
use defiads.Addresses.{Addresses, store_address}
use defiads.Addresses.Slots.{IsKeyed, store_address-IsKeyed}

abbrev pub biadnet_port : ℕ
biadnet_port = 21766

-- The port of a network, raised on any but bitcoin's own.
abbrev pub port_of : Bool → ℕ
port_of test = if test then biadnet_port + 100 else biadnet_port

-- The hosts to ask: there are none.
abbrev pub seeder : List (List ℕ)
seeder = []

module _ (to_socket_addrs : List ℕ → ℕ → Option (List SocketAddr)) where
  -- The loop over the hosts.
  unfoldable pub look_up : ℕ → List (List ℕ) → List SocketAddr
  look_up port [] = []
  look_up port (host ∷ hosts) = elim (to_socket_addrs host port) [
    | none ↦ look_up port hosts
    | some found ↦ found ++ look_up port hosts
  ]

  unfoldable pub seed : Bool → List SocketAddr
  unfolding look_up
  seed test = look_up (port_of test) seeder

-- A configured peer keeps its ip only.
unfoldable pub peer_socket : Bool → SocketAddr → SocketAddr
peer_socket test (v4 a b c d port) = v4 a b c d (port_of test)
peer_socket test (v6 segments port flowinfo scope_id) = v6 segments (port_of test) 0 0

-- The peers that are added, in order, which are those that count as tried, and the seeds.
pub record Opened : Type 0 where
  pub earlier : List SocketAddr
  pub dns : List SocketAddr
  pub table : Addresses

module _ (sip : Sip) (reparse : SocketAddr → SocketAddr) (now : ℕ) (random : ℕ × ℕ)
    (network : List ℕ) where
  unfoldable pub store_seeds : List SocketAddr → Addresses → Addresses
  store_seeds [] t = t
  store_seeds (a ∷ dns) t = store_seeds dns (store_address sip reparse now random network a 0 0 0 t)

  -- The start of bitcoin's peers, which are taken as they are.
  unfoldable pub open_peers : List SocketAddr → List SocketAddr → Addresses → Opened
  unfolding store_seeds
  open_peers peers dns t = record { earlier = peers; dns = dns; table = store_seeds dns t }

  -- That of the peers of defiads.
  unfoldable pub open_biadnet :
      (List ℕ → ℕ → Option (List SocketAddr)) → Bool → List SocketAddr → Addresses → Opened
  unfolding open_peers seed
  open_biadnet to_socket_addrs test peers t =
      open_peers (map (peer_socket test) peers) (seed to_socket_addrs test) t

  -- Storing the seeds keeps the slots of each network apart.
  pub store_seeds-IsKeyed :
      (dns : List SocketAddr) (t : Addresses) → IsKeyed t.rows → IsKeyed (store_seeds dns t).rows
  unfolding store_seeds
  store_seeds-IsKeyed [] t h = h
  store_seeds-IsKeyed (a ∷ dns) t h =
      store_seeds-IsKeyed dns (store_address sip reparse now random network a 0 0 0 t)
        (store_address-IsKeyed sip reparse now random network a 0 0 0 t h)

  -- Whatever hosts answer: as no host is asked, the start leaves the table of addresses as it was, and
  -- there is no seed for `KeepConnected` to turn to.
  pub open_biadnet_seedless :
      (to_socket_addrs : List ℕ → ℕ → Option (List SocketAddr)) (test : Bool)
      (peers : List SocketAddr) (t : Addresses)
      → ((open_biadnet to_socket_addrs test peers t).table ≡ t)
        × ((open_biadnet to_socket_addrs test peers t).dns ≡ [])
  unfolding open_biadnet
  open_biadnet_seedless to_socket_addrs test peers t = (refl, refl)
