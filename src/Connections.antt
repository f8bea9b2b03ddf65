-- ===== src/Connections.antt =====
-- src/p2p_defiads.rs: `KeepConnected`, which opens a connection when there are too few, and
-- `AddressPoolMaintainer`, which notes connections and bans. The network is an argument: the two are
-- in src/p2p_bitcoin.rs again, for another network. The set of the addresses tried earlier is a
-- list; the clock and the random numbers are arguments.
use defiads.Prelude.{
  ℕ, zero, suc, min, ◌%◌, ◌≡◌, Bool, false, not, Option, none, some, List, [], ◌∷◌, ◌++◌, inl, inr,
  Bool-cases, ltb, if◌then◌else◌, length, filter, any, get_or, All,
}
use defiads.Iblt.{Sip}
use defiads.Keys.Socket.{SocketAddr}
use defiads.Addresses.{AddressRow, Addresses, same_socket, get_an_address, eligible, store_address}
use defiads.Discovery.{find_peer, remove_peer}

abbrev pub is_in : List SocketAddr → SocketAddr → Bool
is_in sockets a = any (same_socket a) sockets

-- The seeds that were not tried, and the one that a random number picks.
unfoldable pub untried : List SocketAddr → List SocketAddr → List SocketAddr
untried dns earlier = filter (λ a. not (is_in earlier a)) dns

unfoldable pub pick : ℕ → List SocketAddr → Option SocketAddr
pick random [] = none
pick random (a ∷ sockets) = some (get_or (a ∷ sockets) (random % length (a ∷ sockets)) a)

-- `KeepConnected::poll`, with what `n_connected_peers` and then `connected_peers` said: the peer that
-- is added, if any, and the addresses tried.
unfoldable pub keep_connected :
    List ℕ
    → ((AddressRow → ℕ) → List AddressRow → List AddressRow)
    → ℕ
    → ℕ
    → ℕ
    → ℕ
    → ℕ
    → List SocketAddr
    → List SocketAddr
    → List AddressRow
    → List SocketAddr
    → Option SocketAddr × List SocketAddr
keep_connected network order_by_desc sample random now min_connections n_connected dns connected
      rows earlier =
    if ltb n_connected min_connections
    then (let tried = connected ++ earlier in
        elim (get_an_address order_by_desc sample now network tried rows) [
          | some choice ↦ (some choice, choice ∷ tried)
          | none ↦ elim (pick random (untried dns tried)) [
            | some choice ↦ (some choice, choice ∷ tried)
            | none ↦ (none, tried)
          ]
        ])
    else (none, earlier)

pub record AddressPool : Type 0 where
  pub table : Addresses
  pub addresses : List (ℕ × SocketAddr)

module _ (network : List ℕ) (sip : Sip) (reparse : SocketAddr → SocketAddr) (now : ℕ)
    (random : ℕ × ℕ) where
  -- `AddressPoolMaintainer::run`
  unfoldable pub pool_connected : ℕ → Option SocketAddr → AddressPool → AddressPool
  pool_connected pid addr p = elim addr [
    | none ↦ p
    | some a ↦ record {
      table = store_address sip reparse now random network a now now 0 p.table;
      addresses = (pid, a) ∷ remove_peer pid p.addresses;
    }
  ]

  unfoldable pub pool_disconnected : ℕ → Bool → AddressPool → AddressPool
  pool_disconnected pid banned p =
      if banned
      then elim (find_peer pid p.addresses) [
        | none ↦ p
        | some a ↦ record {
          table = store_address sip reparse now random network a 0 0 now p.table;
          addresses = remove_peer pid p.addresses;
        }
      ]
      else p

filter-All :
    (p : SocketAddr → Bool) (xs : List SocketAddr)
    → All (λ a. p a ≡ false) (filter (λ a. not (p a)) xs)
filter-All p [] = tt
filter-All p (x ∷ xs) = elim (Bool-cases (p x)) [
  | inl gone ↦ rw gone (filter-All p xs)
  | inr kept ↦ rw kept (kept, filter-All p xs)
]

get_or-All :
    (P : SocketAddr → Type 0) (xs : List SocketAddr) (i : ℕ) (a : SocketAddr)
    → All P xs
    → P a
    → P (get_or xs i a)
get_or-All P [] i a h k = k
get_or-All P (x ∷ xs) zero a h k = h.0
get_or-All P (x ∷ xs) (suc i) a h k = get_or-All P xs i a h.1 k

-- No address is drawn that is among those to leave out.
abbrev pub IsFresh : List SocketAddr → Option SocketAddr → Type 0
IsFresh tried none = Unit
IsFresh tried (some a) = is_in tried a ≡ false

pick-IsFresh :
    (tried : List SocketAddr) (random : ℕ) (xs : List SocketAddr)
    → All (λ a. is_in tried a ≡ false) xs
    → IsFresh tried (pick random xs)
unfolding pick
pick-IsFresh tried random [] h = tt
pick-IsFresh tried random (x ∷ xs) h = get_or-All _ (x ∷ xs) (random % length (x ∷ xs)) x h h.0

get_an_address-IsFresh :
    (order : (AddressRow → ℕ) → List AddressRow → List AddressRow) (sample now : ℕ)
    (network : List ℕ) (tried : List SocketAddr) (rows : List AddressRow)
    → IsFresh tried (get_an_address order sample now network tried rows)
unfolding get_an_address
get_an_address-IsFresh order sample now network tried rows =
    go (eligible order now network tried rows) all_fresh
  where
    all_fresh : All (λ a. is_in tried a ≡ false) (eligible order now network tried rows)
    all_fresh = unfold eligible in filter-All (is_in tried) _

    go :
        (xs : List SocketAddr)
        → All (λ a. is_in tried a ≡ false) xs
        → IsFresh tried (elim xs as (λ _. Option SocketAddr) [
          | [] ↦ none
          | a ∷ found ↦ some (get_or (a ∷ found) (min (length found) sample) a)
        ])
    go [] h = tt
    go (x ∷ xs) h = get_or-All _ (x ∷ xs) (min (length xs) sample) x h h.0

-- Whatever the network, the clock, the random numbers, the number of the connections and the order of
-- the rows: a peer that is added is none of
-- those that are connected and of those that were tried earlier.
pub keep_connected-IsFresh :
    (network : List ℕ) (order : (AddressRow → ℕ) → List AddressRow → List AddressRow)
    (sample random now min_connections n_connected : ℕ) (dns connected : List SocketAddr)
    (rows : List AddressRow) (earlier : List SocketAddr)
    → IsFresh
        (connected ++ earlier)
        (keep_connected network order sample random now min_connections n_connected dns connected
          rows earlier).0
unfolding keep_connected
keep_connected-IsFresh network order sample random now min_connections n_connected dns connected
      rows earlier =
    elim (Bool-cases (ltb n_connected min_connections)) [
      | inr enough ↦ rw enough tt
      | inl few ↦ rw few (
          go (get_an_address order sample now network (connected ++ earlier) rows)
            (get_an_address-IsFresh order sample now network (connected ++ earlier) rows))
    ]
  where
    tried : List SocketAddr
    tried = connected ++ earlier

    seeded :
        (p : Option SocketAddr)
        → IsFresh tried p
        → IsFresh tried
            (elim p as (λ _. Option SocketAddr × List SocketAddr) [
              | some choice ↦ (some choice, choice ∷ tried)
              | none ↦ (none, tried)
            ]).0
    seeded none h = tt
    seeded (some a) h = h

    go :
        (o : Option SocketAddr)
        → IsFresh tried o
        → IsFresh tried
            (elim o as (λ _. Option SocketAddr × List SocketAddr) [
              | some choice ↦ (some choice, choice ∷ tried)
              | none ↦ elim (pick random (untried dns tried)) [
                | some choice ↦ (some choice, choice ∷ tried)
                | none ↦ (none, tried)
              ]
            ]).0
    go none h = seeded (pick random (untried dns tried)) (
        pick-IsFresh tried random (untried dns tried)
          (unfold untried in filter-All (is_in tried) dns))
    go (some a) h = h
