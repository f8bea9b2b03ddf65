-- ===== src/Discovery.antt =====
-- `Discovery` of src/discovery.rs: how peers exchange the addresses of other peers. A handler gives the
-- new state and what it does towards the peers and the timeouts. The clock, the random seed and the
-- random peer are arguments. A transaction of the database that is dropped without a commit is rolled
-- back, so that the handler of a connection leaves the table as it was. The maps by peer are lists of
-- pairs of which no two have one peer.
pub mod Bans
use defiads.Prelude.{
  ℕ, zero, suc, ◌+◌, ◌*◌, ◌-◌, ◌/◌, ◌%◌, ◌^◌, Bool, true, false, not, ◌&&◌, Option, none, some,
  List, [], ◌∷◌, map, ◌==◌, ltb, if◌then◌else◌, filter, Run, ok, panic, ◌>>=◌,
}
use defiads.World.{World}
use defiads.Keys.{NetAddress, net_address_key}
use defiads.Keys.Socket
use defiads.Keys.Socket.{SocketAddr, socket_address}
use defiads.Iblt
use defiads.Iblt.{Iblt, Entry, inserted, deleted, insert_all, substract}
use defiads.IbltIterator
use defiads.IbltIterator.{decode}
use defiads.Sketch.{Float, min_sketch, estimate_diff_size}
use defiads.Contents.{nh, key0, key1}
use defiads.Messages.{PollAddressMessage, Message, poll_address, address_iblt}
use defiads.Addresses.{AddressRow, Addresses, same_bytes, i64_less, u64_sub, store_address}

abbrev pub minimum_iblt_size : ℕ
minimum_iblt_size = 100

abbrev pub maximum_iblt_size : ℕ
maximum_iblt_size = 400

abbrev pub poll_frequency : ℕ
poll_frequency = 60

abbrev pub sketch_size : ℕ
sketch_size = 10

-- The bytes of "defiads" and of "bitcoin".
abbrev pub defiads_network : List ℕ
defiads_network = 100 ∷ 101 ∷ 102 ∷ 105 ∷ 97 ∷ 100 ∷ 115 ∷ []

abbrev pub bitcoin_network : List ℕ
bitcoin_network = 98 ∷ 105 ∷ 116 ∷ 99 ∷ 111 ∷ 105 ∷ 110 ∷ []

pub data Action (w : World) : Type 0 where
  send_network : ℕ → Message w → Action w
  expect_poll expect_iblt received_poll received_iblt : ℕ → Action w
  check : Action w

pub record Discovery : Type 0 where
  pub table : Addresses
  pub poll_asked : List (ℕ × PollAddressMessage)
  pub iblt_sent : List (ℕ × Iblt NetAddress)
  pub addresses : List (ℕ × SocketAddr)
  pub last_polled : ℕ

-- `HashMap::get` and `HashMap::remove`
unfoldable pub find_peer {ℓ} : {A : Type ℓ} → ℕ → List (ℕ × A) → Option A
find_peer pid [] = none
find_peer pid ((p, a) ∷ entries) = if pid == p then some a else find_peer pid entries

abbrev pub remove_peer {ℓ} : {A : Type ℓ} → ℕ → List (ℕ × A) → List (ℕ × A)
remove_peer pid = filter (λ e. not (pid == e.0))

-- `where network = ?1 and last_seen > ?2 and banned < ?2`
abbrev pub is_recent : ℕ → AddressRow → Bool
is_recent now r =
    same_bytes r.network defiads_network
    && (i64_less (u64_sub now 86400) r.last_seen && i64_less r.banned (u64_sub now 86400))

abbrev pub recent_keys : ℕ → List AddressRow → List NetAddress
recent_keys now rows = map (λ (r : AddressRow). Socket.new r.ip) (filter (is_recent now) rows)

-- One more round takes two more bits; one is enough.
unfoldable pub address_iblt_size : ℕ → ℕ
address_iblt_size diff =
    if ltb minimum_iblt_size diff then minimum_iblt_size * 4 else minimum_iblt_size

module _ (w : World) (float : Float) (reparse : SocketAddr → SocketAddr) where
  abbrev pub Step : Type 0
  Step = Run (List (Action w) × Discovery)

  unfoldable pub compute_address_iblt : ℕ → ℕ → List AddressRow → Run (Iblt NetAddress)
  compute_address_iblt now len rows =
      Iblt.new ⦃key = net_address_key w.sip⦄ w.sip len nh key0 key1 >>= λ t.
      insert_all ⦃key = net_address_key w.sip⦄ t (recent_keys now rows)

  unfoldable pub compute_address_sketch : ℕ → ℕ → List AddressRow → Run PollAddressMessage
  compute_address_sketch now len rows =
      min_sketch ⦃key = net_address_key w.sip⦄ w.sip len key0 key1 (recent_keys now rows) >>= λ r.
      ok (record { sketch = r.0; size = r.2 })

  -- `Discovery::poll_address`, and the end of a poll of a random peer.
  unfoldable pub ask : ℕ → ℕ → Discovery → Step
  ask now pid d = do
    poll ← compute_address_sketch now sketch_size d.table.rows
    ok (
      send_network pid (poll_address poll) ∷ expect_poll pid ∷ [],
      record d { poll_asked = (pid, poll) ∷ remove_peer pid d.poll_asked },
    )

  -- The row that `store_address` writes is rolled back.
  unfoldable pub on_connected : ℕ → ℕ → Option SocketAddr → Discovery → Step
  on_connected now pid addr d = ask now pid (record d {
    addresses = elim addr [ none ↦ d.addresses | some a ↦ (pid, a) ∷ remove_peer pid d.addresses ];
    last_polled = now;
  })

  unfoldable pub store_ban : ℕ → ℕ × ℕ → SocketAddr → Addresses → Addresses
  store_ban now random address t =
      store_address w.sip reparse now random bitcoin_network address 0 0 now t

  unfoldable pub on_disconnected : ℕ → ℕ × ℕ → ℕ → Bool → Discovery → Discovery
  on_disconnected now random pid banned d =
      let forgotten = record d {
        poll_asked = remove_peer pid d.poll_asked;
        iblt_sent = remove_peer pid d.iblt_sent;
      } in
      if banned
      then elim (find_peer pid d.addresses) [
        | none ↦ forgotten
        | some address ↦ record forgotten {
          table = store_ban now random address d.table;
          addresses = remove_peer pid d.addresses;
        }
      ]
      else forgotten

  -- A reply to our question.
  unfoldable pub compare_polls : ℕ → ℕ → PollAddressMessage → PollAddressMessage → Discovery → Step
  compare_polls now pid question poll d =
      estimate_diff_size float question.sketch question.size poll.sketch poll.size >>= λ estimated.
      let diff = estimated * 3 % 2 ^ 32 / 2 in
      if ltb 0 diff
      then (compute_address_iblt now (address_iblt_size diff) d.table.rows >>= λ t. ok (
        expect_iblt pid ∷ send_network pid (address_iblt t) ∷ [],
        record d { iblt_sent = (pid, t) ∷ remove_peer pid d.iblt_sent },
      ))
      else ok ([], d)

  unfoldable pub on_poll_address : ℕ → ℕ → PollAddressMessage → Discovery → Step
  on_poll_address now pid poll d = elim (find_peer pid d.poll_asked) [
    | none ↦ ask now pid d
    | some question ↦
        compare_polls now pid question poll (record d { poll_asked = remove_peer pid d.poll_asked })
        >>= λ r. ok (received_poll pid ∷ r.0, r.1)
  ]

  -- The loop over the entries that were decoded.
  unfoldable pub store_entries : ℕ → ℕ × ℕ → List (Entry NetAddress) → Addresses → Addresses
  store_entries now random [] t = t
  store_entries now random (deleted n ∷ es) t = store_entries now random es t
  store_entries now random (inserted n ∷ es) t =
      store_entries now random es (elim (socket_address n) [
        | none ↦ t
        | some a ↦ store_address w.sip reparse now random defiads_network a 0 now 0 t
      ])

  -- A table for which we sent none is decoded as it came. `none` means that the fuel ran out.
  unfoldable pub on_address_iblt :
      ℕ → ℕ → ℕ × ℕ → ℕ → Iblt NetAddress → Discovery → Run (Option (List (Action w) × Discovery))
  on_address_iblt fuel now random pid iblt d =
      elim (find_peer pid d.iblt_sent) [
        | none ↦ ok iblt
        | some sent ↦ substract ⦃key = net_address_key w.sip⦄ iblt sent
      ]
      >>= λ difference.
          decode ⦃key = net_address_key w.sip⦄ fuel
            (IbltIterator.new ⦃key = net_address_key w.sip⦄ difference)
          >>= λ found. ok (elim found [
            | none ↦ none
            | some f ↦ some (
              received_iblt pid ∷ [],
              record d {
                table = store_entries now random f.entries d.table;
                iblt_sent = remove_peer pid d.iblt_sent;
              },
            )
          ])

  -- What follows the messages of a second.
  unfoldable pub tick : ℕ → Option ℕ → Discovery → Step
  tick now chosen d =
      if ltb now d.last_polled
      then panic
      else (if ltb poll_frequency (now - d.last_polled)
          then elim chosen [
            | none ↦ compute_address_sketch now sketch_size d.table.rows >>= λ _.
                ok (check ∷ [], record d { last_polled = now })
            | some pid ↦ ask now pid (record d { last_polled = now }) >>= λ r. ok (check ∷ r.0, r.1)
          ]
          else ok (check ∷ [], d))
