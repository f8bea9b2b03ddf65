-- ===== src/Tests/Discoveries.antt =====
-- A peer that is banned, and a node with one peer that wants more.
use defiads.Prelude.{[], ◌∷◌}
use defiads.Discovery.{Discovery, defiads_network}
use defiads.Connections.{IsFresh, keep_connected, keep_connected-IsFresh}
use defiads.Tests.Peers.{friend, rival, addresses}

abbrev discovery : Discovery
discovery = record {
  table = addresses;
  poll_asked = [];
  iblt_sent = [];
  addresses = (4, friend) ∷ [];
  last_polled = 0;
}

keep_connected-IsFresh_example :
    IsFresh
      (friend ∷ [])
      (keep_connected defiads_network
        (λ f rows. rows)
        0
        7
        1000200
        3
        1
        (friend ∷ rival ∷ [])
        (friend ∷ [])
        addresses.rows
        []).0
keep_connected-IsFresh_example =
    keep_connected-IsFresh defiads_network (λ f rows. rows) 0 7 1000200 3 1 (friend ∷ rival ∷ [])
      (friend ∷ []) addresses.rows []
