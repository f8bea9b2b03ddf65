-- ===== src/Tests/Drives.antt =====
-- A run of the driver of the bitcoin chain: a block that publishes an ad, a header, a disconnection.
use defiads.Prelude.{
  ◌≡◌, refl, arith, Bool, true, false, if◌then◌else◌, All-map, Option, some, List, [], ◌∷◌, Returns,
}
use defiads.Store.{Store}
use defiads.Wallet
use defiads.Store.Sync.{compute-eq-sketch_of}
use defiads.Store.Tables.{table, compute-eq-table}
use defiads.Ledger.{Ledger}
use defiads.BitcoinPeers.{ChainEvent, block_connected, header_connected, block_disconnected}
use defiads.BitcoinPeers.Driving.{
  IsKept, KeepsProofs, IsSteady, AreAllowed, drive_all, drive_all-IsSteady,
}
use defiads.Tests.Stores.{world, trunk, empty}
use defiads.Tests.Wallets.{bank, paid}
use defiads.Tests.Ledgers.{waiting, published, publishes_one, sent_row-IsWhole}

-- The store with a table of 7 buckets of its no rows.
abbrev cached : Store world
cached = record empty { iblts = (7, table world 7 []) ∷ [] }

cached-IsKept : IsKept cached
cached-IsKept = record {
  synced = record {
    tables = ((omega arith, compute-eq-table world 7 [] (omega arith)), tt);
    unique = tt;
  };
  sketch = compute-eq-sketch_of world [];
  cached = omega arith;
}

abbrev begin : Ledger bank
begin = record waiting { store = cached }

begin-IsSteady : IsSteady bank trunk begin
begin-IsSteady = record { kept = cached-IsKept; whole = sent_row-IsWhole; proved = ((_, refl), tt) }

still_some :
    {A : Type 0} (first : Bool) (a p : A) (o : Option A)
    → o ≡ some p
    → (q : A) × ((if first then some a else o) ≡ some q)
still_some true a p o e = (a, refl)
still_some false a p o e = (p, e)

bank-KeepsProofs : KeepsProofs bank trunk
unfolding Wallet.unwind_tip Wallet.process
bank-KeepsProofs = record {
  process = λ block wal h. All-map (wal.coins.0) (λ c proof. still_some _ _ proof.0 _ proof.1) h;
  unwind_tip = λ block_hash wal h. h;
}

abbrev events : List (ChainEvent bank trunk)
events = block_connected (paid ∷ []) ∷ header_connected 105 ∷ block_disconnected (9, 7) ∷ []

events_allowed : AreAllowed bank trunk events begin
events_allowed = ((published ∷ [], publishes_one), λ l e. (tt, λ l' e'. (tt, λ l'' e''. tt)))

drive_all-IsSteady_example : Returns (drive_all bank trunk events begin) (IsSteady bank trunk)
drive_all-IsSteady_example =
    drive_all-IsSteady bank trunk bank-KeepsProofs events begin events_allowed begin-IsSteady
