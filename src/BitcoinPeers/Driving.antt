-- ===== src/BitcoinPeers/Driving.antt =====
-- `BitcoinDriver` of src/p2p_bitcoin.rs over the store: what a run of its calls keeps.
use defiads.Prelude.{
  ◌<◌, ℕ, ◌≡◌, refl, sym, Bool, subst, List, [], ◌∷◌, length, All, ◌==◌, Run, ok, ◌>>=◌, Returns,
}
use defiads.World.{World}
use defiads.Trunk.{Trunk}
use defiads.Contents.{Row, is_expired, delete_expired, delete_confirmed}
use defiads.Store
use defiads.Store.{Store}
use defiads.Store.Sync.{
  IsSynced, HasSketch, shrunk, deletion_eq, deletion-IsSynced, deletion-HasSketch, deletion-length,
}
use defiads.Wallet
use defiads.Wallet.{Bank}
use defiads.Outgoing.{store_processed}
use defiads.Outgoing.Unconfirmed.{IsWhole, pending}
use defiads.Outgoing.Confirmed.{IsProved}
use defiads.Ledger
use defiads.Ledger.{Ledger, newly_confirmed}
use defiads.Ledger.Connecting.{Extends, block_connected-publishes}
use defiads.BitcoinPeers.{ChainEvent, block_connected, header_connected, block_disconnected, drive}

-- A store of which the tables, at least one, the sketch and the count of keys are those of its rows.
pub record IsKept {w : World} (s : Store w) : Type 0 where
  pub synced : IsSynced w s
  pub sketch : HasSketch w s
  pub cached : 0 < length s.iblts

module _ {w : World} where
  pub shrunk-IsKept :
      (p : Row w → Bool) (s : Store w) (h : IsSynced w s) → IsKept s → IsKept (shrunk w p s h)
  shrunk-IsKept p s h k = record {
    synced = deletion-IsSynced w p s h;
    sketch = deletion-HasSketch w p s h k.cached k.sketch;
    cached = subst (λ n. 0 < n) (sym (deletion-length w p s h)) k.cached;
  }

  add_header-IsKept :
      (height : ℕ) (s : Store w) → IsKept s → Returns (Store.add_header w height s) IsKept
  unfolding Store.add_header delete_expired
  add_header-IsKept height s k =
      let p = is_expired w height in (_, deletion_eq w p s k.synced, shrunk-IsKept p s k.synced k)

  unwind_tip-IsKept :
      (header : w.Header) (s : Store w) → IsKept s → Returns (Store.unwind_tip w header s) IsKept
  unfolding Store.unwind_tip delete_confirmed
  unwind_tip-IsKept header s k =
      let p = λ (r : Row w). r.block_id == w.bitcoin_hash header in
      (_, deletion_eq w p s k.synced, shrunk-IsKept p s k.synced k)

module _ {w : World} (b : Bank w) (trunk : Trunk w) where
  -- The wallet has a proof of each of its confirmed coins.
  abbrev pub HasProofs : Wallet.Wallet b → Type 0
  HasProofs wal = All (IsProved b wal.coins) (b.confirmed wal.coins)

  -- What is relied on of the crate `bitcoin_wallet`: it keeps the proofs of the confirmed coins.
  pub record KeepsProofs : Type 0 where
    pub process :
        (block : b.Block) (wal : Wallet.Wallet b)
        → HasProofs wal
        → HasProofs (Wallet.process b block wal).1
    pub unwind_tip :
        (block_hash : ℕ) (wal : Wallet.Wallet b)
        → HasProofs wal
        → HasProofs (Wallet.unwind_tip b block_hash wal)

  pub record IsSteady (l : Ledger b) : Type 0 where
    pub kept : IsKept l.store
    pub whole : All (IsWhole b) l.out.txouts
    pub proved : HasProofs l.wallet

  -- Each known ad that a block pays is refused or accepted.
  abbrev pub IsAllowed : ChainEvent b trunk → Ledger b → Type 0
  IsAllowed (block_connected block) l =
      (rows : List (Row w)) × Extends b trunk block
        (newly_confirmed b block l.publications (pending b l.out.txouts)) l.store.rows rows
  IsAllowed (header_connected height) l = Unit
  IsAllowed (block_disconnected header) l = Unit

  -- Every event of a run is allowed where it comes.
  abbrev pub AreAllowed : List (ChainEvent b trunk) → Ledger b → Type 0
  AreAllowed [] l = Unit
  AreAllowed (e ∷ es) l =
      IsAllowed e l × ((l' : Ledger b) → drive b trunk e l ≡ ok l' → AreAllowed es l')

  -- The calls of the driver in their order.
  abbrev pub drive_all : List (ChainEvent b trunk) → Ledger b → Run (Ledger b)
  drive_all [] l = ok l
  drive_all (e ∷ es) l = drive b trunk e l >>= λ l'. drive_all es l'

  drive-IsSteady :
      KeepsProofs
      → (e : ChainEvent b trunk) (l : Ledger b) → IsAllowed e l
      → IsSteady l
      → Returns (drive b trunk e l) IsSteady
  unfolding drive Ledger.unwind_tip store_processed
  drive-IsSteady keeps (block_connected block) l (rows, publishes) k =
      let r =
        block_connected-publishes b trunk block l rows k.whole
          (keeps.process block l.wallet k.proved) publishes k.kept.synced k.kept.sketch in
      (
        r.0,
        r.1,
        record {
          kept = record {
            synced = r.2.1;
            sketch = r.2.2;
            cached = subst (λ n. 0 < n) (sym r.2.3) k.kept.cached;
          };
          whole = r.2.5;
          proved = subst HasProofs (sym r.2.6) (keeps.process block l.wallet k.proved);
        },
      )
  drive-IsSteady keeps (header_connected height) l allowed k =
      let r = add_header-IsKept height l.store k.kept in
      rw r.1 (_, refl, record { kept = r.2; whole = k.whole; proved = k.proved })
  drive-IsSteady keeps (block_disconnected header) l allowed k =
      let r = unwind_tip-IsKept header l.store k.kept in
      let proved = keeps.unwind_tip (w.bitcoin_hash header) l.wallet k.proved in
      rw r.1 (_, refl, record { kept = r.2; whole = k.whole; proved = proved })

  -- Where the wallet keeps the proofs of its confirmed coins, a run of blocks, headers and
  -- disconnections in any order does not panic, if each block comes at a point where each known ad
  -- that it pays is refused by the guards or accepted. From a store of which the tables, at least one,
  -- the sketch and the count of keys are those of its rows, whole rows of sent transactions and a
  -- proof of each confirmed coin, it reaches such a store, such rows and such coins again.
  pub drive_all-IsSteady :
      KeepsProofs
      → (es : List (ChainEvent b trunk)) (l : Ledger b) → AreAllowed es l
      → IsSteady l
      → Returns (drive_all es l) IsSteady
  drive_all-IsSteady keeps [] l allowed k = (l, refl, k)
  drive_all-IsSteady keeps (e ∷ es) l allowed k =
      let r = drive-IsSteady keeps e l allowed.0 k in
      let rest = drive_all-IsSteady keeps es (r.0) (allowed.1 r.0 r.1) r.2 in rw r.1 rest
