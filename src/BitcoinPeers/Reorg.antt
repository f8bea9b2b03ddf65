-- ===== src/BitcoinPeers/Reorg.antt =====
-- The start of src/p2p_bitcoin.rs: a node that was down during a reorg comes back to the trunk.
use defiads.Prelude.{
  ℕ, zero, suc, ◌<◌, ◌≡◌, refl, sym, subst, arith, Bool, true, false, not, ◌||◌, filter, ◌==◌, ap,
  ◌∙◌, Bool-cases, Option, none, some, Option-cases, inl, inr, List, [], ◌∷◌, Run, ok, ◌>>=◌,
  Returns,
}
use defiads.World.{World}
use defiads.Trunk.{ChainDb}
use defiads.Store.Sync.{IsSynced}
use defiads.Contents.{Row, delete_confirmed}
use defiads.Store
use defiads.Store.Sync.{shrunk, deletion_eq, deletion-IsSynced, deletion_rows}
use defiads.BitcoinPeers.Driving.{IsKept, shrunk-IsKept}
use defiads.Wallet
use defiads.Wallet.{Bank}
use defiads.Outgoing.{store_processed}
use defiads.Ledger
use defiads.Ledger.{Ledger}
use defiads.BitcoinPeers.{walk_back, find_trunk, disconnect_all, catch_up}

module _ {w : World} (db : ChainDb w) where
  -- What murmel keeps: a header of height 0 is on the trunk, and the one before any other is cached,
  -- one lower.
  pub record IsLinked : Type 0 where
    pub genesis :
        (hash : ℕ) (header : w.Header)
        → db.get_header hash ≡ some (header, 0)
        → (n : ℕ) × (db.pos_on_trunk hash ≡ some n)
    pub before :
        (hash : ℕ) (header : w.Header) (height : ℕ)
        → db.get_header hash ≡ some (header, suc height)
        → (h : w.Header) × (db.get_header (w.prev_blockhash header) ≡ some (h, height))

  abbrev pub IsOnTrunk : ℕ → Type 0
  IsOnTrunk hash = (n : ℕ) × (db.pos_on_trunk hash ≡ some n)

  -- The headers of the blocks that lead from a block down to another: each is cached under its hash,
  -- is off the trunk, and is followed by the one before it.
  abbrev pub IsBranch : ℕ → List w.Header → ℕ → Type 0
  IsBranch hash [] end = hash ≡ end
  IsBranch hash (h ∷ hs) end =
      ((height : ℕ) × (db.get_header hash ≡ some (h, height)))
      × (db.pos_on_trunk hash ≡ none)
      × IsBranch (w.prev_blockhash h) hs end

module _ {w : World} (b : Bank w) where
  -- A row that one of some blocks confirmed.
  abbrev pub is_confirmed_by : List w.Header → Row w → Bool
  is_confirmed_by [] r = false
  is_confirmed_by (h ∷ left) r = r.block_id == w.bitcoin_hash h || is_confirmed_by left r

  -- The coins after blocks are taken back, in their order.
  abbrev pub coins_without : List w.Header → b.Coins → b.Coins
  coins_without [] coins = coins
  coins_without (h ∷ hs) coins = coins_without hs (b.unwind_tip (w.bitcoin_hash h) coins)

  -- The blocks of some headers are taken back: exactly the rows that they confirmed are gone, the
  -- coins are those without the blocks, the cached tables, and, if there are any, the sketch and the
  -- count of keys are still those of the rows. What was sent and published stays.
  pub record IsMadeUp (left : List w.Header) (l l' : Ledger b) : Type 0 where
    pub rows : l'.store.rows ≡ filter (λ r. not (is_confirmed_by left r)) l.store.rows
    pub coins : l'.wallet.coins ≡ coins_without left l.wallet.coins
    pub synced : IsSynced w l'.store
    pub kept : IsKept l.store → IsKept l'.store
    pub sent : l'.out.txouts ≡ l.out.txouts
    pub publications : l'.publications ≡ l.publications

  -- A ledger whose processed block is given, and whose tables are those of its rows.
  pub record IsAt (hash : ℕ) (l : Ledger b) : Type 0 where
    pub processed : l.out.processed ≡ some hash
    pub synced : IsSynced w l.store

  filter_all : (rows : List (Row w)) → rows ≡ filter (λ r. true) rows
  filter_all [] = refl
  filter_all (r ∷ rows) = ap (◌∷◌ r) (filter_all rows)

  filter_both :
      (p q : Row w → Bool) (rows : List (Row w))
      → filter (λ r. not (q r)) (filter (λ r. not (p r)) rows) ≡ filter (λ r. not (p r || q r)) rows
  filter_both p q [] = refl
  filter_both p q (r ∷ rows) = elim (Bool-cases (p r)) [
    | inl gone ↦ rw gone (filter_both p q rows)
    | inr here ↦ elim (Bool-cases (q r)) [
      | inl gone ↦ rw (here, gone) (filter_both p q rows)
      | inr stays ↦ rw (here, stays) (ap (◌∷◌ r) (filter_both p q rows))
    ]
  ]

  -- One block is taken back.
  abbrev IsUnwound : w.Header → Ledger b → Ledger b → Type 0
  IsUnwound header l l' =
      IsAt (w.prev_blockhash header) l'
      × (l'.store.rows ≡ filter (λ r. not (r.block_id == w.bitcoin_hash header)) l.store.rows)
      × (l'.wallet.coins ≡ b.unwind_tip (w.bitcoin_hash header) l.wallet.coins)
      × (IsKept l.store → IsKept l'.store)
      × (l'.out.txouts ≡ l.out.txouts)
      × (l'.publications ≡ l.publications)

  unwound :
      (header : w.Header) (l : Ledger b)
      → IsSynced w l.store
      → Returns (Ledger.unwind_tip b header l) (IsUnwound header l)
  unfolding Ledger.unwind_tip store_processed Store.unwind_tip delete_confirmed Wallet.unwind_tip
  unwound header l h =
      let p = λ (r : Row w). r.block_id == w.bitcoin_hash header in
      let is_kept : IsKept l.store → IsKept (shrunk w p l.store h) = shrunk-IsKept p l.store h in
      rw (deletion_eq w p l.store h) (
        _,
        refl,
        (
          record { processed = refl; synced = deletion-IsSynced w p l.store h },
          deletion_rows w p l.store h,
          refl,
          is_kept,
          refl,
          refl,
        ),
      )

  made_up :
      (header : w.Header) (left : List w.Header) (l l' l'' : Ledger b)
      → IsUnwound header l l'
      → IsMadeUp left l' l''
      → IsMadeUp (header ∷ left) l l''
  made_up header left l l' l'' (at, rows, coins, kept, sent, publications) m = record {
    rows =
        m.rows
        ∙ ap (filter (λ r. not (is_confirmed_by left r))) rows
        ∙ filter_both (λ r. r.block_id == w.bitcoin_hash header) (is_confirmed_by left)
            l.store.rows;
    coins = m.coins ∙ ap (coins_without left) coins;
    synced = m.synced;
    kept = λ k. m.kept (kept k);
    sent = m.sent ∙ sent;
    publications = m.publications ∙ publications;
  }

module _ {w : World} (b : Bank w) (db : ChainDb w) where
  -- From a header to the trunk: the walk ends on it, at the end of the headers that it leaves, and
  -- these take the ledger there.
  abbrev IsWalk : ℕ → List w.Header × ℕ → Type 0
  IsWalk hash r =
      IsOnTrunk db r.1
      × IsBranch db hash r.0 r.1
      × ((l : Ledger b)
          → IsAt b hash l
          → Returns (disconnect_all b db r.0 l)
              λ l'. (l'.out.processed ≡ some r.1) × IsMadeUp b r.0 l l')

  stays : (hash : ℕ) (l : Ledger b) → IsAt b hash l → IsMadeUp b [] l l
  stays hash l at = record {
    rows = filter_all b l.store.rows;
    coins = refl;
    synced = at.synced;
    kept = λ k. k;
    sent = refl;
    publications = refl;
  }

  arrived : (hash : ℕ) → IsOnTrunk db hash → IsWalk hash ([], hash)
  unfolding disconnect_all
  arrived hash on = (on, refl, λ l h. (l, refl, (h.processed, stays hash l h)))

  walk :
      (fuel height : ℕ) (header : w.Header) (hash : ℕ)
      → IsLinked db
      → db.get_header hash ≡ some (header, height)
      → height < fuel
      → Returns (walk_back db fuel header hash) (IsWalk hash)
  unfolding walk_back disconnect_all
  walk zero height header hash linked e small = absurd (omega (arith, small))
  walk (suc fuel) zero header hash linked e small =
      let (n, on) = linked.genesis hash header e in
      rw (walk_back, on) (([], hash), refl, arrived hash (n, on))
  walk (suc fuel) (suc height) header hash linked e small =
      elim (Option-cases (db.pos_on_trunk hash)) [
        | inr (n, on) ↦ rw (walk_back, on) (([], hash), refl, arrived hash (n, on))
        | inl off ↦
            let (h, found) = linked.before hash header height e in
            let r =
              walk fuel height h (w.prev_blockhash header) linked found (omega (arith, small)) in
            rw (walk_back, off, found, r.1)
              (
                (header ∷ r.0.0, r.0.1),
                refl,
                (
                  r.2.0,
                  ((suc height, e), off, r.2.1),
                  (λ l at_hash.
                      let u = unwound b header l at_hash.synced in
                      let rest = r.2.2 u.0 u.2.0 in
                      rw (disconnect_all, u.1, rest.1)
                        (_, refl, (rest.2.0, made_up b header r.0.0 l u.0 rest.0 u.2 rest.2.1))),
                ),
              )
      ]

  -- What a start ends at: a block on the trunk, the headers that lead there, and the ledger without
  -- their blocks.
  abbrev pub IsCaughtUp : ℕ → Ledger b → Option ℕ × Ledger b → Type 0
  IsCaughtUp processed l r =
      (end : ℕ) × (r.0 ≡ some end)
      × IsOnTrunk db end
      × (r.1.out.processed ≡ some end)
      × ((left : List w.Header) × IsBranch db processed left end × IsMadeUp b left l (r.1))

  -- Where a header of height 0 is on the trunk and the one before any other is cached, one lower, and
  -- the fuel is above the height of the block that was processed last: the start does not panic. It
  -- ends with a block on the trunk as the one processed last, which the block download begins at. The
  -- blocks from the one that was processed last down to it, all off the trunk, are taken back: exactly
  -- the rows that they confirmed are gone, the coins are those without them, the cached tables are
  -- those of the rows that are left, and so are the sketch and the count of keys if they were before
  -- and a table is cached; what was sent and published stays.
  pub catch_up-IsCaughtUp :
      (l : Ledger b) (processed fuel height : ℕ) (header : w.Header)
      → IsLinked db
      → IsAt b processed l
      → db.get_header processed ≡ some (header, height)
      → height < fuel
      → Returns (catch_up b db fuel l) (IsCaughtUp processed l)
  unfolding catch_up find_trunk
  catch_up-IsCaughtUp l processed fuel height header linked at_processed e small =
      let r = walk fuel height header processed linked e small in
      let d = r.2.2 l at_processed in
      subst
        (λ o.
          Returns
            (elim o as (λ _. Run (Option ℕ × Ledger b)) [
              | none ↦ ok (none, l)
              | some p ↦ find_trunk db fuel p >>= λ q.
                  disconnect_all b db (q.0) l >>= λ l'. ok (some (q.1), l')
            ])
            (IsCaughtUp processed l))
        (sym at_processed.processed)
        (rw (find_trunk, e, r.1, d.1) (_, refl, (r.0.1, refl, r.2.0, d.2.0, (r.0.0, r.2.1, d.2.1))))
