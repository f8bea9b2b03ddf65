-- ===== src/Ledger/Connecting.antt =====
-- `block_connected` of src/store.rs: a block publishes the ads whose payments it holds.
use defiads.Prelude.{
  ℕ, ◌≡◌, refl, sym, ap, ◌∙◌, Bool, true, false, some, List, [], ◌∷◌, filter, not, All, ◌==◌, Run,
  ok, Returns, ok_injective, length, none, subst, inl, inr, ◌⊎◌,
}
use defiads.Ad.{Ad}
use defiads.Text.{as_string}
use defiads.World.{World}
use defiads.Trunk.{Trunk}
use defiads.Contents.{Content, Row, digest, content_length, row_of}
use defiads.Store.{Store, admissible, add_content}
use defiads.Store.Sync.{IsSynced, HasSketch}
use defiads.Store.Adding.{IsNew, add_content-IsSynced}
use defiads.Wallet
use defiads.Wallet.{Tx, Bank}
use defiads.Outgoing.{Outgoing, read_unconfirmed, store_coins, store_processed}
use defiads.Outgoing.Unconfirmed.{Sent, IsWhole, pending, read-eq-pending}
use defiads.Outgoing.Confirmed.{IsProved, has_proof, store_coins-pending}
use defiads.Ledger.{Ledger, Confirmed, newly_confirmed, publish, block_connected}

module _ {w : World} (b : Bank w) (trunk : Trunk w) (block : b.Block) where
  -- The wallet's part of `block_connected`.
  abbrev settled_out : Bool → b.Coins → Outgoing b → Run (Outgoing b)
  settled_out true coins out = store_coins b coins out
  settled_out false coins out = ok out

  -- The table after the wallet saw the block.
  abbrev pub IsLeft : Bool → b.Coins → List (Sent w) → Outgoing b → Type 0
  IsLeft true coins before out =
      read_unconfirmed b out.txouts
      ≡ ok (filter (λ s. not (has_proof b (b.all_proofs coins) (b.txid s.0))) before)
  IsLeft false coins before out = read_unconfirmed b out.txouts ≡ ok before

  settled_out-IsLeft :
      (relevant : Bool) (coins : b.Coins) (out : Outgoing b)
      → All (IsWhole b) out.txouts
      → All (IsProved b coins) (b.confirmed coins)
      → Returns
          (settled_out relevant coins out)
          λ out'. IsLeft relevant coins (pending b out.txouts) out' × All (IsWhole b) out'.txouts
  settled_out-IsLeft false coins out whole proved =
      (out, refl, (read-eq-pending b out.txouts whole, whole))
  settled_out-IsLeft true coins out whole proved =
      let (out', e, (before, p, (q, r))) = store_coins-pending b coins out whole proved in
      let same : before ≡ pending b out.txouts =
        ok_injective (sym p ∙ read-eq-pending b out.txouts whole) in
      (
        out',
        e,
        (
          q
              ∙ ap
                  (λ sent.
                    ok (filter (λ s. not (has_proof b (b.all_proofs coins) (b.txid s.0))) sent))
                  same,
          r,
        ),
      )

  add_content_refused :
      (c : Content w) (s : Store w)
      → admissible w trunk c ≡ none
      → add_content w trunk c s ≡ ok (false, s)
  unfolding add_content
  add_content_refused c s refused = rw (add_content, refused) refl

  settled_out_eq :
      (relevant : Bool) (coins : b.Coins) (out : Outgoing b)
      → elim relevant as (λ _. Run (Outgoing b)) [ true ↦ store_coins b coins out | false ↦ ok out ]
        ≡ settled_out relevant coins out
  settled_out_eq true coins out = refl
  settled_out_eq false coins out = refl

  abbrev pub content_of : ℕ → w.PublicKey → Ad w.codec → ℕ → Content w
  content_of tix funder ad term = record {
    funding = b.prove block tix;
    ad = ad;
    funder = funder;
    term = term;
  }

  -- An ad that is added to rows: it passes the guards, decodes, is not empty and is new.
  pub record IsAccepted (c : Content w) (rows : List (Row w)) : Type 0 where
    pub height : ℕ
    pub header : w.Header
    pub value : ℕ
    pub text : w.codec.Str
    pub admits : admissible w trunk c ≡ some (height, header, value)
    pub decodes : as_string w.codec c.ad.content ≡ ok (some text)
    pub nonempty : (content_length w c == 0) ≡ false
    pub fresh : IsNew w (digest w c.ad) rows

  -- The rows after the confirmed publications: one that is unknown or that the guards refuse adds
  -- nothing, one that is accepted adds its row.
  abbrev pub Extends : List (Confirmed b) → List (Row w) → List (Row w) → Type 0
  Extends [] rows rows' = rows ≡ rows'
  Extends ((tix, funder, none, term) ∷ cs) rows rows' = Extends cs rows rows'
  Extends ((tix, funder, some ad, term) ∷ cs) rows rows' =
      ((admissible w trunk (content_of tix funder ad term) ≡ none) × Extends cs rows rows')
      ⊎ ((a : IsAccepted (content_of tix funder ad term) rows) × Extends cs
            (row_of w (a.height) (w.bitcoin_hash a.header) (content_of tix funder ad term) (a.value)
                (a.text)
              ∷ rows)
            rows')

  publish-Extends :
      (cs : List (Confirmed b)) (s : Store w) (rows : List (Row w))
      → Extends cs s.rows rows
      → IsSynced w s
      → HasSketch w s
      → Returns (publish b trunk block cs s) λ s'.
        (s'.rows ≡ rows) × IsSynced w s' × HasSketch w s' × (length s'.iblts ≡ length s.iblts)
  unfolding publish
  publish-Extends [] s rows p synced sketch = (s, refl, (p, synced, sketch, refl))
  publish-Extends ((tix, funder, none, term) ∷ cs) s rows p synced sketch =
      publish-Extends cs s rows p synced sketch
  publish-Extends ((tix, funder, some ad, term) ∷ cs) s rows (inl (refused, p)) synced sketch =
      rw (add_content_refused (content_of tix funder ad term) s refused)
        (publish-Extends cs s rows p synced sketch)
  publish-Extends ((tix, funder, some ad, term) ∷ cs) s rows (inr (a, p)) synced sketch =
      let added =
        add_content-IsSynced w trunk (content_of tix funder ad term) s (a.height) (a.header)
          (a.value) (a.text) (a.admits) (a.decodes) (a.nonempty) (a.fresh) synced sketch in
      let rest =
        publish-Extends cs (added.0.1) rows
          (subst (λ before. Extends cs before rows) (sym added.2.1) p) (added.2.2) (added.2.3) in
      rw added.1 (rest.0, rest.1, (rest.2.0, rest.2.1, rest.2.2, rest.2.3 ∙ added.2.4))

  pub block_connected-publishes :
      (l : Ledger b) (rows : List (Row w))
      → All (IsWhole b) l.out.txouts
      → All
          (IsProved b (Wallet.process b block l.wallet).1.coins)
          (b.confirmed (Wallet.process b block l.wallet).1.coins)
      → Extends (newly_confirmed b block l.publications (pending b l.out.txouts)) l.store.rows rows
      → IsSynced w l.store
      → HasSketch w l.store
      → Returns (block_connected b trunk block l) λ l'.
        (l'.store.rows ≡ rows)
        × IsSynced w l'.store
        × HasSketch w l'.store
        × (length l'.store.iblts ≡ length l.store.iblts)
        × IsLeft
            (Wallet.process b block l.wallet).0
            (Wallet.process b block l.wallet).1.coins
            (pending b l.out.txouts)
            l'.out
        × All (IsWhole b) l'.out.txouts
        × (l'.wallet ≡ (Wallet.process b block l.wallet).1)
        × (l'.out.processed ≡ some (w.bitcoin_hash (b.header block)))
  unfolding block_connected store_processed
  block_connected-publishes l rows whole proved publishes synced sketch =
      let wal = Wallet.process b block l.wallet in
      let left = settled_out-IsLeft wal.0 wal.1.coins l.out whole proved in
      let added =
        publish-Extends (newly_confirmed b block l.publications (pending b l.out.txouts)) l.store
          rows publishes synced sketch in
      rw
        (
          block_connected,
          read-eq-pending b l.out.txouts whole,
          settled_out_eq wal.0 wal.1.coins l.out ∙ left.1,
          added.1,
        )
        (
          _,
          refl,
          (
            added.2.0,
            added.2.1,
            added.2.2,
            added.2.3,
            kept wal.0 wal.1.coins left.0 left.2.0,
            left.2.1,
            refl,
            refl,
          ),
        )
    where
      kept :
          (relevant : Bool) (coins : b.Coins) (out : Outgoing b)
          → IsLeft relevant coins (pending b l.out.txouts) out
          → IsLeft relevant coins
              (pending b l.out.txouts)
              (store_processed b (w.bitcoin_hash (b.header block)) out)
      kept true coins out h = h
      kept false coins out h = h
