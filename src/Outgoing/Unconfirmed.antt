-- ===== src/Outgoing/Unconfirmed.antt =====
-- The table `txout`: what is unconfirmed. The rows promise a list of the transactions that were sent
-- and are not confirmed, each with the funding that it is for, and the operations change that list.
use defiads.Prelude.{
  ℕ, ◌≡◌, refl, ap, subst, ◌∙◌, Bool, not, Option, none, some, inl, inr, List, [], ◌∷◌, map, filter,
  All, Bool-cases, ok, ◌==◌, Returns,
}
use mathlib.Core.List.{Permᴰ}
use mathlib.Core.List.Permᴰ
use defiads.Prelude.Perms.{All_perm, filter_perm}
use defiads.World.{World}
use defiads.Keys.{ContentKey}
use defiads.Wallet.{Tx, Bank}
use defiads.Outgoing.{
  TxOutRow, Funding, txout_row, store_txout, is_unconfirmed, read_funding, read_txouts,
  read_unconfirmed, confirm,
}

-- A transaction that was sent, and what it funds.
abbrev pub Sent : World → Type 0
Sent w = Tx w × Option (Funding w)

module _ {w : World} (b : Bank w) where
  abbrev pub funding_of : Option w.PublicKey → Option ContentKey → Option ℕ → Option (Funding w)
  funding_of (some publisher) (some id) (some term) = some (publisher, id, term)
  funding_of _ _ _ = none

  abbrev pub entry : TxOutRow w → Sent w
  entry r = (r.tx, funding_of r.publisher r.id r.term)

  -- A row is named by its transaction, and with a publisher it has an id and a term.
  pub record IsWhole (r : TxOutRow w) : Type 0 where
    pub named : r.txid ≡ b.txid r.tx
    pub funded : read_funding b r.publisher r.id r.term ≡ ok (funding_of r.publisher r.id r.term)

  -- The transactions that are sent and not confirmed: what the table stands for.
  abbrev pub pending : List (TxOutRow w) → List (Sent w)
  pending rows = map entry (filter (is_unconfirmed b) rows)

  read-eq-map :
      (rows : List (TxOutRow w)) → All IsWhole rows → read_txouts b rows ≡ ok (map entry rows)
  unfolding read_txouts
  read-eq-map [] h = refl
  read-eq-map (r ∷ rows) h = rw (h.0.funded, read-eq-map rows h.1)

  pub filter-IsWhole :
      (p : TxOutRow w → Bool) (rows : List (TxOutRow w))
      → All IsWhole rows
      → All IsWhole (filter p rows)
  filter-IsWhole p [] h = tt
  filter-IsWhole p (r ∷ rows) h = elim (Bool-cases (p r)) [
    | inl e ↦ rw e (h.0, filter-IsWhole p rows h.1)
    | inr e ↦ rw e (filter-IsWhole p rows h.1)
  ]

  pub read-eq-pending :
      (rows : List (TxOutRow w)) → All IsWhole rows → read_unconfirmed b rows ≡ ok (pending rows)
  unfolding read_unconfirmed
  read-eq-pending rows h =
      read-eq-map (filter (is_unconfirmed b) rows) (filter-IsWhole (is_unconfirmed b) rows h)

  -- The transactions but for one.
  abbrev pub without : ℕ → List (Sent w) → List (Sent w)
  without txid = filter λ s. not (b.txid s.0 == txid)

  row-IsWhole : (tx : Tx w) (funding : Option (Funding w)) → IsWhole (txout_row b tx funding)
  unfolding txout_row read_funding
  row-IsWhole tx none = record { named = refl; funded = refl }
  row-IsWhole tx (some (publisher, id, term)) = record { named = refl; funded = refl }

  row_entry :
      (tx : Tx w) (funding : Option (Funding w)) (rows : List (TxOutRow w))
      → pending (txout_row b tx funding ∷ rows) ≡ (tx, funding) ∷ pending rows
  unfolding txout_row
  row_entry tx none rows = refl
  row_entry tx (some (publisher, id, term)) rows = refl

  pending-filter :
      (txid : ℕ) (rows : List (TxOutRow w))
      → All IsWhole rows
      → pending (filter (λ r. not (r.txid == txid)) rows) ≡ without txid (pending rows)
  pending-filter txid [] h = refl
  pending-filter txid (r ∷ rows) h =
      let rest = pending-filter txid rows h.1 in
      let same : (r.txid == txid) ≡ (b.txid r.tx == txid) = ap (λ n. n == txid) h.0.named in
      elim (Bool-cases (is_unconfirmed b r)) [
        | inl u ↦ elim (Bool-cases (b.txid r.tx == txid)) [
          | inl e ↦ rw (same ∙ e, u, e) rest
          | inr e ↦ rw (same ∙ e, u, e) (ap (◌∷◌ (entry r)) rest)
        ]
        | inr u ↦ elim (Bool-cases (r.txid == txid)) [
          | inl e ↦ rw (e, u) rest
          | inr e ↦ rw (e, u) rest
        ]
      ]

  pub confirm-IsWhole :
      (block txid : ℕ) (rows : List (TxOutRow w))
      → All IsWhole rows
      → All IsWhole (confirm b block txid rows)
  unfolding confirm
  confirm-IsWhole block txid [] h = tt
  confirm-IsWhole block txid (r ∷ rows) h = elim (Bool-cases (r.txid == txid)) [
    | inl e ↦
        rw e
          (record { named = h.0.named; funded = h.0.funded }, confirm-IsWhole block txid rows h.1)
    | inr e ↦ rw e (h.0, confirm-IsWhole block txid rows h.1)
  ]

  pub pending-confirm :
      (block txid : ℕ) (rows : List (TxOutRow w))
      → All IsWhole rows
      → pending (confirm b block txid rows) ≡ without txid (pending rows)
  unfolding confirm
  pending-confirm block txid [] h = refl
  pending-confirm block txid (r ∷ rows) h =
      let rest = pending-confirm block txid rows h.1 in
      let same : (r.txid == txid) ≡ (b.txid r.tx == txid) = ap (λ n. n == txid) h.0.named in
      elim (Bool-cases (is_unconfirmed b r)) [
        | inl u ↦ elim (Bool-cases (b.txid r.tx == txid)) [
          | inl e ↦ rw (same ∙ e, u, e) rest
          | inr e ↦ rw (same ∙ e, u, e) (ap (◌∷◌ (entry r)) rest)
        ]
        | inr u ↦ elim (Bool-cases (r.txid == txid)) [
          | inl e ↦ rw (e, u) rest
          | inr e ↦ rw (e, u) rest
        ]
      ]

  store_txout-IsWhole :
      (tx : Tx w) (funding : Option (Funding w)) (rows : List (TxOutRow w))
      → All IsWhole rows
      → All IsWhole (store_txout b tx funding rows)
  unfolding store_txout
  store_txout-IsWhole tx funding rows h =
      (row-IsWhole tx funding, filter-IsWhole (λ r. not (r.txid == b.txid tx)) rows h)

  pending-store_txout :
      (tx : Tx w) (funding : Option (Funding w)) (rows : List (TxOutRow w))
      → All IsWhole rows
      → pending (store_txout b tx funding rows) ≡ (tx, funding) ∷ without (b.txid tx) (pending rows)
  unfolding store_txout
  pending-store_txout tx funding rows h =
      row_entry tx funding (filter (λ r. not (r.txid == b.txid tx)) rows)
      ∙ ap (◌∷◌ (tx, funding)) (pending-filter (b.txid tx) rows h)

  -- In the order of the model, which puts a row that is stored first.
  pub read-store_txout :
      (tx : Tx w) (funding : Option (Funding w)) (rows : List (TxOutRow w))
      → All IsWhole rows
      → Returns (read_unconfirmed b rows) λ before.
        (read_unconfirmed b (store_txout b tx funding rows)
          ≡ ok ((tx, funding) ∷ without (b.txid tx) before))
        × All IsWhole (store_txout b tx funding rows)
  read-store_txout tx funding rows h =
      let whole = store_txout-IsWhole tx funding rows h in
      (
        pending rows,
        read-eq-pending rows h,
        (
          read-eq-pending (store_txout b tx funding rows) whole
              ∙ ap ok (pending-store_txout tx funding rows h),
          whole,
        ),
      )

  -- Over rows that are whole, and whatever the order in which the database reads them: what is read
  -- after a transaction was stored is that transaction, with what it funds, and the others that were
  -- unconfirmed before, each once, in some order. Nothing panics, and the rows are whole.
  pub read-store_txout_perm :
      (tx : Tx w) (funding : Option (Funding w)) (rows read : List (TxOutRow w))
      → All IsWhole rows
      → Permᴰ read (store_txout b tx funding rows)
      → Returns (read_unconfirmed b rows) λ before.
        Returns
          (read_unconfirmed b read)
          λ after. Permᴰ after ((tx, funding) ∷ without (b.txid tx) before) × All IsWhole read
  read-store_txout_perm tx funding rows read h order =
      let whole = store_txout-IsWhole tx funding rows h in
      let all : All IsWhole read = All_perm IsWhole (Permᴰ.symm order) whole in
      (
        pending rows,
        read-eq-pending rows h,
        (
          pending read,
          read-eq-pending read all,
          (
            subst (Permᴰ (pending read)) (pending-store_txout tx funding rows h)
                (Permᴰ.map entry (filter_perm (is_unconfirmed b) order)),
            all,
          ),
        ),
      )
