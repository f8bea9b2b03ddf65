-- ===== src/SendTx/Answers.antt =====
-- src/sendtx.rs: the answers to requests for transactions.
use defiads.Prelude.{
  ℕ, ◌≡◌, refl, sym, true, Option-cases, List, [], ◌∷◌, ◌++◌, ◌==◌, ==_iff, inl, inr, contains, All,
  All-map, Bool-cases, Run, ok, ◌>>=◌, Returns,
}
use defiads.World.{World}
use defiads.Wallet.{Bank}
use defiads.Outgoing.{TxOutRow, read_unconfirmed}
use defiads.Outgoing.Unconfirmed.{Sent, IsWhole, pending, read-eq-pending}
use defiads.SendTx.{
  Inventory, TxCache, tx, inv, get_data, Action, send, send_random, tx_hashes, serve_cached,
  serve_own, on_get_data, IsNamed,
}

module _ {w : World} (b : Bank w) (lru : TxCache w) (pid : ℕ) where
  -- What is sent is a transaction, to the peer, and one of those that are asked for.
  abbrev pub IsAnswer : List ℕ → Action w → Type 0
  IsAnswer hashes (send p (tx t)) = (p ≡ pid) × (contains hashes (b.txid t) ≡ true)
  IsAnswer hashes (send p (inv is)) = ⊥
  IsAnswer hashes (send p (get_data is)) = ⊥
  IsAnswer hashes (send_random n) = ⊥

  asks_more : (h : ℕ) (hashes : List ℕ) (a : Action w) → IsAnswer hashes a → IsAnswer (h ∷ hashes) a
  asks_more h hashes (send p (tx t)) (e, f) = elim (Bool-cases (b.txid t == h)) [
    | inl same ↦ (e, rw same refl)
    | inr differs ↦ (e, rw differs f)
  ]
  asks_more h hashes (send p (inv is)) e = e
  asks_more h hashes (send p (get_data is)) e = e
  asks_more h hashes (send_random n) e = e

  All-append :
      (P : Action w → Type 0) (xs ys : List (Action w)) → All P xs → All P ys → All P (xs ++ ys)
  All-append P [] ys h k = k
  All-append P (x ∷ xs) ys h k = (h.0, All-append P xs ys h.1 k)

  -- The hashes that are not cached are some of the hashes.
  abbrev IsPart : List ℕ → List ℕ → Type 0
  IsPart part hashes = (h : ℕ) → contains part h ≡ true → contains hashes h ≡ true

  abbrev IsServed : List ℕ → List (Action w) × List ℕ × lru.Cache → Type 0
  IsServed hashes (actions, missing, c) =
      All (IsAnswer hashes) actions × IsPart missing hashes × IsNamed b lru c

  cached-IsAnswer :
      (hashes : List ℕ) (c : lru.Cache)
      → IsNamed b lru c
      → IsServed hashes (serve_cached b lru pid hashes c)
  unfolding serve_cached
  cached-IsAnswer [] c named = (tt, (λ h e. e), named)
  cached-IsAnswer (h ∷ hashes) c named = elim (Option-cases (lru.get_mut h c)) [
    | inr ((t, c'), e) ↦
        let found = lru.get_mut-All (λ x. x.0 ≡ b.txid x.1) h c c' t e named in
        let (answers, part, kept) = cached-IsAnswer hashes c' found.1 in
        let asked : contains (h ∷ hashes) (b.txid t) ≡ true =
          rw ((==_iff (b.txid t) h).1 (sym found.0)) refl in
        rw (serve_cached, e)
          (
            (
              (refl, asked),
              All-map (serve_cached b lru pid hashes c').0 (asks_more h hashes) answers,
            ),
            (λ n p. elim (Bool-cases (n == h)) [
              | inl same ↦ rw same refl
              | inr differs ↦ rw differs (part n p)
            ]),
            kept,
          )
    | inl e ↦
        let (answers, part, kept) = cached-IsAnswer hashes c named in
        rw (serve_cached, e)
          (
            All-map (serve_cached b lru pid hashes c).0 (asks_more h hashes) answers,
            (λ n p. elim (Bool-cases (n == h)) [
              | inl same ↦ rw same refl
              | inr differs ↦ rw differs (part n (rw differs at p))
            ]),
            kept,
          )
  ]

  own-IsAnswer :
      (part hashes : List ℕ) (sent : List (Sent w))
      → IsPart part hashes
      → All (IsAnswer hashes) (serve_own b lru pid part sent)
  unfolding serve_own
  own-IsAnswer part hashes [] h = tt
  own-IsAnswer part hashes (s ∷ sent) h = elim (Bool-cases (contains part (b.txid s.0))) [
    | inl asked ↦ rw asked ((refl, h (b.txid s.0) asked), own-IsAnswer part hashes sent h)
    | inr unasked ↦ rw unasked (own-IsAnswer part hashes sent h)
  ]

  -- Over a cache that names transactions by their ids and rows that are whole: a request for
  -- transactions is answered without a panic, with transactions that the peer asked for and with
  -- nothing else, sent to that peer, and the cache names them so still.
  pub on_get_data-IsAnswer :
      (is : List Inventory) (rows : List (TxOutRow w)) (c : lru.Cache)
      → IsNamed b lru c
      → All (IsWhole b) rows
      → Returns
          (on_get_data b lru pid is rows c)
          λ r. All (IsAnswer (tx_hashes b lru is)) r.0 × IsNamed b lru r.1
  unfolding on_get_data
  on_get_data-IsAnswer is rows c named whole =
      let hashes = tx_hashes b lru is in
      let (answers, part, kept) = cached-IsAnswer hashes c named in
      finish (serve_cached b lru pid hashes c).1 part answers kept
    where
      finish :
          (missing : List ℕ)
          → IsPart missing (tx_hashes b lru is)
          → All (IsAnswer (tx_hashes b lru is)) (serve_cached b lru pid (tx_hashes b lru is) c).0
          → IsNamed b lru (serve_cached b lru pid (tx_hashes b lru is) c).2
          → Returns
              (elim missing as (λ _. Run (List (Action w) × lru.Cache)) [
                | [] ↦ ok (
                  (serve_cached b lru pid (tx_hashes b lru is) c).0,
                  (serve_cached b lru pid (tx_hashes b lru is) c).2,
                )
                | h ∷ more ↦ read_unconfirmed b rows >>= λ sent. ok (
                  (serve_cached b lru pid (tx_hashes b lru is) c).0
                      ++ serve_own b lru pid (h ∷ more) sent,
                  (serve_cached b lru pid (tx_hashes b lru is) c).2,
                )
              ])
              λ r. All (IsAnswer (tx_hashes b lru is)) r.0 × IsNamed b lru r.1
      finish [] part answers kept = (_, refl, (answers, kept))
      finish (h ∷ more) part answers kept = rw (read-eq-pending b rows whole) (
        _,
        refl,
        (
          All-append _ _ _ answers
              (own-IsAnswer (h ∷ more) (tx_hashes b lru is) (pending b rows) part),
          kept,
        ),
      )
