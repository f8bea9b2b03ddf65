-- ===== src/Outgoing/Confirmed.antt =====
-- `store_coins`: the transactions that a proof confirms leave the list of those that are unconfirmed.
use mathlib.Core.Bool.{false≢true}
use mathlib.Core.Option.{none-ne-some, some-injective}
use defiads.Prelude.{
  ℕ, ◌≡◌, refl, sym, ap, ◌∙◌, subst, Bool, true, false, not, ◌&&◌, Option, none, some, Option-cases,
  inl, inr, List, [], ◌∷◌, filter, any, All, All-map, Bool-cases, ok, ◌==◌, ==_iff, if◌then◌else◌,
  Returns,
}
use defiads.World.{World}
use defiads.Contents.Deletion.{filter_agree}
use defiads.Wallet.{Coin, OutPoint, Bank}
use defiads.Outgoing.{
  TxOutRow, Outgoing, CoinRow, read_unconfirmed, coin_rows, find_proof, confirm, confirm_all,
  store_coins,
}
use defiads.Outgoing.Unconfirmed.{
  Sent, IsWhole, pending, without, read-eq-pending, confirm-IsWhole, pending-confirm,
}

filter-filter {ℓ} :
    {A : Type ℓ} (p q : A → Bool) (xs : List A)
    → filter p (filter q xs) ≡ filter (λ x. q x && p x) xs
filter-filter p q [] = refl
filter-filter p q (x ∷ xs) = elim (Bool-cases (q x)) [
  | inl e ↦ rw e (ap (λ rest. if p x then x ∷ rest else rest) (filter-filter p q xs))
  | inr e ↦ rw e (filter-filter p q xs)
]

-- Each element of a list is related to some element of it.
any_refl {ℓ} :
    {A : Type ℓ} (q : A → A → Bool) (xs : List A)
    → ((x : A) → q x x ≡ true)
    → All (λ s. any (λ t. q t s) xs ≡ true) xs
any_refl q [] h = tt
any_refl q (x ∷ xs) h = (
  rw (h x) refl,
  All-map xs (λ s e. elim (Bool-cases (q x s)) [ inl f ↦ rw f refl | inr f ↦ rw f e ])
      (any_refl q xs h),
)

all_of {ℓ} : {A : Type ℓ} {P : A → Type 0} (xs : List A) → ((x : A) → P x) → All P xs
all_of [] h = tt
all_of (x ∷ xs) h = (h x, all_of xs h)

filter-true {ℓ} : {A : Type ℓ} (xs : List A) → xs ≡ filter (λ x. true) xs
filter-true [] = refl
filter-true (x ∷ xs) = ap (◌∷◌ x) (filter-true xs)

module _ {w : World} (b : Bank w) where
  -- Whether a transaction is proved.
  abbrev pub has_proof : List w.ProvedTransaction → ℕ → Bool
  has_proof proofs txid = elim (find_proof b txid proofs) [ none ↦ false | some _ ↦ true ]

  found_txid :
      (txid : ℕ) (proofs : List w.ProvedTransaction) (p : w.ProvedTransaction)
      → find_proof b txid proofs ≡ some p
      → b.proof_txid p ≡ txid
  unfolding find_proof
  found_txid txid [] p e = absurd (none-ne-some p e)
  found_txid txid (q ∷ proofs) p e = elim (Bool-cases (b.proof_txid q == txid)) [
    | inl f ↦
        subst (λ r. b.proof_txid r ≡ txid) (some-injective _ _ (rw f at e))
          ((==_iff (b.proof_txid q) txid).0 f)
    | inr f ↦ found_txid txid proofs p (rw f at e)
  ]

  abbrev covers : List w.ProvedTransaction → Sent w → Sent w → Bool
  covers proofs t s = has_proof proofs (b.txid t.0) && b.txid s.0 == b.txid t.0

  abbrev covered : List w.ProvedTransaction → List (Sent w) → Sent w → Bool
  covered proofs sent s = any (λ t. covers proofs t s) sent

  -- Whether a transaction stays, by the proof that was found of another one.
  abbrev test : Sent w → Sent w → Bool → Option w.ProvedTransaction → Bool
  test t s rest o = not (
      if elim o as (λ _. Bool) [ none ↦ false | some _ ↦ true ] && b.txid s.0 == b.txid t.0
      then true
      else rest)

  covered_unproved :
      (proofs : List w.ProvedTransaction) (t s : Sent w) (sent : List (Sent w))
      → find_proof b (b.txid t.0) proofs ≡ none
      → not (covered proofs sent s) ≡ not (covered proofs (t ∷ sent) s)
  covered_unproved proofs t s sent e = ap (test t s (covered proofs sent s)) (sym e)

  covered_proved :
      (proofs : List w.ProvedTransaction) (t s : Sent w) (sent : List (Sent w))
      (p : w.ProvedTransaction)
      → find_proof b (b.txid t.0) proofs ≡ some p
      → not (b.txid s.0 == b.txid t.0) && not (covered proofs sent s)
        ≡ not (covered proofs (t ∷ sent) s)
  covered_proved proofs t s sent p e =
      split (b.txid s.0 == b.txid t.0) (covered proofs sent s)
      ∙ ap (test t s (covered proofs sent s)) (sym e)
    where
      split : (same rest : Bool) → not same && not rest ≡ not (if true && same then true else rest)
      split true rest = refl
      split false rest = refl

  -- The transactions left are those that no proof of the loop confirms.
  confirm_all-pending :
      (proofs : List w.ProvedTransaction) (sent : List (Sent w)) (rows : List (TxOutRow w))
      → All (IsWhole b) rows
      → All (IsWhole b) (confirm_all b proofs sent rows)
        × (pending b (confirm_all b proofs sent rows)
            ≡ filter (λ s. not (covered proofs sent s)) (pending b rows))
  unfolding confirm_all
  confirm_all-pending proofs [] rows h = (h, filter-true (pending b rows))
  confirm_all-pending proofs ((tx, funding) ∷ sent) rows h =
      elim (Option-cases (find_proof b (b.txid tx) proofs)) [
        | inl e ↦
            let rest = confirm_all-pending proofs sent rows h in
            let same =
              filter_agree _ _ (pending b rows)
                (all_of (pending b rows) (λ s. covered_unproved proofs (tx, funding) s sent e)) in
            (rw (confirm_all, e) rest.0, rw (confirm_all, e) (rest.1 ∙ same))
        | inr (p, e) ↦
            let named = found_txid (b.txid tx) proofs p e in
            let rows' = confirm b (w.get_block_hash p) (b.proof_txid p) rows in
            let rest =
              confirm_all-pending proofs sent rows'
                (confirm-IsWhole b (w.get_block_hash p) (b.proof_txid p) rows h) in
            let left : pending b rows' ≡ without b (b.txid tx) (pending b rows) =
              pending-confirm b (w.get_block_hash p) (b.proof_txid p) rows h
              ∙ ap (λ n. without b n (pending b rows)) named in
            let same =
              filter_agree _ _ (pending b rows)
                (all_of (pending b rows) (λ s. covered_proved proofs (tx, funding) s sent p e)) in
            (
              rw (confirm_all, e) rest.0,
              rw (confirm_all, e)
                  (rest.1
                    ∙ ap (filter (λ s. not (covered proofs sent s))) left
                    ∙ filter-filter _ _ (pending b rows)
                    ∙ same),
            )
      ]

  abbrev same_tx : Sent w → Sent w → Bool
  same_tx t s = b.txid s.0 == b.txid t.0

  covered_not :
      (proofs : List w.ProvedTransaction) (s : Sent w) (sent : List (Sent w))
      → has_proof proofs (b.txid s.0) ≡ false
      → covered proofs sent s ≡ false
  covered_not proofs s [] e = refl
  covered_not proofs s (t ∷ sent) e = elim (Bool-cases (b.txid s.0 == b.txid t.0)) [
    | inl f ↦
        let g : has_proof proofs (b.txid t.0) ≡ false =
          ap (has_proof proofs) (sym ((==_iff _ _).0 f)) ∙ e in
        rw g (covered_not proofs s sent e)
    | inr f ↦ elim (Bool-cases (has_proof proofs (b.txid t.0))) [
      | inl g ↦ rw (g, f) (covered_not proofs s sent e)
      | inr g ↦ rw g (covered_not proofs s sent e)
    ]
  ]

  covered_so :
      (proofs : List w.ProvedTransaction) (s : Sent w) (sent : List (Sent w))
      → has_proof proofs (b.txid s.0) ≡ true
      → any (λ t. same_tx t s) sent ≡ true
      → covered proofs sent s ≡ true
  covered_so proofs s [] e m = absurd (false≢true m)
  covered_so proofs s (t ∷ sent) e m = elim (Bool-cases (b.txid s.0 == b.txid t.0)) [
    | inl f ↦
        let g : has_proof proofs (b.txid t.0) ≡ true =
          ap (has_proof proofs) (sym ((==_iff _ _).0 f)) ∙ e in
        rw (g, f) refl
    | inr f ↦ elim (Bool-cases (has_proof proofs (b.txid t.0))) [
      | inl g ↦ rw (g, f) (covered_so proofs s sent e (rw f at m))
      | inr g ↦ rw g (covered_so proofs s sent e (rw f at m))
    ]
  ]

  covered-eq-proof :
      (proofs : List w.ProvedTransaction) (sent : List (Sent w))
      → All (λ s. not (covered proofs sent s) ≡ not (has_proof proofs (b.txid s.0))) sent
  covered-eq-proof proofs sent =
      All-map sent
        (λ s m. elim (Bool-cases (has_proof proofs (b.txid s.0))) [
          | inl e ↦ ap not (covered_so proofs s sent e m ∙ sym e)
          | inr e ↦ ap not (covered_not proofs s sent e ∙ sym e)
        ])
        (any_refl same_tx sent (λ s. (==_iff _ _).1 refl))

  -- Every coin has the proof of its transaction.
  abbrev pub IsProved : b.Coins → OutPoint × Coin w → Type 0
  IsProved coins c = (p : w.ProvedTransaction) × (b.proofs coins c.0.txid ≡ some p)

  coin_rows-all :
      (coins : b.Coins) (confirmed : List (OutPoint × Coin w))
      → All (IsProved coins) confirmed
      → (rows : List (CoinRow w)) × (coin_rows b coins confirmed ≡ ok rows)
  unfolding coin_rows
  coin_rows-all coins [] h = ([], refl)
  coin_rows-all coins ((point, coin) ∷ confirmed) h =
      let rest = coin_rows-all coins confirmed h.1 in rw (h.0.1, rest.1) (_, refl)

  -- Over rows that are whole, where each confirmed coin has its proof: storing the coins does not
  -- panic, and afterwards the unconfirmed transactions are those, in their order, that were so before
  -- and that none of the proofs proves. The rows are whole still.
  pub store_coins-pending :
      (coins : b.Coins) (out : Outgoing b)
      → All (IsWhole b) out.txouts
      → All (IsProved coins) (b.confirmed coins)
      → Returns (store_coins b coins out) λ out'. Returns (read_unconfirmed b out.txouts) λ before.
        (read_unconfirmed b out'.txouts
          ≡ ok (filter (λ s. not (has_proof (b.all_proofs coins) (b.txid s.0))) before))
        × All (IsWhole b) out'.txouts
  unfolding store_coins
  store_coins-pending coins out h proved =
      let rows = coin_rows-all coins (b.confirmed coins) proved in
      let proofs = b.all_proofs coins in
      let r = confirm_all-pending proofs (pending b out.txouts) out.txouts h in
      rw (rows.1, read-eq-pending b out.txouts h)
        (
          _,
          refl,
          (
            pending b out.txouts,
            refl,
            (
              read-eq-pending b _ r.0
                  ∙ ap ok (
                      r.1
                      ∙ filter_agree _ _ (pending b out.txouts)
                          (covered-eq-proof proofs (pending b out.txouts))),
              r.0,
            ),
          ),
        )
