-- ===== src/IbltIterator/Buckets.antt =====
-- The buckets of a table by their index: which the loops over the buckets of a key change, and which go
-- into the queue of the iterator.
use defiads.Prelude.{
  ℕ, zero, suc, ◌+◌, ◌<◌, true, false, not, none, List, [], ◌∷◌, ◌≡◌, refl, arith, ◌==◌, get_or,
  any, All, ap, ◌∙◌, sym, subst, inl, inr, Bool-cases, ok, length, ==_iff, contains, All-map, ◌%◌,
  replicate,
}
use mathlib.Core.Bool.{false≢true}
use defiads.Prelude.Int32.{abs_is_one}
use defiads.IbltKey.{IbltKey}
use defiads.BucketIterator.{selected}
use defiads.BucketIterator.Rising.{IsRising}
use defiads.Iblt.{Bucket, Iblt, update, update_all, default_bucket}
use defiads.Iblt.Updates.{length-update}
use defiads.IbltIterator.{is_pure, pure_from, finish, next_from}

module _ {ℓ} {A : Type ℓ} (f : A → A) (d : A) where
  get_or-update_other :
      (n i : ℕ) (bs : List A) → (i == n) ≡ false → get_or (update f n bs) i d ≡ get_or bs i d
  unfolding update
  get_or-update_other n i [] e = refl
  get_or-update_other zero zero (b ∷ bs) e = absurd (false≢true (sym e))
  get_or-update_other zero (suc i) (b ∷ bs) e = refl
  get_or-update_other (suc n) zero (b ∷ bs) e = refl
  get_or-update_other (suc n) (suc i) (b ∷ bs) e = get_or-update_other n i bs (ground (arith, e))

  get_or-update :
      (n : ℕ) (bs : List A) → n < length bs → get_or (update f n bs) n d ≡ f (get_or bs n d)
  unfolding update
  get_or-update n [] e = absurd (omega (arith, e))
  get_or-update zero (b ∷ bs) e = refl
  get_or-update (suc n) (b ∷ bs) e = get_or-update n bs (omega (arith, e))

  pub get_or-update_all_out :
      (ns : List ℕ) (i : ℕ) (bs : List A)
      → contains ns i ≡ false
      → get_or (update_all f ns bs) i d ≡ get_or bs i d
  unfolding update_all
  get_or-update_all_out [] i bs e = refl
  get_or-update_all_out (n ∷ ns) i bs e = elim (Bool-cases (i == n)) [
    | inl same ↦ absurd (false≢true (sym (rw same at e)))
    | inr differs ↦
        get_or-update_all_out ns i (update f n bs) (rw differs at e)
        ∙ get_or-update_other n i bs differs
  ]

  absent : (n : ℕ) (ns : List ℕ) → All (λ y. n < y) ns → contains ns n ≡ false
  absent n [] h = refl
  absent n (y ∷ ns) h =
      let differs : (n == y) ≡ false = ground (arith, h.0) in rw differs (absent n ns h.1)

  pub get_or-update_all_in :
      (ns : List ℕ) (i : ℕ) (bs : List A)
      → IsRising ns
      → All (λ n. n < length bs) ns
      → contains ns i ≡ true
      → get_or (update_all f ns bs) i d ≡ f (get_or bs i d)
  unfolding update_all
  get_or-update_all_in [] i bs r h e = absurd (false≢true e)
  get_or-update_all_in (n ∷ ns) i bs r h e = elim (Bool-cases (i == n)) [
    | inl same ↦
        subst (λ j. get_or (update_all f ns (update f n bs)) j d ≡ f (get_or bs j d))
          (sym ((==_iff i n).0 same))
          (get_or-update_all_out ns n (update f n bs) (absent n ns r.0) ∙ get_or-update n bs h.0)
    | inr differs ↦
        let inside : All (λ j. j < length (update f n bs)) ns =
          All-map ns (λ j p. omega (arith, p, length-update f n bs)) h.1 in
        get_or-update_all_in ns i (update f n bs) r.1 inside (rw differs at e)
        ∙ ap f (get_or-update_other n i bs differs)
  ]

  pub get_or-replicate : (m i : ℕ) → get_or (replicate m d) i d ≡ d
  get_or-replicate zero i = refl
  get_or-replicate (suc m) zero = refl
  get_or-replicate (suc m) (suc i) = get_or-replicate m i

module _ {ℓ} {K : Type ℓ} ⦃key : IbltKey K⦄ where
  pub pure_from-contains :
      (t : Iblt K) (i j : ℕ) (bs : List (Bucket K))
      → j < length bs
      → is_pure t (get_or bs j default_bucket) ≡ true
      → contains (pure_from t i bs) (i + j) ≡ true
  unfolding pure_from
  pure_from-contains t i j [] small e = absurd (omega (arith, small))
  pure_from-contains t i zero (b ∷ bs) small e =
      let same : (i + 0 == i) ≡ true = ground arith in rw (e, same) refl
  pure_from-contains t i (suc j) (b ∷ bs) small e =
      let rest : contains (pure_from t (suc i) bs) (i + suc j) ≡ true =
        subst (λ n. contains (pure_from t (suc i) bs) n ≡ true) (omega arith)
          (pure_from-contains t (suc i) j bs (omega (arith, small)) e) in
      elim (Bool-cases (is_pure t b)) [
        | inr impure ↦ rw impure rest
        | inl pure_one ↦ elim (Bool-cases (i + suc j == i)) [
          | inl same ↦ rw (pure_one, same) refl
          | inr differs ↦ rw (pure_one, differs) rest
        ]
      ]

  -- Over empty buckets the iteration ends.
  pub idle :
      (m : ℕ) (t : Iblt K) (queue : List ℕ)
      → t.buckets ≡ replicate m default_bucket
      → next_from t queue ≡ ok (finish t)
  unfolding next_from
  idle m t [] e = refl
  idle m t (i ∷ queue) e =
      let at_i : get_or t.buckets i default_bucket ≡ default_bucket =
        ap (λ bs. get_or bs i default_bucket) e ∙ get_or-replicate (λ b. b) default_bucket m i in
      let none_here : abs_is_one (get_or t.buckets i default_bucket).count ≡ false =
        ap (λ (b : Bucket K). abs_is_one b.count) at_i in
      rw none_here (idle m t queue e)

  no_counts :
      (m : ℕ) (bs : List (Bucket K))
      → bs ≡ replicate m default_bucket
      → any (λ (b : Bucket K). not (b.count == 0)) bs ≡ false
  no_counts m bs e = ap (any (λ (b : Bucket K). not (b.count == 0))) e ∙ go m
    where
      go : (n : ℕ) → any (λ (b : Bucket K). not (b.count == 0)) (replicate n default_bucket) ≡ false
      go zero = refl
      go (suc n) = go n

  pub finished :
      (m : ℕ) (t : Iblt K)
      → t.buckets ≡ replicate m default_bucket
      → finish t ≡ (none, record { iblt = t; queue = []; incomplete = false })
  unfolding finish
  finished m t e = let clean = no_counts m t.buckets e in rw (finish, clean) refl

  pub selects :
      (len : ℕ) (ks : List (ℕ × ℕ)) (x : K)
      → 0 < length ks
      → (i : ℕ) × (contains (selected len ks x) i ≡ true)
  unfolding selected
  selects len [] x h = absurd (omega (arith, h))
  selects len (kk ∷ ks) x h =
      let i = key.hash_to_u64_with_keys x kk.0 kk.1 % len in (i, rw ((==_iff i i).1 refl) refl)
