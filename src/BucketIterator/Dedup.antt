-- ===== src/BucketIterator/Dedup.antt =====
-- What the loop over `BucketIterator` runs over: the selected buckets, sorted, without repeats.
use defiads.Prelude.{
  ℕ, zero, suc, ◌+◌, ◌-◌, ◌<◌, ◌≤◌, ◌≡◌, refl, List, [], ◌∷◌, ◌++◌, arith, ◌==◌, if◌then◌else◌,
  length, get_or, replicate, ok, none, some, Option, true, false, inl, inr, ap, ◌∙◌, Bool-cases,
  ltb, leb, sym,
}
use defiads.IbltKey.{IbltKey}
use defiads.BucketIterator.{
  new, insert_sorted, BucketIterator, k_max, sort, selected, skip, emit, next, collect, positions,
}

abbrev pub dedup_from : ℕ → List ℕ → List ℕ
dedup_from last [] = []
dedup_from last (x ∷ xs) = if last == x then dedup_from last xs else x ∷ dedup_from x xs

abbrev pub dedup : List ℕ → List ℕ
dedup [] = []
dedup (x ∷ xs) = x ∷ dedup_from x xs

abbrev at : List ℕ → ℕ → ℕ → ℕ → BucketIterator
at bs pos last k = record { buckets = bs; pos = pos; last = last; k = k }

-- The `n` numbers of the array from `pos` on.
abbrev rest_of : List ℕ → ℕ → ℕ → List ℕ
rest_of bs pos zero = []
rest_of bs pos (suc n) = get_or bs pos 0 ∷ rest_of bs (suc pos) n

rest_of-cons : (b : ℕ) (bs : List ℕ) (pos n : ℕ) → rest_of (b ∷ bs) (suc pos) n ≡ rest_of bs pos n
rest_of-cons b bs pos zero = refl
rest_of-cons b bs pos (suc n) = rw (rest_of-cons b bs (suc pos) n)

rest_of-append : (xs ys : List ℕ) → rest_of (xs ++ ys) 0 (length xs) ≡ xs
rest_of-append [] ys = refl
rest_of-append (x ∷ xs) ys = rw (rest_of-cons x (xs ++ ys) 0 (length xs), rest_of-append xs ys)

-- One round of `collect` after the `while` loop, with fuel `g` for the latter.
round : ℕ → ℕ → BucketIterator → List ℕ
round f g it =
    let (item, it') = emit (skip g it) in elim item [ none ↦ [] | some n ↦ n ∷ collect f it' ]

module _ (g f pos last k : ℕ) (bs : List ℕ) (inside : pos < k) where
  round_same :
      (last == get_or bs pos 0) ≡ true
      → round f (suc g) (at bs pos last k) ≡ round f g (at bs (suc pos) last k)
  unfolding round skip
  round_same e = ground arith

  round_other :
      (last == get_or bs pos 0) ≡ false
      → round (suc f) (suc g) (at bs pos last k)
        ≡ get_or bs pos 0 ∷ round f k (at bs (suc pos) (get_or bs pos 0) k)
  unfolding round skip emit collect next
  round_other e = ground arith

round-eq-dedup_from :
    (n f g pos last k : ℕ) (bs : List ℕ)
    → k ≡ pos + n
    → n ≤ f
    → n ≤ g
    → round f g (at bs pos last k) ≡ dedup_from last (rest_of bs pos n)
unfolding round skip emit
round-eq-dedup_from zero f zero pos last k bs e hf hg = ground arith
round-eq-dedup_from zero f (suc g) pos last k bs e hf hg = ground arith
round-eq-dedup_from (suc n) f zero pos last k bs e hf hg = absurd (omega arith)
round-eq-dedup_from (suc n) zero (suc g) pos last k bs e hf hg = absurd (omega arith)
round-eq-dedup_from (suc n) (suc f) (suc g) pos last k bs e hf hg =
    let inside : pos < k = omega arith in
    elim (Bool-cases (last == get_or bs pos 0)) [
      | inl same ↦
          round_same g (suc f) pos last k bs inside same
          ∙ round-eq-dedup_from n (suc f) g (suc pos) last k bs (omega arith) (omega arith)
              (omega arith)
          ∙ rw same
      | inr other ↦
          round_other g f pos last k bs inside other
          ∙ ap (◌∷◌ (get_or bs pos 0)) (
              round-eq-dedup_from n f k (suc pos) (get_or bs pos 0) k bs (omega arith) (omega arith)
                (omega arith))
          ∙ rw other
    ]

zero-eq-suc : (n : ℕ) → (0 == suc n) ≡ false
zero-eq-suc n = ground arith

next_first :
    (n : ℕ) (bs : List ℕ)
    → next (at bs 0 0 (suc n)) ≡ (some (get_or bs 0 0), at bs 1 (get_or bs 0 0) (suc n))
unfolding next emit
next_first n bs = rw (zero-eq-suc n)

next_later :
    (p last k : ℕ) (bs : List ℕ)
    → next (at bs (suc p) last k) ≡ emit (skip k (at bs (suc p) last k))
unfolding next
next_later p last k bs = let e : ltb 0 (suc p) ≡ true = ground arith in rw e

-- What `collect` makes of one result of `next`.
collected : ℕ → Option ℕ × BucketIterator → List ℕ
collected f r = elim r.0 [ none ↦ [] | some n ↦ n ∷ collect f r.1 ]

collect-some :
    (f v : ℕ) (it it' : BucketIterator)
    → next it ≡ (some v, it')
    → collect (suc f) it ≡ v ∷ collect f it'
unfolding collect collected
collect-some f v it it' e = ap (collected f) e

collect-round :
    (f g : ℕ) (it : BucketIterator) → next it ≡ emit (skip g it) → collect (suc f) it ≡ round f g it
unfolding collect round collected
collect-round f g it e = ap (collected f) e

collect_first :
    (f n : ℕ) (bs : List ℕ)
    → collect (suc (suc f)) (at bs 0 0 (suc n))
      ≡ get_or bs 0 0 ∷ round f (suc n) (at bs 1 (get_or bs 0 0) (suc n))
collect_first f n bs =
    collect-some (suc f) (get_or bs 0 0) _ _ (next_first n bs)
    ∙ ap (◌∷◌ (get_or bs 0 0)) (collect-round f (suc n) _ (next_later 0 (get_or bs 0 0) (suc n) bs))

collect-eq-dedup :
    (l pad : List ℕ) (k : ℕ) → k ≡ length l → collect (suc k) (at (l ++ pad) 0 0 k) ≡ dedup l
collect-eq-dedup [] pad k e = rw e (unfold collect next emit in refl)
collect-eq-dedup (x ∷ xs) pad k e =
    let bs = x ∷ xs ++ pad in
    let n = length xs in
    rw e (
      collect_first n n bs
      ∙ ap (◌∷◌ x)
          (round-eq-dedup_from n n (suc n) 1 x (suc n) bs (omega arith) (omega arith) (omega arith))
      ∙ ap (λ r. x ∷ dedup_from x r) (rest_of-cons x (xs ++ pad) 0 n ∙ rest_of-append xs pad))

length-insert_sorted : (x : ℕ) (ys : List ℕ) → length (insert_sorted x ys) ≡ suc (length ys)
unfolding insert_sorted
length-insert_sorted x [] = refl
length-insert_sorted x (y ∷ ys) = ground (arith, length-insert_sorted x ys)

length-sort : (xs : List ℕ) → length (sort xs) ≡ length xs
unfolding sort
length-sort [] = refl
length-sort (x ∷ xs) = omega (arith, length-insert_sorted x (sort xs), length-sort xs)

new_ok {ℓ} :
    {K : Type ℓ} ⦃key : IbltKey K⦄ (len : ℕ) (kk : ℕ × ℕ) (ks : List (ℕ × ℕ)) (x : K)
    → 0 < len
    → length (kk ∷ ks) ≤ k_max
    → new len (kk ∷ ks) x
      ≡ ok (
          at
            (sort (selected len (kk ∷ ks) x) ++ replicate (k_max - length (kk ∷ ks)) 0)
            0
            0
            (length (kk ∷ ks)))
unfolding new
new_ok len kk ks x pos few =
    let p : ltb 0 len ≡ true = ground arith in
    let q : leb (length (kk ∷ ks)) k_max ≡ true = ground arith in rw (p, q)

length-selected {ℓ} :
    {K : Type ℓ} ⦃key : IbltKey K⦄ (len : ℕ) (ks : List (ℕ × ℕ)) (x : K)
    → length (selected len ks x) ≡ length ks
unfolding selected
length-selected len [] x = refl
length-selected len (kk ∷ ks) x = ap suc (length-selected len ks x)

-- The buckets of a key: those that the sequence selects, sorted and each once.
pub positions-eq-dedup {ℓ} :
    {K : Type ℓ} ⦃key : IbltKey K⦄ (len : ℕ) (ks : List (ℕ × ℕ)) (x : K)
    → 0 < len
    → length ks ≤ k_max
    → positions len ks x ≡ ok (dedup (sort (selected len ks x)))
unfolding positions
positions-eq-dedup len [] x pos few = refl
positions-eq-dedup len (kk ∷ ks) x pos few =
    let l = sort (selected len (kk ∷ ks) x) in
    rw (new_ok len kk ks x pos few) (
      ap ok (
        collect-eq-dedup l _ (length (kk ∷ ks))
          (sym (length-sort (selected len (kk ∷ ks) x) ∙ length-selected len (kk ∷ ks) x))))
