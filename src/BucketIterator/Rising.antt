-- ===== src/BucketIterator/Rising.antt =====
-- The buckets of a key rise strictly, lie in the table, and are those that the sequence selects.
use defiads.Prelude.{
  ℕ, ◌<◌, ◌≤◌, ◌≡◌, refl, List, [], ◌∷◌, arith, ◌==◌, leb, if◌then◌else◌, length, ap, ◌∙◌, true,
  inl, inr, Bool-cases, All, All-map, contains, Returns,
}
use defiads.BucketIterator.Dedup.{dedup_from, dedup, positions-eq-dedup}
use defiads.BucketIterator.{k_max, insert_sorted, sort, selected, positions}
use defiads.IbltKey.{IbltKey}

abbrev IsSorted : List ℕ → Type 0
IsSorted [] = Unit
IsSorted (x ∷ xs) = All (λ y. x ≤ y) xs × IsSorted xs

abbrev pub IsRising : List ℕ → Type 0
IsRising [] = Unit
IsRising (x ∷ xs) = All (λ y. x < y) xs × IsRising xs

insert_sorted_All :
    (P : ℕ → Type 0) (x : ℕ) (ys : List ℕ) → P x → All P ys → All P (insert_sorted x ys)
unfolding insert_sorted
insert_sorted_All P x [] p h = (p, tt)
insert_sorted_All P x (y ∷ ys) p h = elim (Bool-cases (leb x y)) [
  | inl le ↦ rw le (p, h)
  | inr gt ↦ rw gt (h.0, insert_sorted_All P x ys p h.1)
]

sort-All : (P : ℕ → Type 0) (xs : List ℕ) → All P xs → All P (sort xs)
unfolding sort
sort-All P [] h = tt
sort-All P (x ∷ xs) h = insert_sorted_All P x (sort xs) h.0 (sort-All P xs h.1)

insert_sorted-IsSorted : (x : ℕ) (ys : List ℕ) → IsSorted ys → IsSorted (insert_sorted x ys)
unfolding insert_sorted
insert_sorted-IsSorted x [] h = (tt, tt)
insert_sorted-IsSorted x (y ∷ ys) h = elim (Bool-cases (leb x y)) [
  | inl le ↦ let p : x ≤ y = ground arith in rw le ((p, All-map ys (λ z q. omega arith) h.0), h)
  | inr gt ↦
      let p : y ≤ x = ground arith in
      rw gt (insert_sorted_All (λ z. y ≤ z) x ys p h.0, insert_sorted-IsSorted x ys h.1)
]

sort-IsSorted : (xs : List ℕ) → IsSorted (sort xs)
unfolding sort
sort-IsSorted [] = tt
sort-IsSorted (x ∷ xs) = insert_sorted-IsSorted x (sort xs) (sort-IsSorted xs)

contains-insert_sorted :
    (x i : ℕ) (ys : List ℕ)
    → contains (insert_sorted x ys) i ≡ (if i == x then true else contains ys i)
unfolding insert_sorted
contains-insert_sorted x i [] = refl
contains-insert_sorted x i (y ∷ ys) = ground (arith, contains-insert_sorted x i ys)

contains-sort : (i : ℕ) (xs : List ℕ) → contains (sort xs) i ≡ contains xs i
unfolding sort
contains-sort i [] = refl
contains-sort i (x ∷ xs) =
    contains-insert_sorted x i (sort xs) ∙ ap (λ b. if i == x then true else b) (contains-sort i xs)

dedup_from_All : (P : ℕ → Type 0) (last : ℕ) (xs : List ℕ) → All P xs → All P (dedup_from last xs)
dedup_from_All P last [] h = tt
dedup_from_All P last (x ∷ xs) h = elim (Bool-cases (last == x)) [
  | inl same ↦ rw same (dedup_from_All P last xs h.1)
  | inr other ↦ rw other (h.0, dedup_from_All P x xs h.1)
]

dedup_from-IsRising :
    (last : ℕ) (xs : List ℕ)
    → All (λ y. last ≤ y) xs
    → IsSorted xs
    → All (λ y. last < y) (dedup_from last xs) × IsRising (dedup_from last xs)
dedup_from-IsRising last [] low sorted = (tt, tt)
dedup_from-IsRising last (x ∷ xs) low sorted = elim (Bool-cases (last == x)) [
  | inl same ↦ rw same (dedup_from-IsRising last xs low.1 sorted.1)
  | inr other ↦
      let p : last < x = ground arith in
      let (above, rising) = dedup_from-IsRising x xs sorted.0 sorted.1 in
      rw other ((p, All-map (dedup_from x xs) (λ z q. omega arith) above), (above, rising))
]

contains-dedup_from :
    (last i : ℕ) (xs : List ℕ)
    → (if i == last then true else contains (dedup_from last xs) i)
      ≡ (if i == last then true else contains xs i)
contains-dedup_from last i [] = refl
contains-dedup_from last i (x ∷ xs) = elim (Bool-cases (last == x)) [
  | inl same ↦ ground (arith, contains-dedup_from last i xs)
  | inr other ↦ ground (arith, contains-dedup_from x i xs)
]

dedup-IsRising : (xs : List ℕ) → IsSorted xs → IsRising (dedup xs)
dedup-IsRising [] h = tt
dedup-IsRising (x ∷ xs) h = dedup_from-IsRising x xs h.0 h.1

dedup-All : (P : ℕ → Type 0) (xs : List ℕ) → All P xs → All P (dedup xs)
dedup-All P [] h = tt
dedup-All P (x ∷ xs) h = (h.0, dedup_from_All P x xs h.1)

contains-dedup : (i : ℕ) (xs : List ℕ) → contains (dedup xs) i ≡ contains xs i
contains-dedup i [] = refl
contains-dedup i (x ∷ xs) = contains-dedup_from x i xs

pub record IsBucketsOf (len : ℕ) (selection ns : List ℕ) : Type 0 where
  pub rising : IsRising ns
  pub inside : All (λ n. n < len) ns
  pub exact : (i : ℕ) → contains ns i ≡ contains selection i

module _ {ℓ} {K : Type ℓ} ⦃key : IbltKey K⦄ (len : ℕ) (ks : List (ℕ × ℕ)) (x : K) where
  selected_inside : 0 < len → All (λ n. n < len) (selected len ks x)
  unfolding selected
  selected_inside pos = go ks
    where
      go : (kks : List (ℕ × ℕ)) → All (λ n. n < len) (selected len kks x)
      go [] = tt
      go (kk ∷ kks) = (omega arith, go kks)

  -- With at least one bucket and at most `k_max` pairs the loop over the buckets of a key does not
  -- panic. It visits a strictly rising list of buckets of the table, which are exactly those that
  -- the pairs of the sequence select.
  pub positions-IsBucketsOf :
      0 < len
      → length ks ≤ k_max
      → Returns (positions len ks x) (IsBucketsOf len (selected len ks x))
  positions-IsBucketsOf pos few =
      let l = selected len ks x in
      (
        dedup (sort l),
        positions-eq-dedup len ks x pos few,
        record {
          rising = dedup-IsRising (sort l) (sort-IsSorted l);
          inside = dedup-All _ (sort l) (sort-All _ l (selected_inside pos));
          exact = λ i. contains-dedup i (sort l) ∙ contains-sort i l;
        },
      )
