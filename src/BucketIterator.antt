-- ===== src/BucketIterator.antt =====
-- The struct `BucketIterator` of src/iblt.rs: the buckets of a key, each once, in rising order.
pub mod Dedup
pub mod Rising
use defiads.Prelude.{
  ℕ, zero, suc, ◌+◌, ◌-◌, ◌%◌, Bool, ◌&&◌, Option, none, some, List, [], ◌∷◌, ◌++◌, map, ltb, leb,
  ◌==◌, if◌then◌else◌, length, get_or, replicate, Run, ok, panic, ◌>>=◌, ◌>>◌, assert,
}
use defiads.IbltKey.{IbltKey}

abbrev pub k_max : ℕ
k_max = 6

-- `[usize]::sort`
unfoldable pub insert_sorted : ℕ → List ℕ → List ℕ
insert_sorted x [] = x ∷ []
insert_sorted x (y ∷ ys) = if leb x y then x ∷ y ∷ ys else y ∷ insert_sorted x ys

unfoldable pub sort : List ℕ → List ℕ
unfolding insert_sorted
sort [] = []
sort (x ∷ xs) = insert_sorted x (sort xs)

pub record BucketIterator : Type 0 where
  pub buckets : List ℕ
  pub pos : ℕ
  pub last : ℕ
  pub k : ℕ

-- The bucket that each pair of the sequence selects.
unfoldable pub selected {ℓ} : {K : Type ℓ} ⦃key : IbltKey K⦄ → ℕ → List (ℕ × ℕ) → K → List ℕ
selected ⦃key⦄ len ksequence x =
    map (λ (kk : ℕ × ℕ). key.hash_to_u64_with_keys x kk.0 kk.1 % len) ksequence

-- `new`: an array of `k_max` numbers, of which the first `k` are filled and sorted. The remainder
-- by `len` panics at 0, and so does the write of a seventh number.
unfoldable pub new {ℓ} : {K : Type ℓ} ⦃key : IbltKey K⦄ → ℕ → List (ℕ × ℕ) → K → Run BucketIterator
unfolding sort selected
new len [] x = ok (record { buckets = replicate k_max 0; pos = 0; last = 0; k = 0 })
new len (kk ∷ ks) x = do
  let ksequence = kk ∷ ks
  assert (ltb 0 len)
  assert (leb (length ksequence) k_max)
  ok (record {
    buckets = sort (selected len ksequence x) ++ replicate (k_max - length ksequence) 0;
    pos = 0;
    last = 0;
    k = length ksequence;
  })

-- The `while` loop of `next`; `k` rounds are enough, since each raises `pos` and ends at `k`.
unfoldable pub skip : ℕ → BucketIterator → BucketIterator
skip zero it = it
skip (suc fuel) it =
    let rest = skip fuel (record it { pos = it.pos + 1 }) in
    if ltb it.pos it.k && it.last == get_or it.buckets it.pos 0 then rest else it

unfoldable pub emit : BucketIterator → Option ℕ × BucketIterator
emit it = if it.pos == it.k then (none, it) else (
  some (get_or it.buckets it.pos 0),
  record it { last = get_or it.buckets it.pos 0; pos = it.pos + 1 },
)

unfoldable pub next : BucketIterator → Option ℕ × BucketIterator
next it = emit (if ltb 0 it.pos then skip it.k it else it)

-- `for n in self.buckets(key)`: what the loop runs over. One round more than `k` sees the end.
unfoldable pub collect : ℕ → BucketIterator → List ℕ
collect zero it = []
collect (suc fuel) it =
    let (item, it') = next it in elim item [ none ↦ [] | some n ↦ n ∷ collect fuel it' ]

unfoldable pub positions {ℓ} : {K : Type ℓ} ⦃key : IbltKey K⦄ → ℕ → List (ℕ × ℕ) → K → Run (List ℕ)
unfolding new collect next skip emit
positions len ksequence x = do it ← new len ksequence x; ok (collect (suc it.k) it)
