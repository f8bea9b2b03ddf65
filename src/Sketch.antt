-- ===== src/Sketch.antt =====
-- The min sketch of src/iblt.rs: for each hash function the least hash of a set of keys, from which
-- two nodes estimate how much their sets differ.
pub mod Order
use defiads.Prelude.{
  ℕ, ◌+◌, ◌%◌, ◌^◌, ◌-◌, min, Bool, true, ◌<◌, ◌≤◌, ◌≡◌, refl, arith, ==_iff, List, [], ◌∷◌, ◌==◌,
  leb, if◌then◌else◌, length, replicate, Run, ok, ◌>>=◌, ◌>>◌, assert,
}
use defiads.IbltKey.{IbltKey}
use defiads.Iblt.{Sip, generate_ksequence}

module _ {ℓ} {K : Type ℓ} ⦃key : IbltKey K⦄ where
  -- The loop of `add_to_min_sketch`.
  unfoldable pub lower : List ℕ → K → List (ℕ × ℕ) → List ℕ
  lower (m ∷ ms) x (kk ∷ ks) = min m (key.hash_to_u64_with_keys x kk.0 kk.1) ∷ lower ms x ks
  lower ms x ks = ms

  -- An index past the end of `min_hashes` panics.
  unfoldable pub add_to_min_sketch : List ℕ → K → List (ℕ × ℕ) → Run (List ℕ)
  unfolding lower
  add_to_min_sketch min_hashes x ksequence = do
    assert (leb (length ksequence) (length min_hashes))
    ok (lower min_hashes x ksequence)

  -- The loop of `min_sketch`, with the count of keys.
  unfoldable pub add_all : List ℕ → List (ℕ × ℕ) → ℕ → List K → Run (List ℕ × ℕ)
  add_all min_hashes ksequence n_keys [] = ok (min_hashes, n_keys)
  add_all min_hashes ksequence n_keys (x ∷ xs) = do
    min_hashes' ← add_to_min_sketch min_hashes x ksequence
    add_all min_hashes' ksequence ((n_keys + 1) % 2 ^ 32) xs

  unfoldable pub min_sketch : Sip → ℕ → ℕ → ℕ → List K → Run (List ℕ × List (ℕ × ℕ) × ℕ)
  min_sketch sip n k0 k1 ids = do
    let ksequence = generate_ksequence sip n k0 k1
    r ← add_all (replicate n (2 ^ 64 - 1)) ksequence 0 ids
    ok (r.0, ksequence, r.1)

-- The arithmetic of `f32` that the estimate uses, with its conversions from and to u32.
pub record Float : Type 1 where
  pub F32 : Type 0
  pub from_u32 : ℕ → F32
  pub to_u32 : F32 → ℕ
  pub plus : F32 → F32 → F32
  pub less : F32 → F32 → F32
  pub times : F32 → F32 → F32
  pub over : F32 → F32 → F32
  -- What the estimate of equal sketches relies on; 24 bits hold any number of hash functions in use.
  pub over_self : (n : ℕ) → 0 < n → n < 2 ^ 24 → over (from_u32 n) (from_u32 n) ≡ from_u32 1
  pub one_less_one : less (from_u32 1) (from_u32 1) ≡ from_u32 0
  pub one_plus_one : plus (from_u32 1) (from_u32 1) ≡ from_u32 2
  pub zero_over_two : over (from_u32 0) (from_u32 2) ≡ from_u32 0
  pub zero_times : (n : ℕ) → times (from_u32 0) (from_u32 n) ≡ from_u32 0
  pub to_u32_zero : to_u32 (from_u32 0) ≡ 0

-- How many positions of two sketches agree.
unfoldable pub agreeing : List ℕ → List ℕ → ℕ
agreeing (a ∷ sa) (b ∷ sb) = if a == b then agreeing sa sb + 1 else agreeing sa sb
agreeing sa sb = 0

unfoldable pub estimate_diff_size : (f : Float) → List ℕ → ℕ → List ℕ → ℕ → Run ℕ
unfolding agreeing
estimate_diff_size f sa al sb bl = do
  assert (length sa == length sb)
  let one = f.from_u32 1
  let r = f.over (f.from_u32 (agreeing sa sb)) (f.from_u32 (length sa))
  ok (f.to_u32 (f.times (f.over (f.less one r) (f.plus one r)) (f.from_u32 ((al + bl) % 2 ^ 32))))

agreeing_self : (sa : List ℕ) → agreeing sa sa ≡ length sa
unfolding agreeing
agreeing_self [] = refl
agreeing_self (a ∷ sa) = ground (arith, agreeing_self sa)

-- Two equal sketches with at least one position, and fewer than 2 ^ 24, are estimated to differ in
-- nothing, whatever the sizes of the two sets.
pub estimate_diff_size_self :
    (f : Float) (sketch : List ℕ) (al bl : ℕ)
    → 0 < length sketch
    → length sketch < 2 ^ 24
    → estimate_diff_size f sketch al sketch bl ≡ ok 0
unfolding estimate_diff_size
estimate_diff_size_self f sketch al bl pos small =
    let same = (==_iff (length sketch) (length sketch)).1 refl in
    let total = (al + bl) % 2 ^ 32 in
    rw (
      same,
      agreeing_self sketch,
      f.over_self (length sketch) pos small,
      f.one_less_one,
      f.one_plus_one,
      f.zero_over_two,
      f.zero_times total,
      f.to_u32_zero,
    )
