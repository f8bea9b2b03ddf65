-- ===== src/Prelude/Array.antt =====
-- Arrays of a fixed size, `[A; n]`, and arrays of words under exclusive or.
use Prim.Native.Nat.{ℕ, zero, suc, ◌/◌, ◌%◌, bit_xor}
use mathlib.Core.Path.{◌≡◌, refl, ap, ap₂}
use mathlib.Core.Logic.{◌↔◌, inl, inr}
use mathlib.Core.Bool.{Bool, true, ◌&&◌, false≢true}
use mathlib.Core.List.{List, [], ◌∷◌}
use defiads.Prelude.Tests.{◌==◌, ==_iff, Bool-cases}
use defiads.Prelude.Xor.{bit_xor_comm, bit_xor_assoc, bit_xor_self, bit_xor-zero}

abbrev pub Array : Type 0 → ℕ → Type 0
Array A zero = Unit
Array A (suc n) = A × Array A n

-- `a.iter_mut().zip(b.iter()).for_each(|(a, b)| *a ^= b)`
abbrev pub xor_array : (n : ℕ) → Array ℕ n → Array ℕ n → Array ℕ n
xor_array zero a b = tt
xor_array (suc n) a b = (bit_xor a.0 b.0, xor_array n a.1 b.1)

abbrev pub zeros : (n : ℕ) → Array ℕ n
zeros zero = tt
zeros (suc n) = (0, zeros n)

abbrev pub to_list : (n : ℕ) → Array ℕ n → List ℕ
to_list zero a = []
to_list (suc n) a = a.0 ∷ to_list n a.1

-- The little-endian bytes of an array of u16.
abbrev pub to_le_bytes : (n : ℕ) → Array ℕ n → List ℕ
to_le_bytes zero a = []
to_le_bytes (suc n) a = a.0 % 256 ∷ a.0 / 256 % 256 ∷ to_le_bytes n a.1

abbrev pub eq_array : (n : ℕ) → Array ℕ n → Array ℕ n → Bool
eq_array zero a b = true
eq_array (suc n) a b = a.0 == b.0 && eq_array n a.1 b.1

pub eq_array_iff : (n : ℕ) (a b : Array ℕ n) → (eq_array n a b ≡ true) ↔ (a ≡ b)
eq_array_iff zero a b = (λ _. refl, λ _. refl)
eq_array_iff (suc n) a b = (
  λ h. elim (Bool-cases (a.0 == b.0)) [
    | inl same ↦
        ap₂ (λ x r. (x, r)) ((==_iff a.0 b.0).0 same) ((eq_array_iff n a.1 b.1).0 (rw same at h))
    | inr other ↦ absurd (false≢true (rw other at h))
  ],
  λ p.
      rw ((==_iff a.0 b.0).1 (ap (λ (c : Array ℕ (suc n)). c.0) p))
        ((eq_array_iff n a.1 b.1).1 (ap (λ (c : Array ℕ (suc n)). c.1) p)),
)

pub xor_array_comm : (n : ℕ) (a b : Array ℕ n) → xor_array n a b ≡ xor_array n b a
xor_array_comm zero a b = refl
xor_array_comm (suc n) a b = ap₂ (λ x r. (x, r)) (bit_xor_comm a.0 b.0) (xor_array_comm n a.1 b.1)

pub xor_array_assoc :
    (n : ℕ) (a b c : Array ℕ n) → xor_array n (xor_array n a b) c ≡ xor_array n a (xor_array n b c)
xor_array_assoc zero a b c = refl
xor_array_assoc (suc n) a b c =
    ap₂ (λ x r. (x, r)) (bit_xor_assoc a.0 b.0 c.0) (xor_array_assoc n a.1 b.1 c.1)

pub xor_array_self : (n : ℕ) (a : Array ℕ n) → xor_array n a a ≡ zeros n
xor_array_self zero a = refl
xor_array_self (suc n) a = ap₂ (λ x r. (x, r)) (bit_xor_self a.0) (xor_array_self n a.1)

pub xor_array-zeros : (n : ℕ) (a : Array ℕ n) → xor_array n a (zeros n) ≡ a
xor_array-zeros zero a = refl
xor_array-zeros (suc n) a = ap₂ (λ x r. (x, r)) (bit_xor-zero a.0) (xor_array-zeros n a.1)
