-- ===== src/IbltKey.antt =====
-- The trait `IBLTKey` of src/iblt.rs: what a key of a table must offer. `^=` is `bitxor`, which the
-- table relies on to be an exclusive or; the keys of the program prove the laws.
use defiads.Prelude.{ℕ, ◌≡◌, ◌∙◌, sym, ap}

pub record IbltKey {ℓ} (K : Type ℓ) : Type ℓ where
  pub bitxor : K → K → K
  pub default : K
  pub hash_to_u64_with_keys : K → ℕ → ℕ → ℕ
  pub bitxor_comm : (a b : K) → bitxor a b ≡ bitxor b a
  pub bitxor_assoc : (a b c : K) → bitxor (bitxor a b) c ≡ bitxor a (bitxor b c)
  pub bitxor_self : (a : K) → bitxor a a ≡ default
  pub bitxor-default : (a : K) → bitxor a default ≡ a

module _ {ℓ} {K : Type ℓ} ⦃key : IbltKey K⦄ where
  pub default-bitxor : (a : K) → key.bitxor key.default a ≡ a
  default-bitxor a = key.bitxor_comm key.default a ∙ key.bitxor-default a

  -- Adding a key twice leaves what was there.
  pub bitxor-bitxor : (a b : K) → key.bitxor (key.bitxor a b) b ≡ a
  bitxor-bitxor a b =
      key.bitxor_assoc a b b ∙ ap (key.bitxor a) (key.bitxor_self b) ∙ key.bitxor-default a

  pub bitxor_right_comm :
      (a b c : K) → key.bitxor (key.bitxor a b) c ≡ key.bitxor (key.bitxor a c) b
  bitxor_right_comm a b c =
      key.bitxor_assoc a b c
      ∙ ap (key.bitxor a) (key.bitxor_comm b c)
      ∙ sym (key.bitxor_assoc a c b)
