-- ===== src/Iblt/Fresh.antt =====
-- `IBLT::new`: an empty table.
use defiads.Prelude.{
  ℕ, zero, suc, ◌<◌, ◌≤◌, ◌≡◌, refl, arith, leb, length, replicate, length-replicate, replicate_All,
  ap, true, ok,
}
use defiads.IbltKey.{IbltKey}
use defiads.BucketIterator.{k_max}
use defiads.Iblt.{Iblt, Sip, new, default_bucket, generate_ksequence}
use defiads.Iblt.Entries.{IsCounted, IsUsable}

pub length-generate_ksequence :
    (sip : Sip) (k k0 k1 : ℕ) → length (generate_ksequence sip k k0 k1) ≡ k
unfolding generate_ksequence
length-generate_ksequence sip zero k0 k1 = refl
length-generate_ksequence sip (suc k) k0 k1 = ap suc (length-generate_ksequence sip k _ _)

module _ {ℓ} {K : Type ℓ} ⦃key : IbltKey K⦄ where
  -- The table that `new` makes.
  abbrev pub fresh : Sip → ℕ → ℕ → ℕ → ℕ → Iblt K
  fresh sip m k k0 k1 = record {
    buckets = replicate m default_bucket;
    k0 = k0;
    k1 = k1;
    k = k;
    ksequence = generate_ksequence sip k k0 k1;
  }

  module _ (sip : Sip) (m k k0 k1 : ℕ) (pos : 0 < m) (few : k ≤ k_max) where
    pub new-eq-fresh : new sip m k k0 k1 ≡ ok (fresh sip m k k0 k1)
    unfolding new
    new-eq-fresh = let e : leb k k_max ≡ true = ground arith in rw e

    pub fresh-IsUsable : IsUsable (fresh sip m k k0 k1)
    fresh-IsUsable = record {
      nonempty = omega (arith, length-replicate m (default_bucket {K = K}));
      few = omega (arith, length-generate_ksequence sip k k0 k1);
      counted = replicate_All IsCounted m default_bucket (omega arith);
    }
