-- ===== src/Iblt.antt =====
-- The type `IBLT` of src/iblt.rs: the table, its construction, and the changes of it.
-- A number that the source holds as u32, u64 or usize is a ℕ, an i32 is its bit pattern
-- (Prelude/Int32). `IBLT::new` and the loops over the buckets of a key may panic, so they are runs.
-- The index of a bucket comes from BucketIterator and lies in the table
-- (BucketIterator/Rising), so that `update` loses nothing by ignoring an index out of range.
pub mod Updates
pub mod Entries
pub mod Order
pub mod Fresh
pub mod Minus
pub mod Difference
use defiads.Prelude.{
  ℕ, zero, suc, ◌/◌, ◌%◌, ◌^◌, Bool, true, false, ◌&&◌, List, [], ◌∷◌, ◌==◌, leb, if◌then◌else◌,
  length, get_or, replicate, bit_xor, Run, ok, ◌>>=◌, ◌>>◌, assert,
}
use defiads.Prelude.Int32.{i32_add, i32_sub}
use defiads.IbltKey.{IbltKey}
use defiads.BucketIterator.{k_max, positions}

pub record Bucket {ℓ} (K : Type ℓ) : Type ℓ where
  pub keysum : K
  pub hashsum : ℕ
  pub count : ℕ

pub record Iblt {ℓ} (K : Type ℓ) : Type ℓ where
  pub buckets : List (Bucket K)
  pub k0 : ℕ
  pub k1 : ℕ
  pub k : ℕ
  pub ksequence : List (ℕ × ℕ)

-- `BigEndian::write_u64`
unfoldable pub be_u64 : ℕ → List ℕ
be_u64 x =
    x / 2 ^ 56 % 256
    ∷ x / 2 ^ 48 % 256
    ∷ x / 2 ^ 40 % 256
    ∷ x / 2 ^ 32 % 256
    ∷ x / 2 ^ 24 % 256
    ∷ x / 2 ^ 16 % 256
    ∷ x / 2 ^ 8 % 256
    ∷ x % 256
    ∷ []

-- SipHash is a library: `sip k0 k1 s` is the hash of the bytes `s` under the keys `k0` and `k1`,
-- which is what `hash_slice_to_u64_with_keys` returns.
abbrev pub Sip : Type 0
Sip = ℕ → ℕ → List ℕ → ℕ

unfoldable pub generate_ksequence : Sip → ℕ → ℕ → ℕ → List (ℕ × ℕ)
unfolding be_u64
generate_ksequence sip zero k0 k1 = []
generate_ksequence sip (suc k) k0 k1 =
    let k0' = sip k0 k1 (be_u64 k0) in
    let k1' = sip k0' k1 (be_u64 k1) in (k0', k1') ∷ generate_ksequence sip k k0' k1'

-- Replaces the element at an index.
unfoldable pub update {ℓ} : {A : Type ℓ} → (A → A) → ℕ → List A → List A
update f i [] = []
update f zero (b ∷ bs) = f b ∷ bs
update f (suc i) (b ∷ bs) = b ∷ update f i bs

-- `for n in ns { … self.buckets[n] … }`
unfoldable pub update_all {ℓ} : {A : Type ℓ} → (A → A) → List ℕ → List A → List A
update_all f [] bs = bs
update_all f (n ∷ ns) bs = update_all f ns (update f n bs)

-- `IBLTEntry`: a key that only this table holds, or only the other.
pub data Entry {ℓ} (K : Type ℓ) : Type ℓ where
  inserted : K → Entry K
  deleted : K → Entry K

module _ {ℓ} {K : Type ℓ} ⦃key : IbltKey K⦄ where
  abbrev pub default_bucket : Bucket K
  default_bucket = record { keysum = key.default; hashsum = 0; count = 0 }

  unfoldable pub new : Sip → ℕ → ℕ → ℕ → ℕ → Run (Iblt K)
  new sip m k k0 k1 = do
    assert (leb k k_max)
    ok (record {
      buckets = replicate m default_bucket;
      k0 = k0;
      k1 = k1;
      k = k;
      ksequence = generate_ksequence sip k k0 k1;
    })

  abbrev pub keyhash : Iblt K → K → ℕ
  keyhash t x = key.hash_to_u64_with_keys x t.k0 t.k1

  abbrev pub buckets_of : Iblt K → K → Run (List ℕ)
  buckets_of t x = positions (length t.buckets) t.ksequence x

  -- The loop bodies of `insert` and `delete`.
  abbrev pub insert_bucket : K → ℕ → Bucket K → Bucket K
  insert_bucket x h b = record {
    keysum = key.bitxor b.keysum x;
    hashsum = bit_xor b.hashsum h;
    count = i32_add b.count 1;
  }

  abbrev pub delete_bucket : K → ℕ → Bucket K → Bucket K
  delete_bucket x h b = record {
    keysum = key.bitxor b.keysum x;
    hashsum = bit_xor b.hashsum h;
    count = i32_sub b.count 1;
  }

  unfoldable pub insert : Iblt K → K → Run (Iblt K)
  insert t x = do
    ns ← buckets_of t x
    ok (record t { buckets = update_all (insert_bucket x (keyhash t x)) ns t.buckets })

  unfoldable pub delete : Iblt K → K → Run (Iblt K)
  delete t x = do
    ns ← buckets_of t x
    ok (record t { buckets = update_all (delete_bucket x (keyhash t x)) ns t.buckets })

  abbrev pub substract_bucket : Bucket K → Bucket K → Bucket K
  substract_bucket b ob = record {
    keysum = key.bitxor b.keysum ob.keysum;
    hashsum = bit_xor b.hashsum ob.hashsum;
    count = i32_sub b.count ob.count;
  }

  -- The loop of `substract`, over two tables of one length.
  unfoldable pub substract_buckets : List (Bucket K) → List (Bucket K) → List (Bucket K)
  substract_buckets (b ∷ bs) (ob ∷ obs) = substract_bucket b ob ∷ substract_buckets bs obs
  substract_buckets bs obs = bs

  unfoldable pub substract : Iblt K → Iblt K → Run (Iblt K)
  substract t other = do
    assert (length t.buckets == length other.buckets)
    assert (t.k0 == other.k0)
    assert (t.k1 == other.k1)
    assert (t.k == other.k)
    ok (record t { buckets = substract_buckets t.buckets other.buckets })

  -- A loop that inserts one key after another.
  unfoldable pub insert_all : Iblt K → List K → Run (Iblt K)
  insert_all t [] = ok t
  insert_all t (x ∷ xs) = do t' ← insert t x; insert_all t' xs

  unfoldable pub delete_all : Iblt K → List K → Run (Iblt K)
  delete_all t [] = ok t
  delete_all t (x ∷ xs) = do t' ← delete t x; delete_all t' xs
