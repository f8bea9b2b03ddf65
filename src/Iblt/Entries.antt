-- ===== src/Iblt/Entries.antt =====
-- A key that enters or leaves a table, as an element of one commutative group: entries commute, and
-- an entry is taken back by the opposite one.
use defiads.Prelude.{
  ℕ, ◌≤◌, ◌<◌, ◌≡◌, List, arith, length, ap, ◌∙◌, sym, All, bit_xor, bit_xor-zero, bit_xor_comm,
  bit_xor_assoc, bit_xor_self, Run, ok,
}
use defiads.Prelude.Int32.{i32_mod}
use defiads.IbltKey.{IbltKey, bitxor-bitxor, bitxor_right_comm}
use defiads.BucketIterator.{k_max, sort, selected}
use defiads.BucketIterator.Dedup.{dedup, positions-eq-dedup}
use defiads.Iblt.{
  Bucket, Iblt, Entry, inserted, deleted, update_all, keyhash, insert_bucket, delete_bucket, insert,
  delete,
}
use defiads.Iblt.Updates.{length-update_all, update_all_All, update_all_comm, update_all_back}

pub bit_xor_right_comm : (a b c : ℕ) → bit_xor (bit_xor a b) c ≡ bit_xor (bit_xor a c) b
bit_xor_right_comm a b c =
    bit_xor_assoc a b c ∙ ap (bit_xor a) (bit_xor_comm b c) ∙ sym (bit_xor_assoc a c b)

pub bit_xor_twice : (a b : ℕ) → bit_xor (bit_xor a b) b ≡ a
bit_xor_twice a b = bit_xor_assoc a b b ∙ ap (bit_xor a) (bit_xor_self b) ∙ bit_xor-zero a

pub Bucket_path {ℓ} :
    {K : Type ℓ} {a b : Bucket K}
    → a.keysum ≡ b.keysum
    → a.hashsum ≡ b.hashsum
    → a.count ≡ b.count
    → a ≡ b
Bucket_path p q r = λ i. record { keysum = p i; hashsum = q i; count = r i }

module _ {ℓ} {K : Type ℓ} ⦃key : IbltKey K⦄ where
  abbrev pub key_of : Entry K → K
  key_of (inserted x) = x
  key_of (deleted x) = x

  abbrev pub opposite : Entry K → Entry K
  opposite (inserted x) = deleted x
  opposite (deleted x) = inserted x

  -- What an entry does to each bucket of its key.
  abbrev pub entry_bucket : Entry K → ℕ → Bucket K → Bucket K
  entry_bucket (inserted x) = insert_bucket x
  entry_bucket (deleted x) = delete_bucket x

  pub entry_bucket_comm :
      (d e : Entry K) (g h : ℕ) (b : Bucket K)
      → entry_bucket d g (entry_bucket e h b) ≡ entry_bucket e h (entry_bucket d g b)
  entry_bucket_comm (inserted x) (inserted y) g h b =
      Bucket_path (bitxor_right_comm b.keysum y x) (bit_xor_right_comm b.hashsum h g) (omega arith)
  entry_bucket_comm (inserted x) (deleted y) g h b =
      Bucket_path (bitxor_right_comm b.keysum y x) (bit_xor_right_comm b.hashsum h g) (omega arith)
  entry_bucket_comm (deleted x) (inserted y) g h b =
      Bucket_path (bitxor_right_comm b.keysum y x) (bit_xor_right_comm b.hashsum h g) (omega arith)
  entry_bucket_comm (deleted x) (deleted y) g h b =
      Bucket_path (bitxor_right_comm b.keysum y x) (bit_xor_right_comm b.hashsum h g) (omega arith)

  abbrev pub IsCounted : Bucket K → Type 0
  IsCounted b = b.count < i32_mod

  pub entry_bucket_back :
      (e : Entry K) (h : ℕ) (b : Bucket K)
      → IsCounted b
      → entry_bucket (opposite e) h (entry_bucket e h b) ≡ b
  entry_bucket_back (inserted x) h b c =
      Bucket_path (bitxor-bitxor b.keysum x) (bit_xor_twice b.hashsum h) (omega arith)
  entry_bucket_back (deleted x) h b c =
      Bucket_path (bitxor-bitxor b.keysum x) (bit_xor_twice b.hashsum h) (omega arith)

  pub entry_bucket_IsCounted :
      (e : Entry K) (h : ℕ) (b : Bucket K) → IsCounted b → IsCounted (entry_bucket e h b)
  entry_bucket_IsCounted (inserted x) h b c = omega arith
  entry_bucket_IsCounted (deleted x) h b c = omega arith

  -- A table that the operations serve without a panic.
  pub record IsUsable (t : Iblt K) : Type ℓ where
    pub nonempty : 0 < length t.buckets
    pub few : length t.ksequence ≤ k_max
    pub counted : All IsCounted t.buckets

  -- The buckets of a key, each once.
  abbrev pub spots : Iblt K → K → List ℕ
  spots t x = dedup (sort (selected (length t.buckets) t.ksequence x))

  -- The table after an entry, and the operation of the code that makes the entry.
  unfoldable pub after : Iblt K → Entry K → Iblt K
  after t e = record t {
    buckets = update_all (entry_bucket e (keyhash t (key_of e))) (spots t (key_of e)) t.buckets;
  }

  abbrev pub make : Iblt K → Entry K → Run (Iblt K)
  make t (inserted x) = insert t x
  make t (deleted x) = delete t x

  pub make-eq-after : {t : Iblt K} (e : Entry K) → IsUsable t → make t e ≡ ok (after t e)
  unfolding insert delete after
  make-eq-after {t} (inserted x) u =
      rw (positions-eq-dedup (length t.buckets) t.ksequence x u.nonempty u.few)
  make-eq-after {t} (deleted x) u =
      rw (positions-eq-dedup (length t.buckets) t.ksequence x u.nonempty u.few)

  pub after-IsUsable : {t : Iblt K} (e : Entry K) → IsUsable t → IsUsable (after t e)
  unfolding after
  after-IsUsable {t} e u = record {
    nonempty = omega (
      arith,
      length-update_all (entry_bucket e (keyhash t (key_of e))) (spots t (key_of e)) t.buckets,
    );
    few = u.few;
    counted =
        update_all_All IsCounted _ (spots t (key_of e)) t.buckets (entry_bucket_IsCounted e _)
          u.counted;
  }

  spots-after : (t : Iblt K) (e : Entry K) (x : K) → spots (after t e) x ≡ spots t x
  unfolding after
  spots-after t e x =
      ap (λ n. dedup (sort (selected n t.ksequence x)))
        (length-update_all (entry_bucket e (keyhash t (key_of e))) (spots t (key_of e)) t.buckets)

  -- The loop that makes an entry.
  abbrev touch : Iblt K → Entry K → List ℕ → List (Bucket K) → List (Bucket K)
  touch t e = update_all (entry_bucket e (keyhash t (key_of e)))

  after-after :
      (t : Iblt K) (d e : Entry K)
      → after (after t d) e ≡ record t {
        buckets = touch t e (spots t (key_of e)) (touch t d (spots t (key_of d)) t.buckets);
      }
  unfolding after
  after-after t d e =
      ap (λ ns. record t { buckets = touch t e ns (touch t d (spots t (key_of d)) t.buckets) })
        (spots-after t d (key_of e))

  pub after_comm : (t : Iblt K) (d e : Entry K) → after (after t d) e ≡ after (after t e) d
  after_comm t d e =
      after-after t d e
      ∙ ap (λ bs. record t { buckets = bs })
          (update_all_comm (entry_bucket e (keyhash t (key_of e)))
            (entry_bucket d (keyhash t (key_of d)))
            (entry_bucket_comm e d (keyhash t (key_of e)) (keyhash t (key_of d)))
            (spots t (key_of e)) (spots t (key_of d)) t.buckets)
      ∙ sym (after-after t e d)

  pub after_back : {t : Iblt K} (e : Entry K) → IsUsable t → after (after t e) (opposite e) ≡ t
  after_back {t} (inserted x) u =
      after-after t (inserted x) (deleted x)
      ∙ ap (λ bs. record t { buckets = bs })
          (update_all_back _ _
            (entry_bucket_comm (deleted x) (inserted x) (keyhash t x) (keyhash t x)) IsCounted
            (entry_bucket_back (inserted x) (keyhash t x)) (spots t x) t.buckets u.counted)
  after_back {t} (deleted x) u =
      after-after t (deleted x) (inserted x)
      ∙ ap (λ bs. record t { buckets = bs })
          (update_all_back _ _
            (entry_bucket_comm (inserted x) (deleted x) (keyhash t x) (keyhash t x)) IsCounted
            (entry_bucket_back (deleted x) (keyhash t x)) (spots t x) t.buckets u.counted)
