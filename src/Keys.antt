-- ===== src/Keys.antt =====
-- The two key types of the program: `ContentKey` of src/content.rs, the digest of an ad, and
-- `NetAddress` of src/discovery.rs, the address of a peer.
pub mod Socket
use defiads.Prelude.{
  ℕ, ◌/◌, ◌%◌, ◌≡◌, ◌↔◌, Bool, true, [], ◌∷◌, ◌++◌, ap, bit_xor, bit_xor_comm, bit_xor_assoc,
  bit_xor_self, bit_xor-zero,
}
use defiads.Prelude.Array.{
  Array, xor_array, zeros, to_list, to_le_bytes, eq_array, eq_array_iff, xor_array_comm,
  xor_array_assoc, xor_array_self, xor_array-zeros,
}
use defiads.IbltKey.{IbltKey}
use defiads.Iblt.{Sip}

abbrev pub digest_len : ℕ
digest_len = 32

pub record ContentKey : Type 0 where
  pub digest : Array ℕ digest_len

-- `BitXorAssign`
unfoldable pub content_xor : ContentKey → ContentKey → ContentKey
content_xor a b = record { digest = xor_array digest_len a.digest b.digest }

-- `PartialEq`
unfoldable pub content_eq : ContentKey → ContentKey → Bool
content_eq a b = eq_array digest_len a.digest b.digest

unfoldable pub content_hash : Sip → ContentKey → ℕ → ℕ → ℕ
content_hash sip a k0 k1 = sip k0 k1 (to_list digest_len a.digest)

pub content_eq_iff : (a b : ContentKey) → (content_eq a b ≡ true) ↔ (a ≡ b)
unfolding content_eq
content_eq_iff a b = (
  λ h. ap (λ d. record { digest = d }) ((eq_array_iff digest_len a.digest b.digest).0 h),
  λ p. (eq_array_iff digest_len a.digest b.digest).1 (ap (λ (c : ContentKey). c.digest) p),
)

pub content_xor_comm : (a b : ContentKey) → content_xor a b ≡ content_xor b a
unfolding content_xor
content_xor_comm a b = ap (λ d. record { digest = d }) (xor_array_comm digest_len a.digest b.digest)

pub content_xor_assoc :
    (a b c : ContentKey) → content_xor (content_xor a b) c ≡ content_xor a (content_xor b c)
unfolding content_xor
content_xor_assoc a b c =
    ap (λ d. record { digest = d }) (xor_array_assoc digest_len a.digest b.digest c.digest)

pub content_xor_self : (a : ContentKey) → content_xor a a ≡ record { digest = zeros digest_len }
unfolding content_xor
content_xor_self a = ap (λ d. record { digest = d }) (xor_array_self digest_len a.digest)

pub content_xor-zeros : (a : ContentKey) → content_xor a (record { digest = zeros digest_len }) ≡ a
unfolding content_xor
content_xor-zeros a = ap (λ d. record { digest = d }) (xor_array-zeros digest_len a.digest)

abbrev pub content_key : Sip → IbltKey ContentKey
content_key sip = record {
  bitxor = content_xor;
  default = record { digest = zeros digest_len };
  hash_to_u64_with_keys = content_hash sip;
  bitxor_comm = content_xor_comm;
  bitxor_assoc = content_xor_assoc;
  bitxor_self = content_xor_self;
  bitxor-default = content_xor-zeros;
}

pub record NetAddress : Type 0 where
  pub address : Array ℕ 8
  pub port : ℕ

unfoldable pub net_xor : NetAddress → NetAddress → NetAddress
net_xor a b = record { address = xor_array 8 a.address b.address; port = bit_xor a.port b.port }

unfoldable pub net_hash : Sip → NetAddress → ℕ → ℕ → ℕ
net_hash sip a k0 k1 = sip k0 k1 (to_le_bytes 8 a.address ++ a.port % 256 ∷ a.port / 256 % 256 ∷ [])

abbrev pub no_address : NetAddress
no_address = record { address = zeros 8; port = 0 }

NetAddress_path : {a b : NetAddress} → a.address ≡ b.address → a.port ≡ b.port → a ≡ b
NetAddress_path p q = λ i. record { address = p i; port = q i }

pub net_xor_comm : (a b : NetAddress) → net_xor a b ≡ net_xor b a
unfolding net_xor
net_xor_comm a b =
    NetAddress_path (xor_array_comm 8 a.address b.address) (bit_xor_comm a.port b.port)

pub net_xor_assoc : (a b c : NetAddress) → net_xor (net_xor a b) c ≡ net_xor a (net_xor b c)
unfolding net_xor
net_xor_assoc a b c =
    NetAddress_path (xor_array_assoc 8 a.address b.address c.address)
      (bit_xor_assoc a.port b.port c.port)

pub net_xor_self : (a : NetAddress) → net_xor a a ≡ no_address
unfolding net_xor
net_xor_self a = NetAddress_path (xor_array_self 8 a.address) (bit_xor_self a.port)

pub net_xor-zeros : (a : NetAddress) → net_xor a no_address ≡ a
unfolding net_xor
net_xor-zeros a = NetAddress_path (xor_array-zeros 8 a.address) (bit_xor-zero a.port)

abbrev pub net_address_key : Sip → IbltKey NetAddress
net_address_key sip = record {
  bitxor = net_xor;
  default = no_address;
  hash_to_u64_with_keys = net_hash sip;
  bitxor_comm = net_xor_comm;
  bitxor_assoc = net_xor_assoc;
  bitxor_self = net_xor_self;
  bitxor-default = net_xor-zeros;
}
