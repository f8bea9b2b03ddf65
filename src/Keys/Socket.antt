-- ===== src/Keys/Socket.antt =====
-- `NetAddress` of src/discovery.rs and the socket addresses of Rust's standard library.
use defiads.Prelude.{
  ℕ, ◌+◌, ◌*◌, ◌/◌, ◌%◌, ◌<◌, ◌≡◌, sym, ap, ap₂, Bool, false, ◌&&◌, ◌||◌, Option, none, some, arith,
  ◌==◌, if◌then◌else◌,
}
use defiads.Prelude.Array.{Array}
use defiads.Keys.{NetAddress}

-- An address of version 4 has four octets, one of version 6 eight segments, a flow and a scope.
pub data SocketAddr : Type 0 where
  v4 : ℕ → ℕ → ℕ → ℕ → ℕ → SocketAddr
  v6 : Array ℕ 8 → ℕ → ℕ → ℕ → SocketAddr

-- `Ipv4Addr::to_ipv6_mapped`
abbrev pub to_ipv6_mapped : ℕ → ℕ → ℕ → ℕ → Array ℕ 8
to_ipv6_mapped a b c d = (0, (0, (0, (0, (0, (65535, (a * 256 + b, (c * 256 + d, tt))))))))

-- The prefix `ONION`.
abbrev pub is_onion : Array ℕ 8 → Bool
is_onion (s0, (s1, (s2, rest))) = s0 == 64903 && (s1 == 55422 && s2 == 60227)

-- The test of `Ipv6Addr::to_ipv4`: five zeros, and then 0 or 0xffff.
abbrev pub is_ipv4 : Array ℕ 8 → Bool
is_ipv4 (s0, (s1, (s2, (s3, (s4, (s5, rest)))))) =
    s0 == 0 && (s1 == 0 && (s2 == 0 && (s3 == 0 && (s4 == 0 && (s5 == 0 || s5 == 65535)))))

-- The address of version 4 in the last two segments.
abbrev pub ipv4_of : Array ℕ 8 → ℕ → SocketAddr
ipv4_of (s0, (s1, (s2, (s3, (s4, (s5, (s6, (s7, end)))))))) port =
    v4 (s6 / 256) (s6 % 256) (s7 / 256) (s7 % 256) port

-- `NetAddress::new`
unfoldable pub new : SocketAddr → NetAddress
new (v4 a b c d port) = record { address = to_ipv6_mapped a b c d; port = port }
new (v6 segments port flowinfo scope_id) = record { address = segments; port = port }

-- `none` is the error `AddrNotAvailable`.
unfoldable pub socket_address : NetAddress → Option SocketAddr
socket_address n =
    if is_onion n.address
    then none
    else (if is_ipv4 n.address
        then some (ipv4_of n.address n.port)
        else some (v6 n.address n.port 0 0))

-- A socket that its network address names: octets fit eight bits, and an address of version 6 is no
-- onion address, is none of version 4 in disguise, and has no flow and no scope.
abbrev pub IsPlain : SocketAddr → Type 0
IsPlain (v4 a b c d port) = (a < 256) × (b < 256) × (c < 256) × (d < 256)
IsPlain (v6 segments port flowinfo scope_id) =
    (is_onion segments ≡ false) × (is_ipv4 segments ≡ false) × (flowinfo ≡ 0) × (scope_id ≡ 0)

v4_path :
    {a a' b b' c c' d d' : ℕ} (port : ℕ)
    → a ≡ a'
    → b ≡ b'
    → c ≡ c'
    → d ≡ d'
    → v4 a b c d port ≡ v4 a' b' c' d' port
v4_path port p q r s = λ i. v4 (p i) (q i) (r i) (s i) port

-- A plain socket comes back from its network address.
pub socket_address-new : (s : SocketAddr) → IsPlain s → socket_address (new s) ≡ some s
unfolding new socket_address
socket_address-new (v4 a b c d port) (p, q, r, s) =
    ap some (v4_path port (omega arith) (omega arith) (omega arith) (omega arith))
socket_address-new (v6 segments port flowinfo scope_id) (o, f, e, g) =
    rw (o, f) (ap₂ (λ x y. some (v6 segments port x y)) (sym e) (sym g))
