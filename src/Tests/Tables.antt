-- ===== src/Tests/Tables.antt =====
-- Small tables of peer addresses, under a hash function for tests, and sketches of them.
use mathlib.Core.List.{Permᴰ}
use defiads.Prelude.{
  ℕ, false, some, ◌+◌, ◌-◌, ◌*◌, ◌/◌, ◌%◌, ◌^◌, ◌≡◌, refl, List, [], ◌∷◌, ◌++◌, arith, ok, ◌>>=◌,
  Returns,
}
use native.Mathlib.Nat.{div_self}
use defiads.IbltKey.{IbltKey}
use defiads.BucketIterator.{selected, positions}
use defiads.BucketIterator.Rising.{IsBucketsOf, positions-IsBucketsOf}
use defiads.Iblt.{Iblt, Sip, deleted, new, insert_all, delete_all, substract}
use defiads.Iblt.Entries.{IsUsable, after}
use defiads.Iblt.Fresh.{fresh, fresh-IsUsable}
use defiads.Iblt.Order.{insert_all_perm}
use defiads.Iblt.Difference.{substract-insert_all}
use defiads.IbltIterator
use defiads.IbltIterator.{IbltIterator, decode}
use defiads.IbltIterator.Single.{decode-single}
use defiads.IbltIterator.Replay.{Replays, decode-Replays}
use defiads.Sketch.{Float}
use defiads.Keys.{NetAddress, net_address_key}
use defiads.Keys.Socket
use defiads.Keys.Socket.{v4, socket_address, socket_address-new}

abbrev pub sip : Sip
sip k0 k1 [] = (k0 * 31 + k1) % 2 ^ 64
sip k0 k1 (x ∷ xs) = (sip k0 k1 xs * 31 + x) % 2 ^ 64

abbrev key : IbltKey NetAddress
key = net_address_key sip

abbrev peer : ℕ → NetAddress
peer n = record { address = (n, (0, (0, (0, (0, (0, (0, (1, tt)))))))); port = 21919 }

abbrev peers : List NetAddress
peers = peer 1 ∷ peer 2 ∷ []

abbrev blank : Iblt NetAddress
blank = fresh ⦃key = key⦄ sip 7 4 3 5

blank-IsUsable : IsUsable ⦃key = key⦄ blank
blank-IsUsable = fresh-IsUsable ⦃key = key⦄ sip 7 4 3 5 (omega arith) (omega arith)

swapped : Permᴰ peers (peer 2 ∷ peer 1 ∷ [])
swapped = Permᴰ.swap refl refl

positions-IsBucketsOf_example :
    Returns
      (positions ⦃key = key⦄ 7 ((1, 2) ∷ (3, 4) ∷ []) (peer 1))
      (IsBucketsOf 7 (selected ⦃key = key⦄ 7 ((1, 2) ∷ (3, 4) ∷ []) (peer 1)))
positions-IsBucketsOf_example =
    positions-IsBucketsOf ⦃key = key⦄ 7 ((1, 2) ∷ (3, 4) ∷ []) (peer 1) (omega arith) (omega arith)

insert_all_perm_example :
    Returns
      (insert_all ⦃key = key⦄ blank peers)
      (λ t. insert_all ⦃key = key⦄ blank (peer 2 ∷ peer 1 ∷ []) ≡ ok t)
insert_all_perm_example = insert_all_perm ⦃key = key⦄ blank blank-IsUsable swapped

substract-insert_all_example :
    Returns
      (do
        t ← new ⦃key = key⦄ sip 7 4 3 5
        a ← insert_all ⦃key = key⦄ t (peers ++ peer 4 ∷ [])
        b ← insert_all ⦃key = key⦄ t (peer 3 ∷ peer 4 ∷ [])
        substract ⦃key = key⦄ a b)
      λ difference.
        (do
          t ← new ⦃key = key⦄ sip 7 4 3 5
          a ← insert_all ⦃key = key⦄ t peers
          delete_all ⦃key = key⦄ a (peer 3 ∷ []))
        ≡ ok difference
substract-insert_all_example =
    substract-insert_all ⦃key = key⦄ sip 7 4 3 5 peers (peer 3 ∷ []) (peer 4 ∷ []) (omega arith)
      (omega arith)

abbrev open_blank : IbltIterator NetAddress
open_blank = record { iblt = blank; queue = 2 ∷ 5 ∷ []; incomplete = false }

decode-Replays_example : Returns (decode ⦃key = key⦄ 9 open_blank) (Replays ⦃key = key⦄ blank)
decode-Replays_example = decode-Replays ⦃key = key⦄ 9 open_blank blank-IsUsable refl

decode-single_example :
    decode ⦃key = key⦄ 2 (
      IbltIterator.new ⦃key = key⦄
        (after ⦃key = key⦄ (fresh ⦃key = key⦄ sip 7 4 3 5) (deleted (peer 1))))
    ≡ ok (
        some (record {
          entries = deleted (peer 1) ∷ [];
          failed = false;
          rest = fresh ⦃key = key⦄ sip 7 4 3 5;
        }))
decode-single_example =
    decode-single ⦃key = key⦄ sip 7 4 3 5 0 (deleted (peer 1)) (omega arith) (omega arith)
      (omega arith)

-- Whole numbers in the place of floats.
abbrev pub float : Float
float = record {
  F32 = ℕ;
  from_u32 = λ n. n;
  to_u32 = λ n. n;
  plus = λ a b. a + b;
  less = λ a b. a - b;
  times = λ a b. a * b;
  over = λ a b. a / b;
  over_self = λ n pos small. div_self pos;
  one_less_one = refl;
  one_plus_one = refl;
  zero_over_two = refl;
  zero_times = λ n. omega arith;
  to_u32_zero = refl;
}

socket_address-new_example :
    socket_address (Socket.new (v4 192 168 0 7 21919)) ≡ some (v4 192 168 0 7 21919)
socket_address-new_example =
    socket_address-new (v4 192 168 0 7 21919) (omega arith, omega arith, omega arith, omega arith)
