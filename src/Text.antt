-- ===== src/Text.antt =====
-- src/text.rs: the text of an ad, in UTF-8 or UTF-16, compressed or not, whichever is shortest.
use defiads.Prelude.{
  ℕ, ◌+◌, ◌*◌, ◌/◌, ◌%◌, ◌<◌, ◌^◌, ◌≡◌, refl, bit_and, bit_or, Bool, not, Option, none, some, List,
  [], ◌∷◌, arith, ltb, ◌==◌, if◌then◌else◌, length, All, ap, ap₂, ◌∙◌, sym, subst, inl, inr,
  Bool-cases, Run, ok, panic,
}

-- What the code takes from Rust's strings and from the compressor `snap`: a string encoded and
-- decoded again is the string, a UTF-16 unit fits 16 bits, and compressed bytes decompress.
pub record Codec : Type 1 where
  pub Str : Type 0
  pub utf8 : Str → List ℕ
  pub from_utf8 : List ℕ → Option Str
  pub encode_utf16 : Str → List ℕ
  pub from_utf16 : List ℕ → Option Str
  pub compress : List ℕ → List ℕ
  pub decompress : List ℕ → Option (List ℕ)
  pub from_utf8-utf8 : (s : Str) → from_utf8 (utf8 s) ≡ some s
  pub from_utf16-encode : (s : Str) → from_utf16 (encode_utf16 s) ≡ some s
  pub encode_utf16_small : (s : Str) → All (λ u. u < 2 ^ 16) (encode_utf16 s)
  pub decompress-compress : (d : List ℕ) → decompress (compress d) ≡ some d

abbrev pub utf_16 : ℕ
utf_16 = 1

abbrev pub compressed_flag : ℕ
compressed_flag = 2

pub record Text : Type 0 where
  pub encoded : List ℕ

-- `write_u16::<LittleEndian>` of each unit, and the loop of `read_u16::<LittleEndian>` that ends when
-- fewer than two bytes are left.
unfoldable pub write_units : List ℕ → List ℕ
write_units [] = []
write_units (u ∷ us) = u % 256 ∷ u / 256 % 256 ∷ write_units us

unfoldable pub read_units : List ℕ → List ℕ
read_units (a ∷ b ∷ bs) = (a + b * 256) ∷ read_units bs
read_units bs = []

-- The two choices of `new`, each the flags and the data.
abbrev pub choose_unicode : List ℕ → List ℕ → ℕ × List ℕ
choose_unicode bytes units =
    if ltb (length bytes) (length units) then (0, bytes) else (utf_16, units)

abbrev pub choose_compression : (List ℕ → List ℕ) → ℕ × List ℕ → ℕ × List ℕ
choose_compression compress (flag, bytes) =
    if ltb (length (compress bytes)) (length bytes)
    then (bit_or flag compressed_flag, compress bytes)
    else (flag, bytes)

abbrev has_flag : ℕ → ℕ → Bool
has_flag byte flag = not (bit_and byte flag == 0)

module _ (c : Codec) where
  open c use {Str, utf8, from_utf8, encode_utf16, from_utf16, compress, decompress}

  unfoldable pub new : Str → Text
  unfolding write_units
  new s =
      let (flag, bytes) =
        choose_compression compress (choose_unicode (utf8 s) (write_units (encode_utf16 s))) in
      record { encoded = flag ∷ bytes }

  -- The end of `as_string`, on the decompressed data.
  abbrev pub decode_units : ℕ → List ℕ → Option Str
  decode_units flag bytes =
      if not (bit_and flag utf_16 == 0) then from_utf16 (read_units bytes) else from_utf8 bytes

  -- `none` is an error; the index 0 of an empty vector panics.
  unfoldable pub as_string : Text → Run (Option Str)
  unfolding read_units
  as_string t = elim (t.encoded) [
    | [] ↦ panic
    | flag ∷ bytes ↦
        if not (bit_and flag compressed_flag == 0)
        then elim (decompress bytes) [ none ↦ ok none | some d ↦ ok (decode_units flag d) ]
        else ok (decode_units flag bytes)
  ]

  -- `encoding`
  unfoldable pub encoding : Text → Run ℕ
  encoding t = elim (t.encoded) [ [] ↦ panic | flag ∷ _ ↦ ok flag ]

  read-write_units : (us : List ℕ) → All (λ u. u < 2 ^ 16) us → read_units (write_units us) ≡ us
  unfolding read_units write_units
  read-write_units [] h = refl
  read-write_units (u ∷ us) h = ap₂ ◌∷◌ (omega arith) (read-write_units us h.1)

  decode_chosen :
      (s : Str)
      → let (flag, bytes) = choose_unicode (utf8 s) (write_units (encode_utf16 s)) in
        (decode_units flag bytes ≡ some s)
        × (decode_units (bit_or flag compressed_flag) bytes ≡ some s)
        × ((bit_and flag compressed_flag ≡ 0)
            × (bit_and (bit_or flag compressed_flag) compressed_flag ≡ 2))
  decode_chosen s =
      let units = read-write_units (encode_utf16 s) (c.encode_utf16_small s) in
      elim (Bool-cases (ltb (length (utf8 s)) (length (write_units (encode_utf16 s))))) [
        | inl shorter ↦ rw shorter (c.from_utf8-utf8 s, c.from_utf8-utf8 s, (refl, refl))
        | inr longer ↦
            let e = ap from_utf16 units ∙ c.from_utf16-encode s in rw longer (e, e, (refl, refl))
      ]

  as_string_compressed :
      (s : Str) (flag : ℕ) (bytes : List ℕ)
      → bit_and flag compressed_flag ≡ 2
      → decode_units flag bytes ≡ some s
      → as_string (record { encoded = flag ∷ compress bytes }) ≡ ok (some s)
  unfolding as_string
  as_string_compressed s flag bytes on e = rw (on, c.decompress-compress bytes) (ap ok e)

  as_string_plain :
      (s : Str) (flag : ℕ) (bytes : List ℕ)
      → bit_and flag compressed_flag ≡ 0
      → decode_units flag bytes ≡ some s
      → as_string (record { encoded = flag ∷ bytes }) ≡ ok (some s)
  unfolding as_string
  as_string_plain s flag bytes off e = rw off (ap ok e)

  as_string-chosen :
      (s : Str) (flag : ℕ) (bytes : List ℕ)
      → decode_units flag bytes ≡ some s
      → decode_units (bit_or flag compressed_flag) bytes ≡ some s
      → bit_and flag compressed_flag ≡ 0
      → bit_and (bit_or flag compressed_flag) compressed_flag ≡ 2
      → let r = choose_compression compress (flag, bytes) in
        as_string (record { encoded = r.0 ∷ r.1 }) ≡ ok (some s)
  as_string-chosen s flag bytes plain packed off on =
      elim (Bool-cases (ltb (length (compress bytes)) (length bytes))) [
        | inl shorter ↦
            let e : choose_compression compress (flag, bytes)
                ≡ (bit_or flag compressed_flag, compress bytes) =
              rw shorter in
            subst Decodes (sym e) (as_string_compressed s _ bytes on packed)
        | inr longer ↦
            let e : choose_compression compress (flag, bytes) ≡ (flag, bytes) = rw longer in
            subst Decodes (sym e) (as_string_plain s flag bytes off plain)
      ]
    where
      Decodes : ℕ × List ℕ → Type 0
      Decodes r = as_string (record { encoded = r.0 ∷ r.1 }) ≡ ok (some s)

  -- Every string comes back from its text, whichever of the four encodings was chosen.
  pub as_string-new : (s : Str) → as_string (new s) ≡ ok (some s)
  unfolding new
  as_string-new s =
      let (plain, packed, (off, on)) = decode_chosen s in
      let r = choose_unicode (utf8 s) (write_units (encode_utf16 s)) in
      as_string-chosen s r.0 r.1 plain packed off on
