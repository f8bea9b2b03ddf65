-- ===== src/Tests/Texts.antt =====
-- An alphabet of two letters, and a compressor that leaves the bytes as they are.
use defiads.Prelude.{
  ℕ, ◌^◌, ◌<◌, ◌≡◌, refl, Bool, true, false, some, List, [], ◌∷◌, All, ap, arith, map, ok, ◌==◌,
  if◌then◌else◌,
}
use defiads.Text.{Codec, as_string, new, as_string-new}

abbrev pub letter : Bool → ℕ
letter true = 97
letter false = 98

abbrev pub letters : List ℕ → List Bool
letters [] = []
letters (u ∷ us) = (if u == 97 then true else false) ∷ letters us

pub letters-map : (s : List Bool) → letters (map letter s) ≡ s
letters-map [] = refl
letters-map (true ∷ s) = ap (◌∷◌ true) (letters-map s)
letters-map (false ∷ s) = ap (◌∷◌ false) (letters-map s)

pub map_small : (s : List Bool) → All (λ u. u < 2 ^ 16) (map letter s)
map_small [] = tt
map_small (true ∷ s) = (omega arith, map_small s)
map_small (false ∷ s) = (omega arith, map_small s)

abbrev pub codec : Codec
codec = record {
  Str = List Bool;
  utf8 = map letter;
  from_utf8 = λ d. some (letters d);
  encode_utf16 = map letter;
  from_utf16 = λ d. some (letters d);
  compress = λ d. d;
  decompress = λ d. some d;
  from_utf8-utf8 = λ s. ap some (letters-map s);
  from_utf16-encode = λ s. ap some (letters-map s);
  encode_utf16_small = map_small;
  decompress-compress = λ d. refl;
}

as_string-new_example :
    as_string codec (new codec (true ∷ false ∷ true ∷ [])) ≡ ok (some (true ∷ false ∷ true ∷ []))
as_string-new_example = as_string-new codec (true ∷ false ∷ true ∷ [])
