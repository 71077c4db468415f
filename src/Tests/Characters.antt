-- ===== src/Tests/Characters.antt =====
-- src/libpgexporter/utf8.c at concrete buffers.
use pgexporter.Prelude.{ℕ, ◌≡◌, ◌↔◌, refl, true, false, List, [], ◌∷◌, none, some, arith}
use pgexporter.Utf8.{
  utf8_valid, char_length, is_ascii, sequence_length, sequence_valid, next_sequence,
}
use pgexporter.Utf8.Encoding.{encode_all, AllScalar, AllBytes}
use pgexporter.Utf8.Buffer.{
  IsEncoded, utf8_valid_iff, char_length-encode_all, char_length-none, ascii_lem,
}

-- one character of each length
abbrev mixed : List ℕ
mixed = 0x41 ∷ 0xC3 ∷ 0xA9 ∷ 0xE2 ∷ 0x82 ∷ 0xAC ∷ 0xF0 ∷ 0x9F ∷ 0x98 ∷ 0x80 ∷ []

mixed_length : char_length mixed ≡ some 4
unfolding char_length next_sequence sequence_length sequence_valid
mixed_length = refl

surrogate : utf8_valid (0xED ∷ 0xA0 ∷ 0x80 ∷ []) ≡ false
unfolding utf8_valid next_sequence sequence_length sequence_valid
surrogate = refl

overlong : utf8_valid (0xC0 ∷ 0xAF ∷ []) ≡ false
unfolding utf8_valid next_sequence sequence_length sequence_valid
overlong = refl

truncated : char_length (0x41 ∷ 0xE2 ∷ 0x82 ∷ []) ≡ none
unfolding char_length next_sequence sequence_length sequence_valid
truncated = refl

mixed_bytes : AllBytes mixed
mixed_bytes = omega arith

abbrev points : List ℕ
points = 0x41 ∷ 0xE9 ∷ 0x20AC ∷ 0x1F600 ∷ []

points_scalar : AllScalar points
points_scalar = omega arith

utf8_valid_iff_example : (utf8_valid mixed ≡ true) ↔ IsEncoded mixed
utf8_valid_iff_example = utf8_valid_iff mixed mixed_bytes

char_length-encode_all_example : char_length (encode_all points) ≡ some 4
char_length-encode_all_example = char_length-encode_all points points_scalar

char_length-none_example :
    (char_length (0xED ∷ 0xA0 ∷ 0x80 ∷ []) ≡ none) ↔ (utf8_valid (0xED ∷ 0xA0 ∷ 0x80 ∷ []) ≡ false)
char_length-none_example = char_length-none (0xED ∷ 0xA0 ∷ 0x80 ∷ [])

is_ascii_run : is_ascii (0x70 ∷ 0x67 ∷ []) ≡ true
unfolding is_ascii
is_ascii_run = refl

ascii_lem_example :
    (utf8_valid (0x70 ∷ 0x67 ∷ []) ≡ true) × (char_length (0x70 ∷ 0x67 ∷ []) ≡ some 2)
ascii_lem_example = ascii_lem (0x70 ∷ 0x67 ∷ []) is_ascii_run
