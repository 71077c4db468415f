-- ===== src/Utf8.antt =====
-- src/libpgexporter/utf8.c: validation of UTF-8 byte sequences and their length in characters.
-- A buffer is the list of its `len` bytes, each below 256; a pointer into it is the suffix from
-- there on, so `i + seq_length > len` says that the suffix is shorter than the sequence.
pub mod Encoding
pub mod Sequence
pub mod Decode
pub mod Buffer
use Prim.Native.Nat.{bit_and}
use pgexporter.Prelude.{
  ℕ, zero, suc, ◌+◌, ◌≤◌, ◌<◌, ◌≡◌, Bool, true, false, ◌&&◌, not, List, [], ◌∷◌, Option, none, some,
  ltb, leb, ◌==◌, if◌then◌else◌, length, get_or, drop,
}

-- `a < lo || a > hi` is the failure
abbrev pub within : ℕ → ℕ → ℕ → Bool
within lo hi a = leb lo a && leb a hi

-- case 2: the second byte, by the start byte
abbrev pub second_ok : ℕ → ℕ → Bool
second_ok first a =
    if first == 0xE0
    then within 0xA0 0xBF a
    else (if first == 0xED
        then within 0x80 0x9F a
        else (if first == 0xF0
            then within 0x90 0xBF a
            else (if first == 0xF4 then within 0x80 0x8F a else within 0x80 0xBF a)))

-- case 1: the start byte
abbrev pub first_ok : ℕ → Bool
first_ok a = not (leb 0x80 a && ltb a 0xC2) && leb a 0xF4

-- `pgexporter_utf8_sequence_valid`: the cases fall through from the last byte to the first.
unfoldable pub sequence_valid : List ℕ → ℕ → Bool
sequence_valid source zero = false
sequence_valid source (suc zero) = first_ok (get_or source 0 0)
sequence_valid source (suc (suc zero)) =
    second_ok (get_or source 0 0) (get_or source 1 0) && first_ok (get_or source 0 0)
sequence_valid source (suc (suc (suc zero))) =
    within 0x80 0xBF (get_or source 2 0)
    && (second_ok (get_or source 0 0) (get_or source 1 0) && first_ok (get_or source 0 0))
sequence_valid source (suc (suc (suc (suc zero)))) =
    within 0x80 0xBF (get_or source 3 0)
    && (within 0x80 0xBF (get_or source 2 0)
        && (second_ok (get_or source 0 0) (get_or source 1 0) && first_ok (get_or source 0 0)))
sequence_valid source (suc (suc (suc (suc (suc n))))) = false

-- `pgexporter_utf8_sequence_length`; `none` is -1.
unfoldable pub sequence_length : ℕ → Option ℕ
sequence_length first =
    if ltb first 0x80
    then some 1
    else (if bit_and first 0xE0 == 0xC0
        then some 2
        else (if bit_and first 0xF0 == 0xE0
            then some 3
            else (if bit_and first 0xF8 == 0xF0 then some 4 else none)))

-- One round of the loops: the length of the sequence at the head, if it is there and valid.
unfoldable pub next_sequence : List ℕ → Option ℕ
next_sequence buf = elim (sequence_length (get_or buf 0 0)) [
  | none ↦ none
  | some n ↦ (if ltb (length buf) n then none else (if sequence_valid buf n then some n else none))
]

-- The loop of `pgexporter_utf8_valid` on the bytes from `i` on. Each round takes at least one
-- byte, so as many rounds as bytes are enough; the last clause is not reached.
unfoldable pub valid_loop : ℕ → List ℕ → Bool
valid_loop fuel [] = true
valid_loop zero (b ∷ bs) = false
valid_loop (suc fuel) (b ∷ bs) = elim (next_sequence (b ∷ bs)) [
  | none ↦ false
  | some n ↦ valid_loop fuel (drop n (b ∷ bs))
]

unfoldable pub utf8_valid : List ℕ → Bool
unfolding valid_loop
utf8_valid buf = valid_loop (length buf) buf

-- The loop of `pgexporter_utf8_char_length`, with `count`; `none` is (size_t)-1.
unfoldable pub count_loop : ℕ → List ℕ → ℕ → Option ℕ
count_loop fuel [] count = some count
count_loop zero (b ∷ bs) count = none
count_loop (suc fuel) (b ∷ bs) count = elim (next_sequence (b ∷ bs)) [
  | none ↦ none
  | some n ↦ count_loop fuel (drop n (b ∷ bs)) (count + 1)
]

unfoldable pub char_length : List ℕ → Option ℕ
unfolding count_loop
char_length buf = count_loop (length buf) buf 0

-- `pgexporter_is_ascii`
unfoldable pub is_ascii : List ℕ → Bool
is_ascii [] = true
is_ascii (b ∷ bs) = not (ltb 127 b) && is_ascii bs
