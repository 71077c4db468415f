-- ===== src/Utf8/Sequence.antt =====
-- The head of a buffer is taken for a sequence exactly where it is the encoding of a scalar value.
use pgexporter.Prelude.{
  ℕ, zero, suc, ◌+◌, ◌/◌, ◌%◌, ◌≤◌, ◌<◌, ◌≡◌, refl, Bool, true, false, ◌&&◌, List, [], ◌∷◌, ◌++◌,
  Option, none, some, ltb, ◌==◌, if◌then◌else◌, length, arith,
}
use native.Mathlib.Decide.{dec_lt}
use pgexporter.Utf8.{second_ok, sequence_length, sequence_valid, next_sequence}
use pgexporter.Utf8.Encoding.{IsScalar, encode}

-- Whether a test passes for each of the first `k` values.
passes : (ℕ → Bool) → ℕ → Bool
passes test zero = true
passes test (suc k) = passes test k && test k

passes-at : (test : ℕ → Bool) (k v : ℕ) → v < k → passes test k ≡ true → test v ≡ true
unfolding passes
passes-at test zero v low run = absurd (omega arith)
passes-at test (suc k) v low run = ground (arith, passes-at test k v)

-- the lengths by ranges of the start byte
abbrev pub range_length : ℕ → Option ℕ
range_length b =
    if ltb b 0x80
    then some 1
    else (if ltb b 0xC0
        then none
        else (if ltb b 0xE0
            then some 2
            else (if ltb b 0xF0 then some 3 else (if ltb b 0xF8 then some 4 else none))))

abbrev same_option : Option ℕ → Option ℕ → Bool
same_option none none = true
same_option none (some m) = false
same_option (some n) none = false
same_option (some n) (some m) = n == m

eq_of_same_option : (x y : Option ℕ) → same_option x y ≡ true → x ≡ y
eq_of_same_option none none h = refl
eq_of_same_option none (some m) h = cc
eq_of_same_option (some n) none h = cc
eq_of_same_option (some n) (some m) h = ground arith

length_table : passes (λ b. same_option (sequence_length b) (range_length b)) 256 ≡ true
unfolding passes sequence_length
length_table = refl

-- The masks of the start byte select ranges.
pub sequence_length-eq-range : (b : ℕ) → b < 256 → sequence_length b ≡ range_length b
sequence_length-eq-range b h =
    eq_of_same_option (sequence_length b) (range_length b) (passes-at _ 256 b h length_table)

abbrev pub Continues : ℕ → Type 0
Continues b = (0x80 ≤ b) × (b ≤ 0xBF)

next_one : (b : ℕ) (rest : List ℕ) → b < 0x80 → next_sequence (b ∷ rest) ≡ some 1
unfolding next_sequence sequence_valid
next_one b rest h = ground (arith, sequence_length-eq-range b)

next_two :
    (b c : ℕ) (rest : List ℕ)
    → 0xC2 ≤ b
    → b < 0xE0
    → Continues c
    → next_sequence (b ∷ c ∷ rest) ≡ some 2
unfolding next_sequence sequence_valid
next_two b c rest h k m = ground (arith, sequence_length-eq-range b)

next_three :
    (b c d : ℕ) (rest : List ℕ)
    → 0xE0 ≤ b
    → b < 0xF0
    → second_ok b c ≡ true
    → Continues d
    → next_sequence (b ∷ c ∷ d ∷ rest) ≡ some 3
unfolding next_sequence sequence_valid
next_three b c d rest h k m n = ground (arith, sequence_length-eq-range b)

next_four :
    (b c d e : ℕ) (rest : List ℕ)
    → 0xF0 ≤ b
    → b ≤ 0xF4
    → second_ok b c ≡ true
    → Continues d
    → Continues e
    → next_sequence (b ∷ c ∷ d ∷ e ∷ rest) ≡ some 4
unfolding next_sequence sequence_valid
next_four b c d e rest h k m n q = ground (arith, sequence_length-eq-range b)

pub encode_one : (cp : ℕ) → cp < 0x80 → encode cp ≡ cp ∷ []
encode_one cp h = ground arith

pub encode_two :
    (cp : ℕ) → 0x80 ≤ cp → cp < 0x800 → encode cp ≡ (0xC0 + cp / 64) ∷ (0x80 + cp % 64) ∷ []
encode_two cp h k = ground arith

pub encode_three :
    (cp : ℕ)
    → 0x800 ≤ cp
    → cp < 0x10000
    → encode cp ≡ (0xE0 + cp / 4096) ∷ (0x80 + cp / 64 % 64) ∷ (0x80 + cp % 64) ∷ []
encode_three cp h k = ground arith

pub encode_four :
    (cp : ℕ)
    → 0x10000 ≤ cp
    → encode cp
      ≡ (0xF0 + cp / 262144)
        ∷ (0x80 + cp / 4096 % 64)
        ∷ (0x80 + cp / 64 % 64)
        ∷ (0x80 + cp % 64)
        ∷ []
encode_four cp h = ground arith

second_three :
    (cp : ℕ)
    → IsScalar cp
    → 0x800 ≤ cp
    → cp < 0x10000
    → second_ok (0xE0 + cp / 4096) (0x80 + cp / 64 % 64) ≡ true
second_three cp s h k = ground arith

second_four :
    (cp : ℕ)
    → 0x10000 ≤ cp
    → cp < 0x110000
    → second_ok (0xF0 + cp / 262144) (0x80 + cp / 4096 % 64) ≡ true
second_four cp h k = ground arith

-- The encoding of a scalar value, whatever follows it, is taken as one sequence.
pub next-encode :
    (cp : ℕ) (rest : List ℕ)
    → IsScalar cp
    → next_sequence (encode cp ++ rest) ≡ some (length (encode cp))
next-encode cp rest s = elim (dec_lt cp 0x80) [
  | yes a ↦ rw (encode_one cp a) (next_one cp rest a)
  | no a ↦ elim (dec_lt cp 0x800) [
    | yes b ↦
        rw (encode_two cp (omega arith) b)
          (next_two _ _ rest (omega arith) (omega arith) (omega arith))
    | no b ↦ elim (dec_lt cp 0x10000) [
      | yes c ↦ rw (encode_three cp (omega arith) c) (
          next_three _ _ _ rest (omega arith) (omega arith) (second_three cp s (omega arith) c)
            (omega arith))
      | no c ↦ rw (encode_four cp (omega arith)) (
          next_four _ _ _ _ rest (omega arith) (omega arith)
            (second_four cp (omega arith) (omega arith)) (omega arith) (omega arith))
    ]
  ]
]
