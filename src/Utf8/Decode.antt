-- ===== src/Utf8/Decode.antt =====
-- Every sequence that the code accepts is the encoding of a scalar value.
use native.Mathlib.Decide.{dec_lt}
use pgexporter.Prelude.{
  ℕ, ◌+◌, ◌*◌, ◌-◌, ◌≤◌, ◌<◌, ◌/◌, ◌%◌, ◌≡◌, ◌≢◌, ◌⊎◌, inl, inr, refl, true, List, [], ◌∷◌, ◌++◌,
  some, length, arith,
}
use pgexporter.Utf8.{second_ok, sequence_valid, next_sequence}
use pgexporter.Utf8.Encoding.{IsScalar, encode}
use pgexporter.Utf8.Sequence.{
  Continues, sequence_length-eq-range, encode_one, encode_two, encode_three, encode_four,
}

-- The first `n` bytes are the encoding of a scalar value.
abbrev pub Starts : List ℕ → ℕ → Type 0
Starts buf n =
    (cp : ℕ) × (rest : List ℕ) × IsScalar cp × (buf ≡ encode cp ++ rest) × (n ≡ length (encode cp))

take_one : (b : ℕ) (bs : List ℕ) (n : ℕ) → b < 0x80 → next_sequence (b ∷ bs) ≡ some n → n ≡ 1
unfolding next_sequence
take_one b bs n h e = ground (arith, sequence_length-eq-range b)

take_none :
    (b : ℕ) (bs : List ℕ) (n : ℕ) → 0x80 ≤ b → b < 0xC0 → ¬ (next_sequence (b ∷ bs) ≡ some n)
unfolding next_sequence
take_none b bs n h k e = ground (arith, sequence_length-eq-range b)

take_above :
    (b : ℕ) (bs : List ℕ) (n : ℕ) → 0xF8 ≤ b → b < 256 → ¬ (next_sequence (b ∷ bs) ≡ some n)
unfolding next_sequence
take_above b bs n h k e = ground (arith, sequence_length-eq-range b)

take_two :
    (b : ℕ) (bs : List ℕ) (n : ℕ)
    → 0xC0 ≤ b
    → b < 0xE0
    → next_sequence (b ∷ bs) ≡ some n
    → (c : ℕ) × (rest : List ℕ) × (bs ≡ c ∷ rest) × (0xC2 ≤ b) × Continues c × (n ≡ 2)
unfolding next_sequence sequence_valid
take_two b [] n h k e = absurd (ground (arith, sequence_length-eq-range b))
take_two b (c ∷ rest) n h k e = (
  c,
  rest,
  refl,
  ground (arith, sequence_length-eq-range b),
  ground (arith, sequence_length-eq-range b),
  ground (arith, sequence_length-eq-range b),
)

take_three :
    (b : ℕ) (bs : List ℕ) (n : ℕ)
    → 0xE0 ≤ b
    → b < 0xF0
    → next_sequence (b ∷ bs) ≡ some n
    → (c : ℕ) × (d : ℕ) × (rest : List ℕ) × (bs ≡ c ∷ d ∷ rest)
      × (second_ok b c ≡ true)
      × Continues d
      × (n ≡ 3)
unfolding next_sequence sequence_valid
take_three b [] n h k e = absurd (ground (arith, sequence_length-eq-range b))
take_three b (c ∷ []) n h k e = absurd (ground (arith, sequence_length-eq-range b))
take_three b (c ∷ d ∷ rest) n h k e = (
  c,
  d,
  rest,
  refl,
  ground (arith, sequence_length-eq-range b),
  ground (arith, sequence_length-eq-range b),
  ground (arith, sequence_length-eq-range b),
)

take_four :
    (b : ℕ) (bs : List ℕ) (n : ℕ)
    → 0xF0 ≤ b
    → b < 0xF8
    → next_sequence (b ∷ bs) ≡ some n
    → (c : ℕ) × (d : ℕ) × (e : ℕ) × (rest : List ℕ) × (bs ≡ c ∷ d ∷ e ∷ rest)
      × (second_ok b c ≡ true)
      × (b ≤ 0xF4)
      × Continues d
      × Continues e
      × (n ≡ 4)
unfolding next_sequence sequence_valid
take_four b [] n h k e = absurd (ground (arith, sequence_length-eq-range b))
take_four b (c ∷ []) n h k e = absurd (ground (arith, sequence_length-eq-range b))
take_four b (c ∷ d ∷ []) n h k e = absurd (ground (arith, sequence_length-eq-range b))
take_four b (c ∷ d ∷ f ∷ rest) n h k e = (
  c,
  d,
  f,
  rest,
  refl,
  ground (arith, sequence_length-eq-range b),
  ground (arith, sequence_length-eq-range b),
  ground (arith, sequence_length-eq-range b),
  ground (arith, sequence_length-eq-range b),
  ground (arith, sequence_length-eq-range b),
)

-- The values of the two, three and four byte forms.
value_two :
    (b c : ℕ)
    → 0xC2 ≤ b
    → b < 0xE0
    → Continues c
    → let cp = (b - 0xC0) * 64 + (c - 0x80) in IsScalar cp × (encode cp ≡ b ∷ c ∷ [])
value_two b c h k m = (
  omega arith,
  rw (encode_two ((b - 0xC0) * 64 + (c - 0x80)) (omega arith) (omega arith)) (ground arith),
)

second_range :
    (b c : ℕ)
    → second_ok b c ≡ true
    → (0x80 ≤ c)
      × (c ≤ 0xBF)
      × ((b ≢ 0xE0) ⊎ (0xA0 ≤ c))
      × ((b ≢ 0xED) ⊎ (c ≤ 0x9F))
      × ((b ≢ 0xF0) ⊎ (0x90 ≤ c))
      × ((b ≢ 0xF4) ⊎ (c ≤ 0x8F))
second_range b c h = ground arith

-- Base 64 digits read back from the number that they make.
digits_three :
    (x y z b c d : ℕ)
    → b ≡ 0xE0 + x
    → c ≡ 0x80 + y
    → d ≡ 0x80 + z
    → y < 64
    → z < 64
    → let cp = x * 4096 + y * 64 + z in
      ◌≡◌ {A = List ℕ}
        ((0xE0 + cp / 4096) ∷ (0x80 + cp / 64 % 64) ∷ (0x80 + cp % 64) ∷ [])
        (b ∷ c ∷ d ∷ [])
digits_three x y z b c d p q r h k = ap₃ (omega arith) (omega arith) (omega arith)
  where
    ap₃ :
        {a b c a' b' c' : ℕ}
        → a ≡ a'
        → b ≡ b'
        → c ≡ c'
        → ◌≡◌ {A = List ℕ} (a ∷ b ∷ c ∷ []) (a' ∷ b' ∷ c' ∷ [])
    ap₃ e f g = cc

digits_four :
    (x y z w b c d e : ℕ)
    → b ≡ 0xF0 + x
    → c ≡ 0x80 + y
    → d ≡ 0x80 + z
    → e ≡ 0x80 + w
    → y < 64
    → z < 64
    → w < 64
    → let cp = x * 262144 + y * 4096 + z * 64 + w in
      ◌≡◌ {A = List ℕ}
        ((0xF0 + cp / 262144)
          ∷ (0x80 + cp / 4096 % 64)
          ∷ (0x80 + cp / 64 % 64)
          ∷ (0x80 + cp % 64)
          ∷ [])
        (b ∷ c ∷ d ∷ e ∷ [])
digits_four x y z w b c d e p q r s h k l =
    ap₄ (omega arith) (omega arith) (omega arith) (omega arith)
  where
    ap₄ :
        {a b c d a' b' c' d' : ℕ}
        → a ≡ a'
        → b ≡ b'
        → c ≡ c'
        → d ≡ d'
        → ◌≡◌ {A = List ℕ} (a ∷ b ∷ c ∷ d ∷ []) (a' ∷ b' ∷ c' ∷ d' ∷ [])
    ap₄ e f g h = cc

value_three :
    (b c d : ℕ)
    → 0xE0 ≤ b
    → b < 0xF0
    → second_ok b c ≡ true
    → Continues d
    → let cp = (b - 0xE0) * 4096 + (c - 0x80) * 64 + (d - 0x80) in
      IsScalar cp × (encode cp ≡ b ∷ c ∷ d ∷ [])
value_three b c d h k m n =
    let cp = (b - 0xE0) * 4096 + (c - 0x80) * 64 + (d - 0x80) in
    let range = second_range b c m in
    (
      elim (dec_lt b 0xEE) [ yes p ↦ inl (omega arith) | no p ↦ inr (omega arith, omega arith) ],
      rw (encode_three cp (omega arith) (omega arith)) (
          digits_three (b - 0xE0) (c - 0x80) (d - 0x80) b c d (omega arith) (omega arith)
            (omega arith) (omega arith) (omega arith)),
    )

value_four :
    (b c d e : ℕ)
    → 0xF0 ≤ b
    → b ≤ 0xF4
    → second_ok b c ≡ true
    → Continues d
    → Continues e
    → let cp = (b - 0xF0) * 262144 + (c - 0x80) * 4096 + (d - 0x80) * 64 + (e - 0x80) in
      IsScalar cp × (encode cp ≡ b ∷ c ∷ d ∷ e ∷ [])
value_four b c d e h k m n q =
    let cp = (b - 0xF0) * 262144 + (c - 0x80) * 4096 + (d - 0x80) * 64 + (e - 0x80) in
    let range = second_range b c m in
    (
      inr (omega arith, omega arith),
      rw (encode_four cp (omega arith)) (
          digits_four (b - 0xF0) (c - 0x80) (d - 0x80) (e - 0x80) b c d e (omega arith)
            (omega arith) (omega arith) (omega arith) (omega arith) (omega arith) (omega arith)),
    )

-- What the code takes from the front of a buffer is the encoding of a scalar value.
pub next-Starts :
    (b : ℕ) (bs : List ℕ) (n : ℕ) → b < 256 → next_sequence (b ∷ bs) ≡ some n → Starts (b ∷ bs) n
next-Starts b bs n h e = elim (dec_lt b 0x80) [
  | yes p ↦ (
    b,
    bs,
    inl (omega arith),
    rw (encode_one b p) refl,
    rw (encode_one b p) (take_one b bs n p e),
  )
  | no p ↦ elim (dec_lt b 0xC0) [
    | yes q ↦ absurd (take_none b bs n (omega arith) q e)
    | no q ↦ elim (dec_lt b 0xE0) [
      | yes r ↦
          let t = take_two b bs n (omega arith) r e in
          let v = value_two b t.0 t.3 r t.4 in (_, t.1, v.0, rw (v.1, t.2) refl, rw v.1 t.5)
      | no r ↦ elim (dec_lt b 0xF0) [
        | yes u ↦
            let t = take_three b bs n (omega arith) u e in
            let v = value_three b t.0 t.1 (omega arith) u t.4 t.5 in
            (_, t.2, v.0, rw (v.1, t.3) refl, rw v.1 t.6)
        | no u ↦ elim (dec_lt b 0xF8) [
          | yes w ↦
              let t = take_four b bs n (omega arith) w e in
              let v = value_four b t.0 t.1 t.2 (omega arith) t.6 t.5 t.7 t.8 in
              (_, t.3, v.0, rw (v.1, t.4) refl, rw v.1 t.9)
          | no w ↦ absurd (take_above b bs n (omega arith) h e)
        ]
      ]
    ]
  ]
]
