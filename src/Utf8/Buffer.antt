-- ===== src/Utf8/Buffer.antt =====
-- Whole buffers: what is valid, and how long it is.
use pgexporter.Prelude.{
  ℕ, zero, suc, ◌+◌, ◌≤◌, ◌<◌, ◌≡◌, ◌↔◌, ◌⊎◌, refl, sym, ap, ◌∙◌, inl, inr, true, false, List, [],
  ◌∷◌, ◌++◌, none, some, Option-cases, length, drop, drop-length-append, length-append, arith,
}
use pgexporter.Utf8.{next_sequence, valid_loop, utf8_valid, count_loop, char_length, is_ascii}
use pgexporter.Utf8.Encoding.{IsScalar, encode, encode_all, AllScalar, AllBytes}
use pgexporter.Utf8.Sequence.{next-encode, encode_one, encode_two, encode_three, encode_four}
use mathlib.Core.Option.{some-ne-none}
use mathlib.Core.Path.{subst}
use native.Mathlib.Decide.{dec_lt}
use pgexporter.Utf8.Decode.{next-Starts}

encode-cons : (cp : ℕ) → (b : ℕ) × (bs : List ℕ) × (encode cp ≡ b ∷ bs)
encode-cons cp = elim (dec_lt cp 0x80) [
  | yes a ↦ (_, _, encode_one cp a)
  | no a ↦ elim (dec_lt cp 0x800) [
    | yes b ↦ (_, _, encode_two cp (omega arith) b)
    | no b ↦ elim (dec_lt cp 0x10000) [
      | yes c ↦ (_, _, encode_three cp (omega arith) c)
      | no c ↦ (_, _, encode_four cp (omega arith))
    ]
  ]
]

encode_pos : (cp : ℕ) → 0 < length (encode cp)
encode_pos cp = let start = encode-cons cp in rw start.2 (omega arith)

valid_step :
    (fuel b n : ℕ) (bs : List ℕ)
    → next_sequence (b ∷ bs) ≡ some n
    → valid_loop (suc fuel) (b ∷ bs) ≡ valid_loop fuel (drop n (b ∷ bs))
unfolding valid_loop
valid_step fuel b n bs e = rw (e, valid_loop) refl

count_step :
    (fuel b n count : ℕ) (bs : List ℕ)
    → next_sequence (b ∷ bs) ≡ some n
    → count_loop (suc fuel) (b ∷ bs) count ≡ count_loop fuel (drop n (b ∷ bs)) (count + 1)
unfolding count_loop
count_step fuel b n count bs e = rw (e, count_loop) refl

valid_stop :
    (fuel b : ℕ) (bs : List ℕ)
    → next_sequence (b ∷ bs) ≡ none
    → valid_loop (suc fuel) (b ∷ bs) ≡ false
unfolding valid_loop
valid_stop fuel b bs e = rw (e, valid_loop) refl

count_stop :
    (fuel b count : ℕ) (bs : List ℕ)
    → next_sequence (b ∷ bs) ≡ none
    → count_loop (suc fuel) (b ∷ bs) count ≡ none
unfolding count_loop
count_stop fuel b count bs e = rw (e, count_loop) refl

-- One scalar value is taken from the front.
count_loop-encode :
    (fuel cp count : ℕ) (rest : List ℕ)
    → IsScalar cp
    → count_loop (suc fuel) (encode cp ++ rest) count ≡ count_loop fuel rest (count + 1)
count_loop-encode fuel cp count rest s =
    let start = encode-cons cp in
    let front : encode cp ++ rest ≡ start.0 ∷ (start.1 ++ rest) = ap (λ x. x ++ rest) start.2 in
    let taken = next-encode cp rest s in
    ap (λ x. count_loop (suc fuel) x count) front
    ∙ count_step fuel start.0 (length (encode cp)) count (start.1 ++ rest)
        (ap next_sequence (sym front) ∙ taken)
    ∙ ap (λ x. count_loop fuel (drop (length (encode cp)) x) (count + 1)) (sym front)
    ∙ ap (λ x. count_loop fuel x (count + 1)) (drop-length-append (encode cp) rest)

-- Both loops agree on what is valid.
valid-eq-count :
    (fuel count : ℕ) (buf : List ℕ)
    → (valid_loop fuel buf ≡ true) × ((m : ℕ) × (count_loop fuel buf count ≡ some m))
      ⊎ (valid_loop fuel buf ≡ false) × (count_loop fuel buf count ≡ none)
unfolding valid_loop count_loop
valid-eq-count fuel count [] = inl (refl, (count, refl))
valid-eq-count zero count (b ∷ bs) = inr (refl, refl)
valid-eq-count (suc fuel) count (b ∷ bs) = elim (Option-cases (next_sequence (b ∷ bs))) [
  | inl n ↦ inr (valid_stop fuel b bs n, count_stop fuel b count bs n)
  | inr (n, e) ↦
      rw (valid_step fuel b n bs e, count_step fuel b n count bs e)
        (valid-eq-count fuel (count + 1) (drop n (b ∷ bs)))
]

count-encode_all :
    (fuel count : ℕ) (cps : List ℕ)
    → AllScalar cps
    → length (encode_all cps) ≤ fuel
    → count_loop fuel (encode_all cps) count ≡ some (count + length cps)
unfolding count_loop
count-encode_all fuel count [] s h = ap some (omega arith)
count-encode_all zero count (cp ∷ cps) s h =
    absurd (omega (arith, encode_pos cp, length-append (encode cp) (encode_all cps)))
count-encode_all (suc fuel) count (cp ∷ cps) s h =
    count_loop-encode fuel cp count (encode_all cps) s.0
    ∙ count-encode_all fuel (count + 1) cps s.1
        (omega (arith, encode_pos cp, length-append (encode cp) (encode_all cps)))
    ∙ ap some (omega arith)

-- The buffer is the encoding of a sequence of scalar values.
abbrev pub IsEncoded : List ℕ → Type 0
IsEncoded buf = (cps : List ℕ) × AllScalar cps × (buf ≡ encode_all cps)

AllBytes-rest : (xs ys : List ℕ) → AllBytes (xs ++ ys) → AllBytes ys
AllBytes-rest [] ys a = a
AllBytes-rest (x ∷ xs) ys a = AllBytes-rest xs ys a.1

valid_loop-IsEncoded :
    (fuel : ℕ) (buf : List ℕ) → AllBytes buf → valid_loop fuel buf ≡ true → IsEncoded buf
unfolding valid_loop
valid_loop-IsEncoded fuel [] a v = ([], tt, refl)
valid_loop-IsEncoded zero (b ∷ bs) a v = absurd (cc)
valid_loop-IsEncoded (suc fuel) (b ∷ bs) a v = elim (Option-cases (next_sequence (b ∷ bs))) [
  | inl n ↦ absurd (cc (valid_stop fuel b bs n))
  | inr (n, e) ↦
      let (cp, rest, scalar, parts, len) = next-Starts b bs n a.0 e in
      let after : drop n (b ∷ bs) ≡ rest =
        ap (λ k. drop k (b ∷ bs)) len
        ∙ ap (drop (length (encode cp))) parts
        ∙ drop-length-append (encode cp) rest in
      let v' = ap (valid_loop fuel) (sym after) ∙ sym (valid_step fuel b n bs e) ∙ v in
      let a' = AllBytes-rest (encode cp) rest (subst AllBytes parts a) in
      let (cps, scalars, eq) = valid_loop-IsEncoded fuel rest a' v' in
      (cp ∷ cps, (scalar, scalars), parts ∙ ap (λ x. encode cp ++ x) eq)
]

-- The length of the encoding of code points is their number.
pub char_length-encode_all :
    (cps : List ℕ) → AllScalar cps → char_length (encode_all cps) ≡ some (length cps)
unfolding char_length
char_length-encode_all cps s =
    count-encode_all (length (encode_all cps)) 0 cps s (omega arith) ∙ ap some (omega arith)

valid-encode_all : (cps : List ℕ) → AllScalar cps → utf8_valid (encode_all cps) ≡ true
unfolding utf8_valid char_length
valid-encode_all cps s = elim (valid-eq-count (length (encode_all cps)) 0 (encode_all cps)) [
  | inl v ↦ v.0
  | inr v ↦ absurd (some-ne-none (length cps) (sym (char_length-encode_all cps s) ∙ v.1))
]

-- A buffer is accepted exactly if it encodes a sequence of Unicode scalar values.
pub utf8_valid_iff : (buf : List ℕ) → AllBytes buf → (utf8_valid buf ≡ true) ↔ IsEncoded buf
unfolding utf8_valid
utf8_valid_iff buf a = (
  valid_loop-IsEncoded (length buf) buf a,
  λ e. subst (λ x. utf8_valid x ≡ true) (sym e.2) (valid-encode_all e.0 e.1),
)

-- (size_t)-1 is returned exactly for a buffer that is not valid.
pub char_length-none : (buf : List ℕ) → (char_length buf ≡ none) ↔ (utf8_valid buf ≡ false)
unfolding char_length utf8_valid
char_length-none buf = elim (valid-eq-count (length buf) 0 buf) [
  | inl v ↦ (λ n. cc (v.1.1), λ n. cc (v.0))
  | inr v ↦ (λ n. v.0, λ n. v.1)
]

ascii-encode_all : (buf : List ℕ) → is_ascii buf ≡ true → AllScalar buf × (encode_all buf ≡ buf)
unfolding is_ascii
ascii-encode_all [] h = (tt, refl)
ascii-encode_all (b ∷ bs) h =
    let low : b < 0x80 = ground arith in
    let rest = ascii-encode_all bs (ground arith) in
    ((inl (omega arith), rest.0), rw (encode_one b low) (ap (λ x. b ∷ x) rest.1))

-- Text in ASCII is valid, and as long in characters as in bytes.
pub ascii_lem :
    (buf : List ℕ)
    → is_ascii buf ≡ true
    → (utf8_valid buf ≡ true) × (char_length buf ≡ some (length buf))
ascii_lem buf h =
    let e = ascii-encode_all buf h in
    (
      subst (λ x. utf8_valid x ≡ true) e.1 (valid-encode_all buf e.0),
      subst (λ x. char_length x ≡ some (length buf)) e.1 (char_length-encode_all buf e.0),
    )
