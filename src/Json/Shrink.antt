-- ===== src/Json/Shrink.antt =====
-- Reading in src/libpgexporter/json.c leaves less of the text than there was.
use pgexporter.Prelude.{
  ℕ, suc, ◌≤◌, ◌≡◌, refl, inl, inr, Bool, true, ◌||◌, Option, none, some, [], ◌∷◌, ◌==◌, Bool-cases,
  length, arith,
}
use pgexporter.Text.{Bytes, is_lower, is_space, skip_space}
use pgexporter.Json.{
  Json, quote, backslash, unescape, and_char, bind, read_quoted, span, is_numeric, number_start,
}
use pgexporter.Json.Parse.{
  Task, start, skip_while, number_value, word_value, text_value, with_rest, read_value,
}

-- What is left of the text, if anything was read, has `n` characters at most.
abbrev pub Fits {ℓ} : {A : Type ℓ} → ℕ → Option (A × Bytes) → Type 0
Fits n none = Unit
Fits n (some (a, rest)) = length rest ≤ n

module _ {ℓ} {A : Type ℓ} where
  pub Fits-le : (m n : ℕ) (o : Option (A × Bytes)) → m ≤ n → Fits m o → Fits n o
  Fits-le m n none l f = tt
  Fits-le m n (some (a, rest)) l f = omega arith

  pub Fits-bind {κ} :
      {B : Type κ} (m n : ℕ) (o : Option (A × Bytes)) (k : A × Bytes → Option (B × Bytes))
      → Fits m o
      → ((a : A) (rest : Bytes) → length rest ≤ m → Fits n (k (a, rest)))
      → Fits n (bind o k)
  Fits-bind m n none k f g = tt
  Fits-bind m n (some (a, rest)) k f g = g a rest f

  -- Only the texts that can be left matter to what goes on with them.
  pub bind_same {κ} :
      {B : Type κ} (m : ℕ) (o : Option (A × Bytes)) (k k' : A × Bytes → Option B)
      → Fits m o
      → ((a : A) (rest : Bytes) → length rest ≤ m → k (a, rest) ≡ k' (a, rest))
      → bind o k ≡ bind o k'
  bind_same m none k k' f g = refl
  bind_same m (some (a, rest)) k k' f g = g a rest f

pub skip_while-le : (test : ℕ → Bool) (s : Bytes) → length (skip_while test s) ≤ length s
skip_while-le test [] = omega arith
skip_while-le test (c ∷ s) = elim (Bool-cases (test c)) [
  | inl e ↦ rw e (omega (arith, skip_while-le test s))
  | inr e ↦ rw e (omega arith)
]

pub skip_space-le : (s : Bytes) → length (skip_space s) ≤ length s
unfolding skip_space
skip_space-le [] = omega arith
skip_space-le (c ∷ s) = elim (Bool-cases (is_space c)) [
  | inl e ↦ rw e (omega (arith, skip_space-le s))
  | inr e ↦ rw e (omega arith)
]

span-le : (test : ℕ → Bool) (s : Bytes) → length (span test s).1 ≤ length s
unfolding span
span-le test [] = omega arith
span-le test (c ∷ s) = elim (Bool-cases (test c)) [
  | inl e ↦ rw e (omega (arith, span-le test s))
  | inr e ↦ rw e (omega arith)
]

span_one :
    (test : ℕ → Bool) (c : ℕ) (s : Bytes) → test c ≡ true → length (span test (c ∷ s)).1 ≤ length s
unfolding span
span_one test c s e = rw e (span-le test s)

and_char-Fits : (n c : ℕ) (o : Option (Bytes × Bytes)) → Fits n o → Fits n (and_char c o)
and_char-Fits n c none f = tt
and_char-Fits n c (some (s, rest)) f = f

pub read_quoted-Fits : (s : Bytes) → Fits (length s) (read_quoted s)
unfolding read_quoted
read_quoted-Fits [] = tt
read_quoted-Fits (c ∷ []) = elim (Bool-cases (c == quote)) [
  | inl e ↦ rw (e, read_quoted) (omega arith)
  | inr e ↦ rw (e, read_quoted) tt
]
read_quoted-Fits (c ∷ d ∷ s) = elim (Bool-cases (c == quote)) [
  | inl e ↦ rw (e, read_quoted) (omega arith)
  | inr e ↦ elim (Bool-cases (c == backslash)) [
    | inl f ↦ rw (e, f, read_quoted) (escaped (unescape d) (read_quoted-Fits s))
    | inr f ↦
        rw (e, f, read_quoted)
          (Fits-le (length (d ∷ s)) (suc (suc (length s))) _ (omega arith)
            (and_char-Fits (length (d ∷ s)) c _ (read_quoted-Fits (d ∷ s))))
  ]
]
  where
    escaped :
        (o : Option ℕ)
        → Fits (length s) (read_quoted s)
        → Fits (suc (suc (length s))) (elim o [ none ↦ none | some x ↦ and_char x (read_quoted s) ])
    escaped none f = tt
    escaped (some x) f =
        Fits-le (length s) (suc (suc (length s))) _ (omega arith) (and_char-Fits (length s) x _ f)

text_value-Fits :
    (D : Type 0) (n : ℕ) (o : Option (Bytes × Bytes)) → Fits n o → Fits n (text_value {D = D} o)
text_value-Fits D n none f = tt
text_value-Fits D n (some (s, [])) f = tt
text_value-Fits D n (some (s, c ∷ rest)) f = omega arith

module _ {D : Type 0} where
  with_rest-Fits :
      (n : ℕ) (o : Option (Json D)) (rest : Bytes) → length rest ≤ n → Fits n (with_rest o rest)
  with_rest-Fits n none rest l = tt
  with_rest-Fits n (some v) rest l = l

  module _ (scan_double : Bytes → Option D) (again : Task D → Bytes → Option (Json D × Bytes))
      (starts : (c : ℕ) (s : Bytes) → Fits (length s) (again start (c ∷ s))) where
    -- A value takes a character at least.
    pub read_value-Fits :
        (c : ℕ) (s : Bytes) → Fits (length s) (read_value scan_double again (c ∷ s))
    unfolding read_value
    read_value-Fits c s = elim (Bool-cases (c == quote)) [
      | inl e ↦
          rw (e, read_value) (text_value-Fits D (length s) (read_quoted s) (read_quoted-Fits s))
      | inr e ↦ elim (Bool-cases (number_start c)) [
        | inl f ↦
            rw (e, f, read_value)
              (with_rest-Fits (length s) (number_value scan_double (span is_numeric (c ∷ s)).0) _
                (span_one is_numeric c s (also_numeric c f)))
        | inr f ↦ elim (Bool-cases (c == b'{' || c == b'[')) [
          | inl g ↦ rw (e, f, g, read_value) (starts c s)
          | inr g ↦ elim (Bool-cases (c == b'n' || (c == b't' || c == b'f'))) [
            | inl h ↦
                rw (e, f, g, h, read_value)
                  (with_rest-Fits (length s) (word_value (span is_lower (c ∷ s)).0) _
                    (span_one is_lower c s (also_lower c h)))
            | inr h ↦ rw (e, f, g, h, read_value) tt
          ]
        ]
      ]
    ]
      where
        also_numeric : (c : ℕ) → number_start c ≡ true → is_numeric c ≡ true
        also_numeric c e = ground arith

        also_lower : (c : ℕ) → (c == b'n' || (c == b't' || c == b'f')) ≡ true → is_lower c ≡ true
        also_lower c e = ground arith
