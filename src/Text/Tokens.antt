-- ===== src/Text/Tokens.antt =====
-- Words separated by one byte, as strtok gives them.
use mathlib.Core.List.{append_assoc, append-nil}
use pgexporter.Prelude.{ℕ, ◌≡◌, refl, ap, ◌∙◌, true, false, [], ◌∷◌, ◌++◌, ◌==◌, arith}
use pgexporter.Text.{Bytes, is_digit, before, tokens, tokens_from}
use pgexporter.Text.Decimal.{AllDigits}

-- The byte does not occur.
abbrev pub Free : ℕ → Bytes → Type 0
Free d [] = Unit
Free d (c ∷ cs) = ((c == d) ≡ false) × Free d cs

pub Free-append : (d : ℕ) (xs ys : Bytes) → Free d xs → Free d ys → Free d (xs ++ ys)
Free-append d [] ys f g = g
Free-append d (x ∷ xs) ys f g = (f.0, Free-append d xs ys f.1 g)

pub Free-of_digits : (d : ℕ) (xs : Bytes) → is_digit d ≡ false → AllDigits xs → Free d xs
Free-of_digits d [] n a = tt
Free-of_digits d (x ∷ xs) n a = (digit_ne x d n a.0, Free-of_digits d xs n a.1)
  where
    digit_ne : (x d : ℕ) → is_digit d ≡ false → is_digit x ≡ true → (x == d) ≡ false
    digit_ne x d n h = ground arith

pub before-Free : (d : ℕ) (xs : Bytes) → Free d xs → before d xs ≡ xs
unfolding before
before-Free d [] f = refl
before-Free d (x ∷ xs) f = rw f.0 (ap (λ l. x ∷ l) (before-Free d xs f.1))

word_then :
    (d t : ℕ) (ts xs rest : Bytes)
    → Free d xs
    → tokens_from d (t ∷ ts) (xs ++ (d ∷ rest)) ≡ (t ∷ (ts ++ xs)) ∷ tokens_from d [] rest
unfolding tokens_from
word_then d t ts [] rest f = rw (append-nil ts) (ground arith)
word_then d t ts (x ∷ xs) rest f = rw f.0 (
    word_then d t (ts ++ (x ∷ [])) xs rest f.1
    ∙ ap (λ l. (t ∷ l) ∷ tokens_from d [] rest) (append_assoc ts (x ∷ []) xs))

word_last :
    (d t : ℕ) (ts xs : Bytes) → Free d xs → tokens_from d (t ∷ ts) xs ≡ (t ∷ (ts ++ xs)) ∷ []
unfolding tokens_from
word_last d t ts [] f = rw (append-nil ts) refl
word_last d t ts (x ∷ xs) f =
    rw f.0
      (word_last d t (ts ++ (x ∷ [])) xs f.1 ∙ ap (λ l. (t ∷ l) ∷ []) (append_assoc ts (x ∷ []) xs))

tokens_start :
    (d x : ℕ) (xs : Bytes) → (x == d) ≡ false → tokens d (x ∷ xs) ≡ tokens_from d (x ∷ []) xs
unfolding tokens
tokens_start d x xs f = rw (f, tokens_from) refl

-- The first word and the tokens of the rest.
pub tokens_word :
    (d x : ℕ) (xs rest : Bytes)
    → Free d (x ∷ xs)
    → tokens d ((x ∷ xs) ++ (d ∷ rest)) ≡ (x ∷ xs) ∷ tokens d rest
unfolding tokens
tokens_word d x xs rest f = tokens_start d x (xs ++ (d ∷ rest)) f.0 ∙ word_then d x [] xs rest f.1

pub tokens_last : (d x : ℕ) (xs : Bytes) → Free d (x ∷ xs) → tokens d (x ∷ xs) ≡ (x ∷ xs) ∷ []
tokens_last d x xs f = tokens_start d x xs f.0 ∙ word_last d x [] xs f.1
