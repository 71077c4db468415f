-- ===== src/Json/Values.antt =====
-- fill_value of src/libpgexporter/json.c on the text of a number, a word or a string, with a comma or
-- a closing bracket behind it.
use mathlib.Core.Path.{subst}
use mathlib.Core.List.{append_assoc, append-nil}
use pgexporter.Prelude.{
  ℕ, suc, ◌<◌, ◌^◌, ◌≡◌, refl, sym, ap, ◌∙◌, Bool, true, false, ◌||◌, Option, some, [], ◌∷◌, ◌++◌,
  ◌==◌, arith,
}
use pgexporter.Prelude.Int.{pos, negsuc}
use pgexporter.Text.{Bytes, codes, is_digit, is_lower, same, Scan, strtol, decimal_loop}
use pgexporter.Text.Decimal.{
  AllDigits, AllDigits-decimal, decimal-cons, strtol-decimal, strtol-negative,
}
use pgexporter.Json.{
  Json, number, boolean, no_text, text, quote, escape, read_quoted, span, is_numeric, number_start,
  has_point,
}
use pgexporter.Json.Parse.{Task, read_value, number_value, with_rest, text_value}
use pgexporter.Json.Print.{quoted}
use pgexporter.Json.Escapes.{read_quoted-escape}

-- What stands behind a value.
abbrev pub is_delim : ℕ → Bool
is_delim c = c == b',' || (c == b']' || c == b'}')

delim_not_numeric : (c : ℕ) → is_delim c ≡ true → is_numeric c ≡ false
delim_not_numeric c e = ground arith

delim_not_lower : (c : ℕ) → is_delim c ≡ true → is_lower c ≡ false
delim_not_lower c e = ground arith

digit_numeric : (c : ℕ) → is_digit c ≡ true → is_numeric c ≡ true
digit_numeric c e = rw e refl

digit_start : (c : ℕ) → is_digit c ≡ true → number_start c ≡ true
digit_start c e = rw e refl

digit_no_quote : (c : ℕ) → is_digit c ≡ true → (c == quote) ≡ false
digit_no_quote c e = ground arith

digit_no_point : (c : ℕ) → is_digit c ≡ true → (c == b'.') ≡ false
digit_no_point c e = ground arith

span_digits :
    (xs : Bytes) (c : ℕ) (r : Bytes)
    → AllDigits xs
    → is_numeric c ≡ false
    → span is_numeric (xs ++ (c ∷ r)) ≡ (xs, c ∷ r)
unfolding span
span_digits [] c r a e = rw e refl
span_digits (x ∷ xs) c r a e = rw (span_digits xs c r a.1 e, digit_numeric x a.0) refl

no_point : (xs : Bytes) → AllDigits xs → has_point xs ≡ false
no_point [] a = refl
no_point (x ∷ xs) a = rw (digit_no_point x a.0) (no_point xs a.1)

module _ {D : Type 0} (scan_double : Bytes → Option D)
    (again : Task D → Bytes → Option (Json D × Bytes)) where
  read_number :
      (x : ℕ) (xs : Bytes) (n : Scan) (c : ℕ) (r : Bytes)
      → (x == quote) ≡ false
      → number_start x ≡ true
      → span is_numeric (x ∷ (xs ++ (c ∷ r))) ≡ (x ∷ xs, c ∷ r)
      → has_point (x ∷ xs) ≡ false
      → strtol (x ∷ xs) ≡ some n
      → read_value scan_double again (x ∷ (xs ++ (c ∷ r))) ≡ some (number n.value, c ∷ r)
  unfolding read_value
  read_number x xs n c r e f g h i = rw (e, f, g, read_value) number_read
    where
      number_read :
          with_rest (number_value scan_double (x ∷ xs)) (c ∷ r) ≡ some (number n.value, c ∷ r)
      number_read = rw (h, i) refl

  read_digits_value :
      (x : ℕ) (xs : Bytes) (n : Scan) (c : ℕ) (r : Bytes)
      → AllDigits (x ∷ xs)
      → is_delim c ≡ true
      → strtol (x ∷ xs) ≡ some n
      → read_value scan_double again (x ∷ (xs ++ (c ∷ r))) ≡ some (number n.value, c ∷ r)
  read_digits_value x xs n c r a e =
      read_number x xs n c r (digit_no_quote x a.0) (digit_start x a.0)
        (span_digits (x ∷ xs) c r a (delim_not_numeric c e)) (no_point (x ∷ xs) a)

  pub read_decimal :
      (n : ℕ) (c : ℕ) (r : Bytes)
      → n < 2 ^ 63
      → is_delim c ≡ true
      → read_value scan_double again (decimal_loop n n ++ (c ∷ r)) ≡ some (number (pos n), c ∷ r)
  read_decimal n c r l e =
      let start = decimal-cons n n in
      subst
        (λ s.
          AllDigits s
          → strtol s ≡ some record { value = pos n; rest = []; overflow = false }
          → read_value scan_double again (s ++ (c ∷ r)) ≡ some (number (pos n), c ∷ r))
        (sym start.2) (λ a f. read_digits_value start.0 start.1 _ c r a e f) (AllDigits-decimal n n)
        (ap strtol (sym (append-nil (decimal_loop n n))) ∙ strtol-decimal n [] l tt)

  pub read_negative :
      (n : ℕ) (c : ℕ) (r : Bytes)
      → n < 2 ^ 63
      → is_delim c ≡ true
      → read_value scan_double again (b'-' ∷ (decimal_loop (suc n) (suc n) ++ (c ∷ r)))
        ≡ some (number (negsuc n), c ∷ r)
  unfolding span
  read_negative n c r l e =
      let digits = AllDigits-decimal (suc n) (suc n) in
      read_number b'-' (decimal_loop (suc n) (suc n)) _ c r refl refl
        (rw (span_digits (decimal_loop (suc n) (suc n)) c r digits (delim_not_numeric c e)) refl)
        (no_point (decimal_loop (suc n) (suc n)) digits)
        (ap (λ s. strtol (b'-' ∷ s)) (sym (append-nil (decimal_loop (suc n) (suc n))))
          ∙ strtol-negative n [] l tt)

  module _ (c : ℕ) (r : Bytes) (e : is_delim c ≡ true) where
    pub read_true :
        read_value scan_double again (codes "true" ++ (c ∷ r)) ≡ some (boolean true, c ∷ r)
    unfolding read_value span same
    read_true = rw (delim_not_lower c e, read_value, span) refl

    pub read_false :
        read_value scan_double again (codes "false" ++ (c ∷ r)) ≡ some (boolean false, c ∷ r)
    unfolding read_value span same
    read_false = rw (delim_not_lower c e, read_value, span) refl

    pub read_null : read_value scan_double again (codes "null" ++ (c ∷ r)) ≡ some (no_text, c ∷ r)
    unfolding read_value span same
    read_null = rw (delim_not_lower c e, read_value, span) refl

  pub read_text :
      (s rest : Bytes) → read_value scan_double again (quoted s ++ rest) ≡ some (text s, rest)
  unfolding read_value quoted
  read_text s rest =
      ap text_value
        (ap read_quoted (append_assoc (escape s) (quote ∷ []) rest) ∙ read_quoted-escape s rest)
