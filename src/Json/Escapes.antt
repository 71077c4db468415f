-- ===== src/Json/Escapes.antt =====
-- pgexporter_escape_string of src/libpgexporter/utils.c, and the reading of src/libpgexporter/json.c.
use mathlib.Core.Path.{subst}
use mathlib.Core.List.{append_assoc}
use pgexporter.Prelude.{
  ℕ, ◌≡◌, refl, sym, ap, ◌∙◌, inl, inr, false, some, [], ◌∷◌, ◌++◌, ◌==◌, Bool-cases, ==_iff,
}
use pgexporter.Text.{Bytes}
use pgexporter.Json.{quote, backslash, escape_char, escape, and_char, read_quoted}

-- A character that stands for itself.
read_plain :
    (c : ℕ) (t : Bytes)
    → (c == quote) ≡ false
    → (c == backslash) ≡ false
    → read_quoted (c ∷ t) ≡ and_char c (read_quoted t)
unfolding read_quoted
read_plain c [] e f = rw (e, read_quoted) refl
read_plain c (d ∷ t) e f = rw (e, f, read_quoted) refl

module _ (t : Bytes) where
  abbrev IsRead : ℕ → Type 0
  IsRead c = read_quoted (escape_char c ++ t) ≡ and_char c (read_quoted t)

  IsRead-backslash : IsRead backslash
  unfolding read_quoted
  IsRead-backslash = refl

  IsRead-quote : IsRead quote
  unfolding read_quoted
  IsRead-quote = refl

  IsRead-newline : IsRead 10
  unfolding read_quoted
  IsRead-newline = refl

  IsRead-tab : IsRead 9
  unfolding read_quoted
  IsRead-tab = refl

  IsRead-return : IsRead 13
  unfolding read_quoted
  IsRead-return = refl

  IsRead-escape_char : (c : ℕ) → IsRead c
  IsRead-escape_char c = elim (Bool-cases (c == backslash)) [
    | inl e ↦ subst IsRead (sym ((==_iff c backslash).0 e)) IsRead-backslash
    | inr e ↦ elim (Bool-cases (c == quote)) [
      | inl f ↦ subst IsRead (sym ((==_iff c quote).0 f)) IsRead-quote
      | inr f ↦ elim (Bool-cases (c == 10)) [
        | inl g ↦ subst IsRead (sym ((==_iff c 10).0 g)) IsRead-newline
        | inr g ↦ elim (Bool-cases (c == 9)) [
          | inl h ↦ subst IsRead (sym ((==_iff c 9).0 h)) IsRead-tab
          | inr h ↦ elim (Bool-cases (c == 13)) [
            | inl i ↦ subst IsRead (sym ((==_iff c 13).0 i)) IsRead-return
            | inr i ↦ rw (e, f, g, h, i) (read_plain c t f e)
          ]
        ]
      ]
    ]
  ]

-- The loop that reads a string up to its quote gives back any text from what
-- pgexporter_escape_string made of it, and leaves the quote and what follows.
pub read_quoted-escape :
    (s rest : Bytes) → read_quoted (escape s ++ (quote ∷ rest)) ≡ some (s, quote ∷ rest)
unfolding escape read_quoted
read_quoted-escape [] rest = at_quote rest
  where
    at_quote : (rest : Bytes) → read_quoted (quote ∷ rest) ≡ some ([], quote ∷ rest)
    at_quote [] = refl
    at_quote (c ∷ rest) = refl
read_quoted-escape (c ∷ s) rest =
    ap read_quoted (append_assoc (escape_char c) (escape s) (quote ∷ rest))
    ∙ IsRead-escape_char (escape s ++ (quote ∷ rest)) c
    ∙ ap (and_char c) (read_quoted-escape s rest)
