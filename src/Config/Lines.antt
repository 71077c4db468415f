-- ===== src/Config/Lines.antt =====
-- The lines of the configuration files: extract_key_value of
-- src/libpgexporter/configuration.c, with its buffers left[MISC_LENGTH] and right[MISC_LENGTH].
pub mod Pair
use pgexporter.Prelude.{
  ℕ, zero, suc, ◌+◌, ◌≤◌, ◌<◌, ◌≡◌, refl, sym, ap, ◌∙◌, Bool, true, false, ◌&&◌, ◌||◌, List, [],
  ◌∷◌, ◌++◌, Option, none, some, ltb, lt→ltb, ◌==◌, if◌then◌else◌, length, length-append, arith,
}
use pgexporter.Text.{Bytes, before}
use pgexporter.Text.Tokens.{Free, Free-append, before-Free}
use pgexporter.Config.{misc_length}
use mathlib.Core.List.{reverse, reverse-append, reverse-reverse, append-nil, append_assoc}
use mathlib.Core.Path.{subst}

-- No = in the line, a key and its value, or a write behind one of the buffers.
pub data Line : Type 0 where
  no_pair : Line
  pair : (key value : Bytes) → Line
  overran : Line

-- Blanks and quotes before and behind a key, before a value, and behind a value.
abbrev pub around_key : ℕ → Bool
around_key c = c == 9 || c == 32 || c == b'"' || c == b'\''

abbrev pub before_value : ℕ → Bool
before_value c = c == b'=' || c == 32 || c == 9 || c == b'"' || c == b'\''

abbrev pub behind_value : ℕ → Bool
behind_value c = c == 9 || c == 32 || c == 13 || c == b'"' || c == b'\''

-- strchr(s, '='): the text before it, and from it on.
unfoldable pub split_equal : Bytes → Option (Bytes × Bytes)
split_equal [] = none
split_equal (c ∷ cs) =
    let rest = split_equal cs in
    if c == b'='
    then some ([], c ∷ cs)
    else elim rest [ none ↦ none | some halves ↦ some (c ∷ halves.0, halves.1) ]

-- The characters from the first one on that is not skipped: start_left and start_right.
unfoldable pub skip_start : (ℕ → Bool) → Bytes → Bytes
skip_start skipped [] = []
skip_start skipped (c ∷ cs) = let rest = skip_start skipped cs in if skipped c then rest else c ∷ cs

-- The loop from the end of a buffer.
unfoldable pub strip_end : (ℕ → Bool) → Bytes → Bytes
unfolding skip_start
strip_end stripped s = reverse (skip_start stripped (reverse s))

unfoldable pub occurs : ℕ → Bytes → Bool
occurs d [] = false
occurs d (c ∷ cs) = c == d || occurs d cs

-- The text from = on, up to the newline where this is the first of the line.
abbrev pub up_to_newline : Bytes → Bytes → Bytes
up_to_newline left from = if occurs 10 left then from else before 10 from

abbrev pub buffered : Bytes → Bytes → Line
buffered left right =
    if ltb (length left) misc_length && ltb (length right) misc_length
    then pair (strip_end around_key left) (strip_end behind_value right)
    else overran

unfoldable pub extract_key_value : Bytes → Line
unfolding split_equal skip_start strip_end occurs before
extract_key_value s = elim (split_equal s) [
  | none ↦ no_pair
  | some halves ↦
      buffered (skip_start around_key halves.0)
        (before b'#' (skip_start before_value (up_to_newline halves.0 halves.1)))
]
