-- ===== src/Json/Parse.antt =====
-- parse_string and fill_value of src/libpgexporter/json.c. Each step goes on with `again`, which is the
-- loop's next round or the call of parse_string for a value in it.
use pgexporter.Prelude.{
  ℕ, zero, suc, ◌+◌, ◌*◌, Bool, true, false, ◌&&◌, ◌||◌, not, Option, none, some, [], ◌∷◌, ltb,
  ◌==◌, if◌then◌else◌, length,
}
use pgexporter.Text.{Bytes, codes, is_lower, is_space, same, skip_space, strtol}
use pgexporter.Json.{
  Json, unknown, number, double, boolean, no_text, text, quote, bind, read_quoted, span, is_numeric,
  number_start, value_start, has_point, json_add,
}

-- What the loops of parse_string go on with.
pub data Task (D : Type 0) : Type 0 where
  start : Task D
  in_item : Json D → Task D
  in_array : Json D → Task D

abbrev pub skip_while : (ℕ → Bool) → Bytes → Bytes
skip_while test [] = []
skip_while test (c ∷ s) = if test c then skip_while test s else c ∷ s

module _ {D : Type 0} where
  abbrev pub is_unknown : Json D → Bool
  is_unknown unknown = true
  is_unknown _ = false

  abbrev pub word_value : Bytes → Option (Json D)
  word_value s =
      if same s (codes "null")
      then some no_text
      else if same s (codes "true")
      then some (boolean true)
      else if same s (codes "false")
      then some (boolean false)
      else none

  -- The loops leave a string at its quote, which is passed over.
  abbrev pub text_value : Option (Bytes × Bytes) → Option (Json D × Bytes)
  text_value none = none
  text_value (some (s, [])) = none
  text_value (some (s, c ∷ rest)) = some (text s, rest)

  abbrev pub with_rest : Option (Json D) → Bytes → Option (Json D × Bytes)
  with_rest none rest = none
  with_rest (some v) rest = some (v, rest)

-- The value of a number: sscanf with %lf is a parameter; with PRId64 it converts as strtol.
module _ {D : Type 0} (scan_double : Bytes → Option D) where
  abbrev pub number_value : Bytes → Option (Json D)
  number_value s =
      if has_point s
      then bind (scan_double s) (λ d. some (double d))
      else bind (strtol s) (λ n. some (number n.value))

  module _ (again : Task D → Bytes → Option (Json D × Bytes)) where
    -- fill_value, before the value is added.
    unfoldable pub read_value : Bytes → Option (Json D × Bytes)
    unfolding read_quoted span strtol same
    read_value [] = none
    read_value (c ∷ s) = elim (c == quote) [
      | true ↦ text_value (read_quoted s)
      | false ↦ elim (number_start c) [
        | true ↦
            (let (front, rest) = span is_numeric (c ∷ s) in with_rest (number_value front) rest)
        | false ↦ elim (c == b'{' || c == b'[') [
          | true ↦ again start (c ∷ s)
          | false ↦ elim (c == b'n' || (c == b't' || c == b'f')) [
            | true ↦
                (let (front, rest) = span is_lower (c ∷ s) in with_rest (word_value front) rest)
            | false ↦ none
          ]
        ]
      ]
    ]

    -- The loop of an item: the separator, the key, the colon and the value.
    abbrev pub item_value : Json D → Bytes → Bytes → Option (Json D × Bytes)
    item_value o key [] = none
    item_value o key (c ∷ s) =
        bind (read_value (c ∷ s)) (λ r. again (in_item (json_add o (some key) r.0)) r.1)

    abbrev pub item_colon : Json D → Bytes → Bytes → Option (Json D × Bytes)
    item_colon o key [] = none
    item_colon o key (c ∷ s) =
        if c == b':'
        then item_value o key (skip_while (λ d. d == b':' || is_space d) (c ∷ s))
        else none

    abbrev pub item_key : Json D → Bytes × Bytes → Option (Json D × Bytes)
    item_key o ([], rest) = none
    item_key o (c ∷ key, rest) =
        item_colon o (c ∷ key) (skip_while (λ d. d == quote || is_space d) rest)

    abbrev pub item_quote : Json D → Bytes → Option (Json D × Bytes)
    item_quote o [] = none
    item_quote o (c ∷ s) = bind (read_quoted s) (item_key o)

    abbrev pub item_entry : Json D → Bytes → Option (Json D × Bytes)
    item_entry o s = item_quote o (skip_while (λ d. not (d == quote)) s)

    abbrev pub item_open : Json D → Bytes → Option (Json D × Bytes)
    item_open o [] = none
    item_open o (c ∷ s) = elim (c == b',') [
      | true ↦ item_entry o s
      | false ↦ elim (c == b'}') [
        | true ↦ some (o, s)
        | false ↦ if c == quote && is_unknown o then item_entry o (c ∷ s) else none
      ]
    ]

    -- The loop of an array: the separator and the value.
    abbrev pub array_value : Json D → Bytes → Option (Json D × Bytes)
    array_value o [] = none
    array_value o (c ∷ s) =
        bind (read_value (c ∷ s)) (λ r. again (in_array (json_add o none r.0)) r.1)

    abbrev pub array_entry : Json D → Bytes → Option (Json D × Bytes)
    array_entry o s = array_value o (skip_while (λ d. not (value_start d)) s)

    abbrev pub array_open : Json D → Bytes → Option (Json D × Bytes)
    array_open o [] = none
    array_open o (c ∷ s) = elim (c == b',') [
      | true ↦ array_entry o s
      | false ↦ elim (c == b']') [
        | true ↦ some (o, s)
        | false ↦ if value_start c && is_unknown o then array_entry o (c ∷ s) else none
      ]
    ]

    unfoldable pub parse_step : Task D → Bytes → Option (Json D × Bytes)
    unfolding read_value skip_space
    parse_step start [] = none
    parse_step start (c ∷ s) =
        if c == b'{'
        then again (in_item unknown) s
        else if c == b'['
        then again (in_array unknown) s
        else none
    parse_step (in_item o) [] = some (o, [])
    parse_step (in_item o) (c ∷ s) = item_open o (skip_space (c ∷ s))
    parse_step (in_array o) [] = some (o, [])
    parse_step (in_array o) (c ∷ s) = array_open o (skip_space (c ∷ s))

  -- parse_string with as many rounds and calls below one another, and `stuck` where they run out.
  unfoldable pub parse_or : Option (Json D × Bytes) → ℕ → Task D → Bytes → Option (Json D × Bytes)
  unfolding parse_step
  parse_or stuck zero task s = stuck
  parse_or stuck (suc f) task s = parse_step (parse_or stuck f) task s

  unfoldable pub parse : ℕ → Task D → Bytes → Option (Json D × Bytes)
  unfolding parse_or
  parse f task s = parse_or none f task s

  -- pgexporter_json_parse_string
  unfoldable pub parse_string : Bytes → Option (Json D)
  unfolding parse parse_or
  parse_string s =
      if ltb (length s) 2 then none else bind (parse (2 * length s + 1) start s) (λ r. some r.0)
