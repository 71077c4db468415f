-- ===== src/Json/Enough.antt =====
-- The rounds that pgexporter_json_parse_string of src/libpgexporter/json.c takes: two for a character.
use pgexporter.Prelude.{
  ℕ, zero, suc, inl, inr, Bool, true, false, ◌&&◌, ◌||◌, not, Option, none, some, [], ◌∷◌, ◌==◌,
  if◌then◌else◌, Bool-cases, length, arith,
}
use pgexporter.Text.{Bytes, is_space, skip_space}
use pgexporter.Json.{Json, unknown, quote, read_quoted, value_start, json_add}
use pgexporter.Json.Parse.{
  Task, start, in_item, in_array, skip_while, is_unknown, read_value, item_value, item_colon,
  item_key, item_quote, item_entry, item_open, array_value, array_entry, array_open, parse_step,
  parse_or, parse,
}
use pgexporter.Json.Shrink.{
  Fits, Fits-le, Fits-bind, skip_while-le, skip_space-le, read_quoted-Fits, read_value-Fits,
}

module _ {D : Type 0} (scan_double : Bytes → Option D) where
  -- What a continuation leaves, and how far it goes.
  pub record Leaves (again : Task D → Bytes → Option (Json D × Bytes)) : Type 0 where
    pub starts : (c : ℕ) (s : Bytes) → Fits (length s) (again start (c ∷ s))
    pub items : (o : Json D) (s : Bytes) → Fits (length s) (again (in_item o) s)
    pub arrays : (o : Json D) (s : Bytes) → Fits (length s) (again (in_array o) s)

  module _ (again : Task D → Bytes → Option (Json D × Bytes)) (l : Leaves again) where
    item_value-Fits :
        (o : Json D) (key s : Bytes) → Fits (length s) (item_value scan_double again o key s)
    item_value-Fits o key [] = tt
    item_value-Fits o key (c ∷ s) =
        Fits-bind (length s) (suc (length s)) (read_value scan_double again (c ∷ s)) _
          (read_value-Fits scan_double again l.starts c s)
          (λ v rest m.
            Fits-le (length rest) (suc (length s)) _ (omega arith)
              (l.items (json_add o (some key) v) rest))

    item_colon-Fits :
        (o : Json D) (key s : Bytes) → Fits (length s) (item_colon scan_double again o key s)
    item_colon-Fits o key [] = tt
    item_colon-Fits o key (c ∷ s) = guarded (c == b':') (suc (length s)) _ (
        Fits-le _ (suc (length s)) _ (skip_while-le (λ d. d == b':' || is_space d) (c ∷ s))
          (item_value-Fits o key (skip_while (λ d. d == b':' || is_space d) (c ∷ s))))
      where
        guarded :
            (b : Bool) (n : ℕ) (x : Option (Json D × Bytes))
            → Fits n x
            → Fits n (if b then x else none)
        guarded true n x f = f
        guarded false n x f = tt

    item_key-Fits :
        (o : Json D) (key s : Bytes) → Fits (length s) (item_key scan_double again o (key, s))
    item_key-Fits o [] s = tt
    item_key-Fits o (c ∷ key) s =
        Fits-le _ (length s) _ (skip_while-le (λ d. d == quote || is_space d) s)
          (item_colon-Fits o (c ∷ key) (skip_while (λ d. d == quote || is_space d) s))

    item_quote-Fits : (o : Json D) (s : Bytes) → Fits (length s) (item_quote scan_double again o s)
    item_quote-Fits o [] = tt
    item_quote-Fits o (c ∷ s) =
        Fits-bind (length s) (suc (length s)) (read_quoted s) (item_key scan_double again o)
          (read_quoted-Fits s)
          (λ key rest m.
            Fits-le (length rest) (suc (length s)) _ (omega arith) (item_key-Fits o key rest))

    item_entry-Fits : (o : Json D) (s : Bytes) → Fits (length s) (item_entry scan_double again o s)
    item_entry-Fits o s =
        Fits-le _ (length s) _ (skip_while-le (λ d. not (d == quote)) s)
          (item_quote-Fits o (skip_while (λ d. not (d == quote)) s))

    item_open-Fits : (o : Json D) (s : Bytes) → Fits (length s) (item_open scan_double again o s)
    item_open-Fits o [] = tt
    item_open-Fits o (c ∷ s) = elim (Bool-cases (c == b',')) [
      | inl e ↦
          rw (e, item_open)
            (Fits-le (length s) (suc (length s)) _ (omega arith) (item_entry-Fits o s))
      | inr e ↦ elim (Bool-cases (c == b'}')) [
        | inl f ↦ rw (e, f, item_open) (omega arith)
        | inr f ↦ elim (Bool-cases (c == quote && is_unknown o)) [
          | inl g ↦ rw (e, f, g, item_open) (item_entry-Fits o (c ∷ s))
          | inr g ↦ rw (e, f, g, item_open) tt
        ]
      ]
    ]

    array_value-Fits :
        (o : Json D) (s : Bytes) → Fits (length s) (array_value scan_double again o s)
    array_value-Fits o [] = tt
    array_value-Fits o (c ∷ s) =
        Fits-bind (length s) (suc (length s)) (read_value scan_double again (c ∷ s)) _
          (read_value-Fits scan_double again l.starts c s)
          (λ v rest m.
            Fits-le (length rest) (suc (length s)) _ (omega arith)
              (l.arrays (json_add o none v) rest))

    array_entry-Fits :
        (o : Json D) (s : Bytes) → Fits (length s) (array_entry scan_double again o s)
    array_entry-Fits o s =
        Fits-le _ (length s) _ (skip_while-le (λ d. not (value_start d)) s)
          (array_value-Fits o (skip_while (λ d. not (value_start d)) s))

    array_open-Fits : (o : Json D) (s : Bytes) → Fits (length s) (array_open scan_double again o s)
    array_open-Fits o [] = tt
    array_open-Fits o (c ∷ s) = elim (Bool-cases (c == b',')) [
      | inl e ↦
          rw (e, array_open)
            (Fits-le (length s) (suc (length s)) _ (omega arith) (array_entry-Fits o s))
      | inr e ↦ elim (Bool-cases (c == b']')) [
        | inl f ↦ rw (e, f, array_open) (omega arith)
        | inr f ↦ elim (Bool-cases (value_start c && is_unknown o)) [
          | inl g ↦ rw (e, f, g, array_open) (array_entry-Fits o (c ∷ s))
          | inr g ↦ rw (e, f, g, array_open) tt
        ]
      ]
    ]

    step-Leaves : Leaves (parse_step scan_double again)
    unfolding parse_step
    step-Leaves = record {
      starts = λ c s. first c s;
      items = λ o s. next_item o s;
      arrays = λ o s. next_array o s;
    }
      where
        first : (c : ℕ) (s : Bytes) → Fits (length s) (parse_step scan_double again start (c ∷ s))
        first c s = elim (Bool-cases (c == b'{')) [
          | inl e ↦ rw e (l.items unknown s)
          | inr e ↦ elim (Bool-cases (c == b'[')) [
            | inl f ↦ rw (e, f) (l.arrays unknown s)
            | inr f ↦ rw (e, f) tt
          ]
        ]

        next_item :
            (o : Json D) (s : Bytes) → Fits (length s) (parse_step scan_double again (in_item o) s)
        next_item o [] = omega arith
        next_item o (c ∷ s) =
            Fits-le _ (suc (length s)) _ (skip_space-le (c ∷ s))
              (item_open-Fits o (skip_space (c ∷ s)))

        next_array :
            (o : Json D) (s : Bytes) → Fits (length s) (parse_step scan_double again (in_array o) s)
        next_array o [] = omega arith
        next_array o (c ∷ s) =
            Fits-le _ (suc (length s)) _ (skip_space-le (c ∷ s))
              (array_open-Fits o (skip_space (c ∷ s)))

  pub parse-Leaves : (f : ℕ) → Leaves (parse scan_double f)
  unfolding parse parse_or
  parse-Leaves zero = record { starts = λ c s. tt; items = λ o s. tt; arrays = λ o s. tt }
  parse-Leaves (suc f) = step-Leaves (parse scan_double f) (parse-Leaves f)
