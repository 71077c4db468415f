-- ===== src/Json/Rounds.antt =====
-- pgexporter_json_parse_string of src/libpgexporter/json.c ends: two rounds for a character and one
-- more never run out.
use pgexporter.Prelude.{
  ℕ, zero, suc, min, ◌+◌, ◌*◌, ◌≤◌, ◌≡◌, refl, ap, ◌∙◌, inl, inr, ◌&&◌, ◌||◌, not, Option, none,
  some, [], ◌∷◌, ◌==◌, if◌then◌else◌, ltb, Bool-cases, length, arith,
}
use pgexporter.Text.{Bytes, is_space, skip_space}
use pgexporter.Json.{Json, unknown, quote, bind, read_quoted, number_start, value_start, json_add}
use pgexporter.Json.Parse.{
  Task, start, in_item, in_array, skip_while, is_unknown, read_value, item_value, item_colon,
  item_key, item_quote, item_entry, item_open, array_value, array_entry, array_open, parse_step,
  parse_or, parse, parse_string,
}
use pgexporter.Json.Shrink.{
  bind_same, skip_while-le, skip_space-le, read_quoted-Fits, read_value-Fits,
}
use pgexporter.Json.Enough.{Leaves, parse-Leaves}

module _ {D : Type 0} (scan_double : Bytes → Option D) where
  -- The rounds that a text takes at most.
  abbrev pub rounds : Task D → Bytes → ℕ
  rounds start s = 2 * length s + 1
  rounds (in_item o) s = 2 * length s + 2
  rounds (in_array o) s = 2 * length s + 2

  module _ (again again' : Task D → Bytes → Option (Json D × Bytes)) (n : ℕ)
      (l : Leaves scan_double again)
      (agree : (task : Task D) (s : Bytes) → rounds task s ≤ n → again task s ≡ again' task s) where
    read_value_same :
        (s : Bytes)
        → 2 * length s + 1 ≤ n
        → read_value scan_double again s ≡ read_value scan_double again' s
    unfolding read_value
    read_value_same [] m = refl
    read_value_same (c ∷ s) m = elim (Bool-cases (c == quote)) [
      | inl e ↦ rw (e, read_value) refl
      | inr e ↦ elim (Bool-cases (number_start c)) [
        | inl f ↦ rw (e, f, read_value) refl
        | inr f ↦ elim (Bool-cases (c == b'{' || c == b'[')) [
          | inl g ↦ rw (e, f, g, read_value) (agree start (c ∷ s) m)
          | inr g ↦ rw (e, f, g, read_value) refl
        ]
      ]
    ]

    item_value_same :
        (o : Json D) (key s : Bytes)
        → 2 * length s + 1 ≤ n
        → item_value scan_double again o key s ≡ item_value scan_double again' o key s
    item_value_same o key [] m = refl
    item_value_same o key (c ∷ s) m =
        bind_same (length s) (read_value scan_double again (c ∷ s)) _ _
          (read_value-Fits scan_double again l.starts c s)
          (λ v rest k. agree (in_item (json_add o (some key) v)) rest (omega arith))
        ∙ ap (λ r. bind r (λ p. again' (in_item (json_add o (some key) p.0)) p.1))
            (read_value_same (c ∷ s) m)

    item_colon_same :
        (o : Json D) (key s : Bytes)
        → 2 * length s + 1 ≤ n
        → item_colon scan_double again o key s ≡ item_colon scan_double again' o key s
    item_colon_same o key [] m = refl
    item_colon_same o key (c ∷ s) m =
        ap (λ r. if c == b':' then r else none)
          (item_value_same o key (skip_while (λ d. d == b':' || is_space d) (c ∷ s))
            (omega (arith, skip_while-le (λ d. d == b':' || is_space d) (c ∷ s))))

    item_key_same :
        (o : Json D) (key s : Bytes)
        → 2 * length s + 1 ≤ n
        → item_key scan_double again o (key, s) ≡ item_key scan_double again' o (key, s)
    item_key_same o [] s m = refl
    item_key_same o (c ∷ key) s m =
        item_colon_same o (c ∷ key) (skip_while (λ d. d == quote || is_space d) s)
          (omega (arith, skip_while-le (λ d. d == quote || is_space d) s))

    item_quote_same :
        (o : Json D) (s : Bytes)
        → 2 * length s + 1 ≤ n
        → item_quote scan_double again o s ≡ item_quote scan_double again' o s
    item_quote_same o [] m = refl
    item_quote_same o (c ∷ s) m =
        bind_same (length s) (read_quoted s) (item_key scan_double again o)
          (item_key scan_double again' o) (read_quoted-Fits s)
          (λ key rest k. item_key_same o key rest (omega arith))

    item_entry_same :
        (o : Json D) (s : Bytes)
        → 2 * length s + 1 ≤ n
        → item_entry scan_double again o s ≡ item_entry scan_double again' o s
    item_entry_same o s m =
        item_quote_same o (skip_while (λ d. not (d == quote)) s)
          (omega (arith, skip_while-le (λ d. not (d == quote)) s))

    array_value_same :
        (o : Json D) (s : Bytes)
        → 2 * length s + 1 ≤ n
        → array_value scan_double again o s ≡ array_value scan_double again' o s
    array_value_same o [] m = refl
    array_value_same o (c ∷ s) m =
        bind_same (length s) (read_value scan_double again (c ∷ s)) _ _
          (read_value-Fits scan_double again l.starts c s)
          (λ v rest k. agree (in_array (json_add o none v)) rest (omega arith))
        ∙ ap (λ r. bind r (λ p. again' (in_array (json_add o none p.0)) p.1))
            (read_value_same (c ∷ s) m)

    array_entry_same :
        (o : Json D) (s : Bytes)
        → 2 * length s + 1 ≤ n
        → array_entry scan_double again o s ≡ array_entry scan_double again' o s
    array_entry_same o s m =
        array_value_same o (skip_while (λ d. not (value_start d)) s)
          (omega (arith, skip_while-le (λ d. not (value_start d)) s))

    -- The two readings of what stands at a separator differ in what follows only.
    item_open_same :
        (o : Json D) (s : Bytes)
        → 2 * length s + 1 ≤ n
        → item_open scan_double again o s ≡ item_open scan_double again' o s
    item_open_same o [] m = refl
    item_open_same o (c ∷ s) m = elim (Bool-cases (c == b',')) [
      | inl e ↦ rw (e, item_open) (item_entry_same o s (omega arith))
      | inr e ↦ elim (Bool-cases (c == b'}')) [
        | inl f ↦ rw (e, f, item_open) refl
        | inr f ↦
            rw (e, f, item_open)
              (ap (λ r. if c == quote && is_unknown o then r else none)
                (item_entry_same o (c ∷ s) m))
      ]
    ]

    array_open_same :
        (o : Json D) (s : Bytes)
        → 2 * length s + 1 ≤ n
        → array_open scan_double again o s ≡ array_open scan_double again' o s
    array_open_same o [] m = refl
    array_open_same o (c ∷ s) m = elim (Bool-cases (c == b',')) [
      | inl e ↦ rw (e, array_open) (array_entry_same o s (omega arith))
      | inr e ↦ elim (Bool-cases (c == b']')) [
        | inl f ↦ rw (e, f, array_open) refl
        | inr f ↦
            rw (e, f, array_open)
              (ap (λ r. if value_start c && is_unknown o then r else none)
                (array_entry_same o (c ∷ s) m))
      ]
    ]

    parse_step_same :
        (task : Task D) (s : Bytes)
        → rounds task s ≤ suc n
        → parse_step scan_double again task s ≡ parse_step scan_double again' task s
    unfolding parse_step
    parse_step_same start [] m = refl
    parse_step_same start (c ∷ s) m =
        ap (λ r. if c == b'{' then r else (if c == b'[' then again (in_array unknown) s else none))
          (agree (in_item unknown) s (omega arith))
        ∙ ap
            (λ r. if c == b'{' then again' (in_item unknown) s else (if c == b'[' then r else none))
            (agree (in_array unknown) s (omega arith))
    parse_step_same (in_item o) [] m = refl
    parse_step_same (in_item o) (c ∷ s) m =
        item_open_same o (skip_space (c ∷ s)) (omega (arith, skip_space-le (c ∷ s)))
    parse_step_same (in_array o) [] m = refl
    parse_step_same (in_array o) (c ∷ s) m =
        array_open_same o (skip_space (c ∷ s)) (omega (arith, skip_space-le (c ∷ s)))

  -- Where the rounds are enough, neither their number nor the answer for running out matters.
  parse_same :
      (stuck : Option (Json D × Bytes)) (f g : ℕ) (task : Task D) (s : Bytes)
      → rounds task s ≤ f
      → rounds task s ≤ g
      → parse scan_double f task s ≡ parse_or scan_double stuck g task s
  unfolding parse parse_or parse_step
  parse_same stuck zero g start s m l = absurd (omega arith)
  parse_same stuck zero g (in_item o) s m l = absurd (omega arith)
  parse_same stuck zero g (in_array o) s m l = absurd (omega arith)
  parse_same stuck (suc f) zero start s m l = absurd (omega arith)
  parse_same stuck (suc f) zero (in_item o) s m l = absurd (omega arith)
  parse_same stuck (suc f) zero (in_array o) s m l = absurd (omega arith)
  parse_same stuck (suc f) (suc g) task s m l =
      parse_step_same (parse scan_double f) (parse_or scan_double stuck g) (min f g)
        (parse-Leaves scan_double f) (λ t r k. parse_same stuck f g t r (omega arith) (omega arith))
        task s (omega arith)

  -- The parser ends on every text, also one that is refused: whatever answer `stuck` is given for
  -- running out of rounds, any number of rounds from two for a character and one more on gives
  -- what parse_string gives, so this answer is never reached.
  pub parse_enough :
      (stuck : Option (Json D × Bytes)) (f : ℕ) (s : Bytes)
      → 2 * length s + 1 ≤ f
      → parse_string scan_double s ≡ (
          if ltb (length s) 2
          then none
          else bind (parse_or scan_double stuck f start s) (λ r. some r.0))
  unfolding parse_string
  parse_enough stuck f s l =
      ap (λ r. if ltb (length s) 2 then none else bind r (λ p. some p.0))
        (parse_same stuck (2 * length s + 1) f start s (omega arith) l)
