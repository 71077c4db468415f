-- ===== src/Json/Steps.antt =====
-- The rounds of parse_string, src/libpgexporter/json.c, on what the compact printing writes.
use mathlib.Core.List.{append_assoc}
use pgexporter.Prelude.{
  ℕ, ◌≡◌, refl, ap, ◌∙◌, true, false, ◌||◌, Option, none, some, [], ◌∷◌, ◌++◌, ◌==◌, arith,
}
use pgexporter.Text.{Bytes, is_space, skip_space}
use pgexporter.Json.{Json, unknown, quote, escape, read_quoted, value_start, bind, json_add}
use pgexporter.Json.Parse.{
  Task, in_item, in_array, read_value, item_entry, item_key, array_entry, array_open, parse_step,
}
use pgexporter.Json.Print.{quoted}
use pgexporter.Json.Escapes.{read_quoted-escape}

-- A value does not start with what is passed over before it.
value_no_gap : (x : ℕ) → value_start x ≡ true → (x == b':' || is_space x) ≡ false
value_no_gap x e = ground arith

value_not_space : (x : ℕ) → value_start x ≡ true → is_space x ≡ false
value_not_space x e = ground arith

value_no_comma : (x : ℕ) → value_start x ≡ true → ((x == b',') ≡ false) × ((x == b']') ≡ false)
value_no_comma x e = ground arith

module _ {D : Type 0} (scan_double : Bytes → Option D) where
  module _ (again : Task D → Bytes → Option (Json D × Bytes)) (x : ℕ) (s : Bytes)
      (e : value_start x ≡ true) where
    abbrev then_item : Json D → Bytes → Option (Json D × Bytes)
    then_item o key =
        bind (read_value scan_double again (x ∷ s))
          (λ r. again (in_item (json_add o (some key) r.0)) r.1)

    item_entry-quoted :
        (o : Json D) (c : ℕ) (key : Bytes)
        → item_entry scan_double again o (quoted (c ∷ key) ++ (b':' ∷ (x ∷ s)))
          ≡ then_item o (c ∷ key)
    unfolding quoted
    item_entry-quoted o c key =
        ap (λ p. bind p (item_key scan_double again o))
          (ap read_quoted (append_assoc (escape (c ∷ key)) (quote ∷ []) (b':' ∷ (x ∷ s)))
            ∙ read_quoted-escape (c ∷ key) (b':' ∷ (x ∷ s)))
        ∙ gap
      where
        gap :
            item_key scan_double again o (c ∷ key, quote ∷ (b':' ∷ (x ∷ s))) ≡ then_item o (c ∷ key)
        gap = rw (value_no_gap x e) refl

    abbrev then_array : Json D → Option (Json D × Bytes)
    then_array o =
        bind (read_value scan_double again (x ∷ s))
          (λ r. again (in_array (json_add o none r.0)) r.1)

    array_entry_lem : (o : Json D) → array_entry scan_double again o (x ∷ s) ≡ then_array o
    array_entry_lem o = rw e refl

    pub array_first : parse_step scan_double again (in_array unknown) (x ∷ s) ≡ then_array unknown
    unfolding parse_step skip_space
    array_first = ap (array_open scan_double again unknown) no_space ∙ opened
      where
        no_space : skip_space (x ∷ s) ≡ x ∷ s
        no_space = rw (value_not_space x e) refl

        opened : array_open scan_double again unknown (x ∷ s) ≡ then_array unknown
        opened = rw ((value_no_comma x e).0, (value_no_comma x e).1, e, array_open) refl

    pub array_comma :
        (o : Json D) → parse_step scan_double again (in_array o) (b',' ∷ (x ∷ s)) ≡ then_array o
    unfolding parse_step skip_space
    array_comma o = array_entry_lem o

    pub item_first :
        (c : ℕ) (key : Bytes)
        → parse_step scan_double again (in_item unknown) (quoted (c ∷ key) ++ (b':' ∷ (x ∷ s)))
          ≡ then_item unknown (c ∷ key)
    unfolding parse_step skip_space quoted
    item_first c key = item_entry-quoted unknown c key

    pub item_comma :
        (o : Json D) (c : ℕ) (key : Bytes)
        → parse_step scan_double again (in_item o) (b',' ∷ (quoted (c ∷ key) ++ (b':' ∷ (x ∷ s))))
          ≡ then_item o (c ∷ key)
    unfolding parse_step skip_space quoted
    item_comma o c key = item_entry-quoted o c key
