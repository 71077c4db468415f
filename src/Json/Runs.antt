-- ===== src/Json/Runs.antt =====
-- An array and an item of src/libpgexporter/json.c read from its first character on, where its first
-- value and what follows are read.
use pgexporter.Prelude.{ℕ, ◌≡◌, refl, sym, ap, ◌∙◌, true, Option, none, some, ◌∷◌, ◌++◌}
use pgexporter.Text.{Bytes}
use pgexporter.Json.{
  Json, unknown, array, item, Items, nil, cons, Fields, end, field, value_start, bind, json_add,
  append_item,
}
use pgexporter.Json.Parse.{Task, in_item, in_array, read_value, parse_step, parse}
use pgexporter.Json.Print.{quoted, print, print_items, print_fields}
use pgexporter.Json.Values.{is_delim}
use pgexporter.Json.Steps.{array_first, array_comma, item_first, item_comma}
use pgexporter.Json.Plain.{append_field, IsLast, put_field-IsLast, IsPlain, print-Starts}

-- A comma or a closing bracket is next.
pub record Delimited (s : Bytes) : Type 0 where
  pub head : ℕ
  pub tail : Bytes
  pub is_cons : s ≡ head ∷ tail
  pub delim : is_delim head ≡ true

module _ {D : Type 0} (scan_double : Bytes → Option D) (print_double : D → Bytes) where
  pub items-Delimited :
      (rest : Items D) (tail : Bytes) → Delimited (print_items print_double rest ++ tail)
  unfolding print_items
  items-Delimited nil tail = record { head = _; tail = _; is_cons = refl; delim = refl }
  items-Delimited (cons v rest) tail = record { head = _; tail = _; is_cons = refl; delim = refl }

  pub fields-Delimited :
      (rest : Fields D) (tail : Bytes) → Delimited (print_fields print_double rest ++ tail)
  unfolding print_fields
  fields-Delimited end tail = record { head = _; tail = _; is_cons = refl; delim = refl }
  fields-Delimited (field k v rest) tail = record {
    head = _;
    tail = _;
    is_cons = refl;
    delim = refl;
  }

  module _ (g : ℕ) (v : Json D) (p : IsPlain v) (behind tail : Bytes)
      (value : read_value scan_double (parse scan_double g) (print print_double v ++ behind)
        ≡ some (v, behind)) where
    abbrev again : Task D → Bytes → Option (Json D × Bytes)
    again = parse scan_double g

    module _ (o : Json D) where
      -- A round of an array reads the value and goes on.
      array_round :
          (result : Json D)
          → again (in_array (json_add o none v)) behind ≡ some (result, tail)
          → (s : Bytes)
          → ((x : ℕ) (t : Bytes)
              → value_start x ≡ true
              → print print_double v ++ behind ≡ x ∷ t
              → parse_step scan_double again (in_array o) s
                ≡ bind
                    (read_value scan_double again (x ∷ t))
                    (λ r. again (in_array (json_add o none r.0)) r.1))
          → parse_step scan_double again (in_array o) s ≡ some (result, tail)
      array_round result e s step =
          let st = print-Starts print_double v p in
          let cons_eq : print print_double v ++ behind ≡ st.head ∷ (st.tail ++ behind) =
            ap (λ a. a ++ behind) st.is_cons in
          step st.head (st.tail ++ behind) st.starts cons_eq
          ∙ ap
              (λ a.
                bind (read_value scan_double again a)
                  (λ r. again (in_array (json_add o none r.0)) r.1))
              (sym cons_eq)
          ∙ ap (λ a. bind a (λ r. again (in_array (json_add o none r.0)) r.1)) value
          ∙ e

      item_round :
          (key : Bytes) (result : Json D)
          → again (in_item (json_add o (some key) v)) behind ≡ some (result, tail)
          → (s : Bytes)
          → ((x : ℕ) (t : Bytes)
              → value_start x ≡ true
              → print print_double v ++ behind ≡ x ∷ t
              → parse_step scan_double again (in_item o) s
                ≡ bind
                    (read_value scan_double again (x ∷ t))
                    (λ r. again (in_item (json_add o (some key) r.0)) r.1))
          → parse_step scan_double again (in_item o) s ≡ some (result, tail)
      item_round key result e s step =
          let st = print-Starts print_double v p in
          let cons_eq : print print_double v ++ behind ≡ st.head ∷ (st.tail ++ behind) =
            ap (λ a. a ++ behind) st.is_cons in
          step st.head (st.tail ++ behind) st.starts cons_eq
          ∙ ap
              (λ a.
                bind (read_value scan_double again a)
                  (λ r. again (in_item (json_add o (some key) r.0)) r.1))
              (sym cons_eq)
          ∙ ap (λ a. bind a (λ r. again (in_item (json_add o (some key) r.0)) r.1)) value
          ∙ e

    pub array_first_round :
        (result : Json D)
        → again (in_array (array (cons v nil))) behind ≡ some (result, tail)
        → parse_step scan_double again (in_array unknown) (print print_double v ++ behind)
          ≡ some (result, tail)
    array_first_round result e =
        array_round unknown result e (print print_double v ++ behind) (λ x t h q.
          ap (parse_step scan_double again (in_array unknown)) q
          ∙ array_first scan_double again x t h)

    pub array_next_round :
        (front : Items D) (result : Json D)
        → again (in_array (array (append_item front v))) behind ≡ some (result, tail)
        → parse_step scan_double again
            (in_array (array front))
            (b',' ∷ (print print_double v ++ behind))
          ≡ some (result, tail)
    array_next_round front result e =
        array_round (array front) result e (b',' ∷ (print print_double v ++ behind)) (λ x t h q.
          ap (λ a. parse_step scan_double again (in_array (array front)) (b',' ∷ a)) q
          ∙ array_comma scan_double again x t h (array front))

    pub item_first_round :
        (c : ℕ) (key : Bytes) (result : Json D)
        → again (in_item (item (field (c ∷ key) v end))) behind ≡ some (result, tail)
        → parse_step scan_double again
            (in_item unknown)
            (quoted (c ∷ key) ++ (b':' ∷ (print print_double v ++ behind)))
          ≡ some (result, tail)
    item_first_round c key result e =
        item_round unknown (c ∷ key) result e
          (quoted (c ∷ key) ++ (b':' ∷ (print print_double v ++ behind)))
          (λ x t h q.
            ap
              (λ a. parse_step scan_double again (in_item unknown) (quoted (c ∷ key) ++ (b':' ∷ a)))
              q
            ∙ item_first scan_double again x t h c key)

    pub item_next_round :
        (front : Fields D) (c : ℕ) (key : Bytes) (result : Json D)
        → IsLast (c ∷ key) front
        → again (in_item (item (append_field front (c ∷ key) v))) behind ≡ some (result, tail)
        → parse_step scan_double again
            (in_item (item front))
            (b',' ∷ (quoted (c ∷ key) ++ (b':' ∷ (print print_double v ++ behind))))
          ≡ some (result, tail)
    item_next_round front c key result fresh e =
        item_round (item front) (c ∷ key) result
          (ap (λ fields. again (in_item (item fields)) behind)
              (put_field-IsLast (c ∷ key) v front fresh)
            ∙ e)
          (b',' ∷ (quoted (c ∷ key) ++ (b':' ∷ (print print_double v ++ behind))))
          (λ x t h q.
            ap
              (λ a.
                parse_step scan_double again (in_item (item front))
                  (b',' ∷ (quoted (c ∷ key) ++ (b':' ∷ a))))
              q
            ∙ item_comma scan_double again x t h (item front) c key)
