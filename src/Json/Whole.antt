-- ===== src/Json/Whole.antt =====
-- pgexporter_json_parse_string of src/libpgexporter/json.c on what pgexporter_json_to_string writes.
use mathlib.Core.Path.{subst}
use mathlib.Core.List.{append-nil}
use pgexporter.Prelude.{
  ℕ, ◌+◌, ◌*◌, ◌≤◌, ◌≡◌, refl, sym, ap, ◌∙◌, false, Option, some, [], ◌∷◌, ◌++◌, ltb, length,
  length-append, arith,
}
use pgexporter.Text.{Bytes, codes}
use pgexporter.Json.{
  Json, unknown, array, item, number, double, boolean, no_text, text, Items, nil, cons, Fields, end,
  field,
}
use pgexporter.Json.Parse.{start, parse_or, parse, parse_string}
use pgexporter.Json.Print.{quoted, print, print_items, print_fields}
use pgexporter.Json.Plain.{print-Starts, IsPlain, cost, cost_items, cost_fields}
use pgexporter.Json.Runs.{items-Delimited, fields-Delimited}
use pgexporter.Json.RoundTrip.{
  two_more, array_run, item_run, value-print, items-print, fields-print,
}

module _ {D : Type 0} where
  -- A struct json, which is what is parsed as a whole.
  abbrev pub IsObject : Json D → Type 0
  IsObject unknown = Unit
  IsObject (array items) = Unit
  IsObject (item fields) = Unit
  IsObject _ = ⊥

module _ {D : Type 0} (print_double : D → Bytes) where
  two_characters : (v : Json D) → IsObject v → IsPlain v → 2 ≤ length (print print_double v)
  unfolding print quoted IsPlain
  two_characters unknown o p = omega arith
  two_characters (array nil) o p = absurd p
  two_characters (array (cons v rest)) o p =
      let st = print-Starts print_double v p.0 in
      omega (arith, ap length (ap (λ s. s ++ print_items print_double rest) st.is_cons))
  two_characters (item end) o p = absurd p
  two_characters (item (field k v rest)) o p = omega arith
  two_characters (number n) o p = absurd o
  two_characters (double d) o p = absurd o
  two_characters (boolean b) o p = absurd o
  two_characters no_text o p = absurd o
  two_characters (text s) o p = absurd o

  mutual
    unfolding cost print quoted

    cost-length : (v : Json D) → cost v ≤ 2 * length (print print_double v)
    cost-length unknown = omega arith
    cost-length (array nil) = omega arith
    cost-length (array (cons v rest)) = omega (
      arith,
      cost-length v,
      items-length rest,
      length-append (print print_double v) (print_items print_double rest),
    )
    cost-length (item end) = omega arith
    cost-length (item (field k v rest)) = omega (
      arith,
      cost-length v,
      fields-length rest,
      length-append (print print_double v) (print_fields print_double rest),
      length-append (quoted k) (b':' ∷ (print print_double v ++ print_fields print_double rest)),
    )
    cost-length (number n) = omega arith
    cost-length (double d) = omega arith
    cost-length (boolean b) = omega arith
    cost-length no_text = omega arith
    cost-length (text s) = omega arith

    items-length : (rest : Items D) → cost_items rest ≤ 2 * length (print_items print_double rest)
    items-length nil = omega arith
    items-length (cons v rest) = omega (
      arith,
      cost-length v,
      items-length rest,
      length-append (print print_double v) (print_items print_double rest),
    )

    fields-length :
        (rest : Fields D) → cost_fields rest ≤ 2 * length (print_fields print_double rest)
    fields-length end = omega arith
    fields-length (field k v rest) = omega (
      arith,
      cost-length v,
      fields-length rest,
      length-append (print print_double v) (print_fields print_double rest),
      length-append (quoted k) (b':' ∷ (print print_double v ++ print_fields print_double rest)),
    )

  module _ (scan_double : Bytes → Option D) where
    parse-print :
        (v : Json D)
        → IsObject v
        → IsPlain v
        → (f : ℕ) → cost v ≤ f
        → parse scan_double f start (print print_double v ++ []) ≡ some (v, [])
    unfolding parse parse_or print IsPlain cost
    parse-print unknown o p f l =
        let (g, e, m) = two_more 0 f l in
        subst (λ k. parse scan_double k start (codes "{}" ++ []) ≡ some (unknown, [])) (sym e) refl
    parse-print (array nil) o p f l = absurd p
    parse-print (array (cons v rest)) o p f l =
        let (g, e, m) = two_more (cost v + cost_items rest) f l in
        subst
          (λ k.
            parse scan_double k start (print print_double (array (cons v rest)) ++ [])
            ≡ some (array (cons v rest), []))
          (sym e)
          (array_run scan_double print_double g v p.0 [] rest
            (value-print scan_double print_double v p.0 g (omega arith)
              (print_items print_double rest ++ [])
              (items-Delimited scan_double print_double rest []))
            (items-print scan_double print_double rest p.1 (cons v nil) g (omega arith) []))
    parse-print (item end) o p f l = absurd p
    parse-print (item (field [] v rest)) o p f l = absurd (p.0 refl)
    parse-print (item (field (c ∷ key) v rest)) o p f l =
        let (g, e, m) = two_more (cost v + cost_fields rest) f l in
        subst
          (λ k.
            parse scan_double k start (print print_double (item (field (c ∷ key) v rest)) ++ [])
            ≡ some (item (field (c ∷ key) v rest), []))
          (sym e)
          (item_run scan_double print_double g v p.1.0 [] rest c key
            (value-print scan_double print_double v p.1.0 g (omega arith)
              (print_fields print_double rest ++ [])
              (fields-Delimited scan_double print_double rest []))
            (fields-print scan_double print_double rest (field (c ∷ key) v end) p.1.1 g
              (omega arith) []))
    parse-print (number n) o p f l = absurd o
    parse-print (double d) o p f l = absurd o
    parse-print (boolean b) o p f l = absurd o
    parse-print no_text o p f l = absurd o
    parse-print (text s) o p f l = absurd o

    -- A JSON object whose numbers fit in int64_t, without doubles, in which no array or item is
    -- empty (the object of no type stands for them) and the keys of an item stand in byte order,
    -- as in its radix tree, none twice and none empty, is read back from its compact text as it
    -- was, whatever sscanf and snprintf do with doubles.
    pub parse_string-print :
        (v : Json D)
        → IsObject v
        → IsPlain v
        → parse_string scan_double (print print_double v) ≡ some v
    unfolding parse_string
    parse_string-print v o p =
        rw
          (
            long_enough (length (print print_double v)) (two_characters v o p),
            ap (λ s. parse scan_double (2 * length (print print_double v) + 1) start s)
                  (sym (append-nil (print print_double v)))
                ∙ parse-print v o p (2 * length (print print_double v) + 1)
                    (omega (arith, cost-length v)),
          )
          refl
      where
        long_enough : (n : ℕ) → 2 ≤ n → ltb n 2 ≡ false
        long_enough n l = ground arith
