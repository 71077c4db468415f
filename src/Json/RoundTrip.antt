-- ===== src/Json/RoundTrip.antt =====
-- A value printed in compact form by value.c, deque.c and art.c of src/libpgexporter is read back by
-- json.c.
use mathlib.Core.Path.{subst}
use mathlib.Core.List.{append_assoc}
use pgexporter.Prelude.{
  ℕ, suc, ◌+◌, ◌-◌, ◌≤◌, ◌≡◌, refl, sym, ap, ◌∙◌, true, false, Option, some, [], ◌∷◌, ◌++◌, arith,
}
use pgexporter.Prelude.Int.{pos, negsuc}
use pgexporter.Text.{Bytes, codes, skip_space, print_int}
use pgexporter.Json.{
  Json, unknown, array, item, number, double, boolean, no_text, text, Items, nil, cons, Fields, end,
  field, append_item,
}
use pgexporter.Json.Parse.{Task, start, in_item, in_array, read_value, parse_step, parse_or, parse}
use pgexporter.Json.Print.{quoted, print, print_items, print_fields}
use pgexporter.Json.Values.{
  is_delim, read_decimal, read_negative, read_true, read_false, read_null, read_text,
}
use pgexporter.Json.Plain.{
  append_field, IsLast, join_items, join_fields, join_items-nil, join_fields-end, IsPlain, ArePlain,
  ArePlainFields, cost, cost_items, cost_fields,
}
use pgexporter.Json.Runs.{
  Delimited, items-Delimited, fields-Delimited, array_first_round, array_next_round,
  item_first_round, item_next_round,
}

pub two_more : (k f : ℕ) → 2 + k ≤ f → (g : ℕ) × (f ≡ suc (suc g)) × (k ≤ g)
two_more k f l = (f - 2, omega arith, omega arith)

one_more : (k f : ℕ) → 1 + k ≤ f → (g : ℕ) × (f ≡ suc g) × (k ≤ g)
one_more k f l = (f - 1, omega arith, omega arith)

module _ {D : Type 0} (scan_double : Bytes → Option D) (print_double : D → Bytes) where
  abbrev shown : Json D → Bytes
  shown = print print_double

  abbrev run : ℕ → Task D → Bytes → Option (Json D × Bytes)
  run = parse scan_double

  abbrev value_of : ℕ → Bytes → Option (Json D × Bytes)
  value_of f = read_value scan_double (run f)

  module _ (g : ℕ) (v : Json D) (p : IsPlain v) (tail : Bytes) where
    module _ (rest : Items D)
        (value : value_of g (shown v ++ (print_items print_double rest ++ tail))
          ≡ some (v, print_items print_double rest ++ tail)) where
      pub array_run :
          run g (in_array (array (cons v nil))) (print_items print_double rest ++ tail)
            ≡ some (array (join_items (cons v nil) rest), tail)
          → run (suc (suc g)) start (shown (array (cons v rest)) ++ tail)
            ≡ some (array (cons v rest), tail)
      unfolding parse parse_or parse_step print
      array_run e =
          ap (parse_step scan_double (run g) (in_array unknown))
            (append_assoc (shown v) (print_items print_double rest) tail)
          ∙ array_first_round scan_double print_double g v p (print_items print_double rest ++ tail)
              tail value (array (cons v rest))
              (e ∙ ap (λ xs. some (array xs, tail)) (join_items-nil (cons v rest)))

      items_run :
          (front : Items D) (result : Json D)
          → run g (in_array (array (append_item front v))) (print_items print_double rest ++ tail)
            ≡ some (result, tail)
          → run (suc g) (in_array (array front)) (print_items print_double (cons v rest) ++ tail)
            ≡ some (result, tail)
      unfolding parse parse_or print_items
      items_run front result e =
          ap (λ s. parse_step scan_double (run g) (in_array (array front)) (b',' ∷ s))
            (append_assoc (shown v) (print_items print_double rest) tail)
          ∙ array_next_round scan_double print_double g v p (print_items print_double rest ++ tail)
              tail value front result e

    module _ (rest : Fields D) (c : ℕ) (key : Bytes)
        (value : value_of g (shown v ++ (print_fields print_double rest ++ tail))
          ≡ some (v, print_fields print_double rest ++ tail)) where
      field_text :
          (quoted (c ∷ key) ++ (b':' ∷ (shown v ++ print_fields print_double rest))) ++ tail
          ≡ quoted (c ∷ key) ++ (b':' ∷ (shown v ++ (print_fields print_double rest ++ tail)))
      field_text =
          append_assoc (quoted (c ∷ key)) (b':' ∷ (shown v ++ print_fields print_double rest)) tail
          ∙ ap (λ s. quoted (c ∷ key) ++ (b':' ∷ s))
              (append_assoc (shown v) (print_fields print_double rest) tail)

      pub item_run :
          run g (in_item (item (field (c ∷ key) v end))) (print_fields print_double rest ++ tail)
            ≡ some (item (join_fields (field (c ∷ key) v end) rest), tail)
          → run (suc (suc g)) start (shown (item (field (c ∷ key) v rest)) ++ tail)
            ≡ some (item (field (c ∷ key) v rest), tail)
      unfolding parse parse_or parse_step print
      item_run e =
          ap (parse_step scan_double (run g) (in_item unknown)) field_text
          ∙ item_first_round scan_double print_double g v p (print_fields print_double rest ++ tail)
              tail value c key (item (field (c ∷ key) v rest))
              (e ∙ ap (λ xs. some (item xs, tail)) (join_fields-end (field (c ∷ key) v rest)))

      fields_run :
          (front : Fields D) (result : Json D)
          → IsLast (c ∷ key) front
          → run g
              (in_item (item (append_field front (c ∷ key) v)))
              (print_fields print_double rest ++ tail)
            ≡ some (result, tail)
          → run
              (suc g)
              (in_item (item front))
              (print_fields print_double (field (c ∷ key) v rest) ++ tail)
            ≡ some (result, tail)
      unfolding parse parse_or print_fields
      fields_run front result fresh e =
          ap (λ s. parse_step scan_double (run g) (in_item (item front)) (b',' ∷ s)) field_text
          ∙ item_next_round scan_double print_double g v p (print_fields print_double rest ++ tail)
              tail value front c key result fresh e

  -- A scalar value in front of a comma or a closing bracket.
  before_delim :
      (f : ℕ) (v : Json D) (tail : Bytes)
      → ((c : ℕ) (r : Bytes)
          → is_delim c ≡ true
          → value_of f (shown v ++ (c ∷ r)) ≡ some (v, c ∷ r))
      → Delimited tail
      → value_of f (shown v ++ tail) ≡ some (v, tail)
  before_delim f v tail e d =
      subst (λ s. value_of f (shown v ++ s) ≡ some (v, s)) (sym d.is_cons) (e d.head d.tail d.delim)

  mutual
    unfolding print print_int quoted IsPlain cost parse parse_or parse_step read_value skip_space

    pub value-print :
        (v : Json D)
        → IsPlain v
        → (f : ℕ) → cost v ≤ f
        → (tail : Bytes) → Delimited tail
        → value_of f (shown v ++ tail) ≡ some (v, tail)
    value-print unknown p f l tail d =
        let (g, e, m) = two_more 0 f l in
        subst (λ k. run k start (codes "{}" ++ tail) ≡ some (unknown, tail)) (sym e) refl
    value-print (array nil) p f l tail d = absurd p
    value-print (array (cons v rest)) p f l tail d =
        let (g, e, m) = two_more (cost v + cost_items rest) f l in
        subst
          (λ k.
            run k start (shown (array (cons v rest)) ++ tail) ≡ some (array (cons v rest), tail))
          (sym e)
          (array_run g v p.0 tail rest
            (value-print v p.0 g (omega arith) (print_items print_double rest ++ tail)
              (items-Delimited scan_double print_double rest tail))
            (items-print rest p.1 (cons v nil) g (omega arith) tail))
    value-print (item end) p f l tail d = absurd p
    value-print (item (field [] v rest)) p f l tail d = absurd (p.0 refl)
    value-print (item (field (c ∷ key) v rest)) p f l tail d =
        let (g, e, m) = two_more (cost v + cost_fields rest) f l in
        subst
          (λ k.
            run k start (shown (item (field (c ∷ key) v rest)) ++ tail)
            ≡ some (item (field (c ∷ key) v rest), tail))
          (sym e)
          (item_run g v p.1.0 tail rest c key
            (value-print v p.1.0 g (omega arith) (print_fields print_double rest ++ tail)
              (fields-Delimited scan_double print_double rest tail))
            (fields-print rest (field (c ∷ key) v end) p.1.1 g (omega arith) tail))
    value-print (number (pos n)) p f l tail d =
        before_delim f (number (pos n)) tail (λ c r e. read_decimal scan_double (run f) n c r p e) d
    value-print (number (negsuc n)) p f l tail d =
        before_delim f (number (negsuc n)) tail
          (λ c r e. read_negative scan_double (run f) n c r p e) d
    value-print (double x) p f l tail d = absurd p
    value-print (boolean true) p f l tail d =
        before_delim f (boolean true) tail (λ c r e. read_true scan_double (run f) c r e) d
    value-print (boolean false) p f l tail d =
        before_delim f (boolean false) tail (λ c r e. read_false scan_double (run f) c r e) d
    value-print no_text p f l tail d =
        before_delim f no_text tail (λ c r e. read_null scan_double (run f) c r e) d
    value-print (text s) p f l tail d = read_text scan_double (run f) s tail

    pub items-print :
        (rest : Items D)
        → ArePlain rest
        → (front : Items D) (f : ℕ) → cost_items rest ≤ f
        → (tail : Bytes)
        → run f (in_array (array front)) (print_items print_double rest ++ tail)
          ≡ some (array (join_items front rest), tail)
    items-print nil p front f l tail =
        let (g, e, m) = one_more 0 f l in
        subst (λ k. run k (in_array (array front)) (b']' ∷ tail) ≡ some (array front, tail)) (sym e)
          refl
    items-print (cons v rest) p front f l tail =
        let (g, e, m) = one_more (cost v + cost_items rest) f l in
        subst
          (λ k.
            run k (in_array (array front)) (print_items print_double (cons v rest) ++ tail)
            ≡ some (array (join_items front (cons v rest)), tail))
          (sym e)
          (items_run g v p.0 tail rest
            (value-print v p.0 g (omega arith) (print_items print_double rest ++ tail)
              (items-Delimited scan_double print_double rest tail))
            front (array (join_items front (cons v rest)))
            (items-print rest p.1 (append_item front v) g (omega arith) tail))

    pub fields-print :
        (rest front : Fields D)
        → ArePlainFields front rest
        → (f : ℕ) → cost_fields rest ≤ f
        → (tail : Bytes)
        → run f (in_item (item front)) (print_fields print_double rest ++ tail)
          ≡ some (item (join_fields front rest), tail)
    fields-print end front p f l tail =
        let (g, e, m) = one_more 0 f l in
        subst (λ k. run k (in_item (item front)) (b'}' ∷ tail) ≡ some (item front, tail)) (sym e)
          refl
    fields-print (field [] v rest) front p f l tail = absurd (p.0 refl)
    fields-print (field (c ∷ key) v rest) front p f l tail =
        let (g, e, m) = one_more (cost v + cost_fields rest) f l in
        subst
          (λ k.
            run k (in_item (item front))
              (print_fields print_double (field (c ∷ key) v rest) ++ tail)
            ≡ some (item (join_fields front (field (c ∷ key) v rest)), tail))
          (sym e)
          (fields_run g v p.1.1.0 tail rest c key
            (value-print v p.1.1.0 g (omega arith) (print_fields print_double rest ++ tail)
              (fields-Delimited scan_double print_double rest tail))
            front (item (join_fields front (field (c ∷ key) v rest))) p.1.0
            (fields-print rest (append_field front (c ∷ key) v) p.1.1.1 g (omega arith) tail))
