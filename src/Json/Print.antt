-- ===== src/Json/Print.antt =====
-- pgexporter_json_to_string with FORMAT_JSON_COMPACT: value.c, deque.c and art.c of src/libpgexporter.
-- The fields of an item stand in the byte order of the keys, so that they are printed as art_iterate
-- visits the radix tree.
use pgexporter.Prelude.{true, false, [], ◌∷◌, ◌++◌}
use pgexporter.Text.{Bytes, codes, print_int}
use pgexporter.Json.{
  Json, unknown, array, item, number, double, boolean, no_text, text, Items, nil, cons, Fields, end,
  field, quote, escape,
}

-- A text in quotes, escaped.
unfoldable pub quoted : Bytes → Bytes
unfolding escape
quoted s = quote ∷ (escape s ++ (quote ∷ []))

-- snprintf with %f is a parameter.
module _ {D : Type 0} (print_double : D → Bytes) where
  unfoldable mutual
    unfolding quoted print_int

    pub print : Json D → Bytes
    print unknown = codes "{}"
    print (array nil) = codes "[]"
    print (array (cons v rest)) = b'[' ∷ (print v ++ print_items rest)
    print (item end) = codes "{}"
    print (item (field key v rest)) = b'{' ∷ (quoted key ++ (b':' ∷ (print v ++ print_fields rest)))
    print (number n) = print_int n
    print (double d) = print_double d
    print (boolean true) = codes "true"
    print (boolean false) = codes "false"
    print no_text = codes "null"
    print (text s) = quoted s

    -- What follows a value in an array or an item.
    pub print_items : Items D → Bytes
    print_items nil = b']' ∷ []
    print_items (cons v rest) = b',' ∷ (print v ++ print_items rest)

    pub print_fields : Fields D → Bytes
    print_fields end = b'}' ∷ []
    print_fields (field key v rest) = b',' ∷ (quoted key ++ (b':' ∷ (print v ++ print_fields rest)))
