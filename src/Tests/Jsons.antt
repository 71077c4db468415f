-- ===== src/Tests/Jsons.antt =====
-- src/libpgexporter/json.c with concrete texts. Doubles are their text here.
use pgexporter.Prelude.{
  ◌≡◌, refl, true, Option, none, some, [], ◌∷◌, ◌++◌, arith, length, ltb, if◌then◌else◌,
}
use pgexporter.Prelude.Int.{pos, negsuc}
use pgexporter.Text.{Bytes, codes, same}
use pgexporter.Json.{
  Json, unknown, array, item, number, double, boolean, no_text, text, nil, cons, end, field, quote,
  bind, escape, read_quoted,
}
use pgexporter.Json.Parse.{start, parse_or, parse_string}
use pgexporter.Json.Print.{print}
use pgexporter.Json.Escapes.{read_quoted-escape}
use pgexporter.Json.Plain.{IsPlain}
use pgexporter.Json.Rounds.{parse_enough}
use pgexporter.Json.Whole.{parse_string-print}

abbrev scan_any : Bytes → Option Bytes
scan_any s = some s

abbrev print_any : Bytes → Bytes
print_any s = s

abbrev read_text : Bytes → Option (Json Bytes)
read_text s = parse_string scan_any s

abbrev metric : Json Bytes
metric = item (
    field (codes "help") no_text (
      field (codes "name") (text (quote ∷ codes "up")) (
        field (codes "values")
          (array (cons (number (negsuc 4)) (cons (boolean true) (cons unknown nil)))) end)))

metric-IsPlain : IsPlain metric
unfolding IsPlain same
metric-IsPlain = (
  (λ e. cc e),
  (
    tt,
    (
      (λ e. cc e),
      (
        ((refl, refl), tt),
        (
          tt,
          ((λ e. cc e), (((refl, refl), ((refl, refl), tt)), ((omega arith, (tt, (tt, tt))), tt))),
        ),
      ),
    ),
  ),
)

parse_string-print_example : parse_string scan_any (print print_any metric) ≡ some metric
parse_string-print_example = parse_string-print print_any scan_any metric tt metric-IsPlain

read_quoted-escape_example :
    read_quoted (escape (codes "a" ++ (quote ∷ 10 ∷ 92 ∷ [])) ++ (quote ∷ codes "}"))
    ≡ some (codes "a" ++ (quote ∷ 10 ∷ 92 ∷ []), quote ∷ codes "}")
read_quoted-escape_example = read_quoted-escape (codes "a" ++ (quote ∷ 10 ∷ 92 ∷ [])) (codes "}")

-- An item is written in the byte order of its keys, whatever the order they were put in.
written_in_order :
    parse_string scan_any (codes "{\"name\":1,\"help\":2,\"name\":3}")
    ≡ parse_string scan_any (codes "{\"help\":2,\"name\":3}")
unfolding parse_string
written_in_order = refl

spaces_read :
    read_text (codes "[ 1.5 , -2 ]")
    ≡ some (array (cons (double (codes "1.5")) (cons (number (negsuc 1)) nil)))
unfolding parse_string
spaces_read = refl

-- A text that ends before its bracket is read as if the bracket stood there.
truncated_read :
    read_text (codes "[1,2") ≡ some (array (cons (number (pos 1)) (cons (number (pos 2)) nil)))
unfolding parse_string
truncated_read = refl

-- An empty array is read as an object of no type, which is printed as an item.
empty_array : read_text (codes "[]") ≡ some unknown
unfolding parse_string
empty_array = refl

no_object : read_text (codes "true") ≡ none
unfolding parse_string
no_object = refl

parse_enough_example : parse_string scan_any (codes "[1,{\"a\"}]") ≡ (
    if ltb (length (codes "[1,{\"a\"}]")) 2
    then none
    else bind
        (parse_or scan_any (some (text (codes "stuck"), [])) 21 start (codes "[1,{\"a\"}]"))
        (λ r. some r.0))
parse_enough_example =
    parse_enough scan_any (some (text (codes "stuck"), [])) 21 (codes "[1,{\"a\"}]") (omega arith)
