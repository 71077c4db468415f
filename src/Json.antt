-- ===== src/Json.antt =====
-- src/libpgexporter/json.c: parsing a text, putting and appending values; the compact printing of
-- value.c, deque.c and art.c. The index into the text is the text that is left. An item is the list
-- of its keys and values in the byte order of the keys, in which art_iterate visits its radix tree,
-- the map that the tree refines (Art/Map).
pub mod Parse
pub mod Print
pub mod Escapes
pub mod Values
pub mod Steps
pub mod Plain
pub mod Runs
pub mod RoundTrip
pub mod Whole
pub mod Shrink
pub mod Enough
pub mod Rounds
use pgexporter.Prelude.{
  ℕ, zero, suc, ◌+◌, ◌≤◌, Bool, true, false, ◌&&◌, ◌||◌, Option, none, some, List, [], ◌∷◌, ◌++◌,
  ltb, leb, ◌==◌, if◌then◌else◌, length,
}
use pgexporter.Prelude.Int.{ℤ}
use pgexporter.Text.{
  Bytes, codes, is_digit, is_lower, is_space, same, skip_space, Scan, strtol, print_int,
}

-- struct json and the values in it: JSONUnknown, JSONArray and JSONItem, ValueInt64, ValueDouble,
-- ValueBool and ValueString, which may be NULL.
mutual
  pub data Json (D : Type 0) : Type 0 where
    unknown : Json D
    array : Items D → Json D
    item : Fields D → Json D
    number : ℤ → Json D
    double : D → Json D
    boolean : Bool → Json D
    no_text : Json D
    text : Bytes → Json D

  pub data Items (D : Type 0) : Type 0 where
    nil : Items D
    cons : Json D → Items D → Items D

  pub data Fields (D : Type 0) : Type 0 where
    end : Fields D
    field : Bytes → Json D → Fields D → Fields D

abbrev pub quote : ℕ
quote = 34

abbrev pub backslash : ℕ
backslash = 92

-- pgexporter_escape_string
abbrev pub escape_char : ℕ → Bytes
escape_char c =
    if c == backslash || c == quote
    then backslash ∷ c ∷ []
    else if c == 10
    then backslash ∷ b'n' ∷ []
    else if c == 9
    then backslash ∷ b't' ∷ []
    else if c == 13
    then backslash ∷ b'r' ∷ []
    else c ∷ []

unfoldable pub escape : Bytes → Bytes
escape [] = []
escape (c ∷ s) = escape_char c ++ escape s

-- handle_escape_char, from the character behind the backslash on.
abbrev pub unescape : ℕ → Option ℕ
unescape c =
    if c == quote || c == backslash
    then some c
    else if c == b'n'
    then some 10
    else if c == b't'
    then some 9
    else if c == b'r'
    then some 13
    else none

abbrev pub bind {ℓ κ} : {A : Type ℓ} {B : Type κ} → Option A → (A → Option B) → Option B
bind none f = none
bind (some a) f = f a

abbrev pub and_char : ℕ → Option (Bytes × Bytes) → Option (Bytes × Bytes)
and_char c none = none
and_char c (some (s, rest)) = some (c ∷ s, rest)

-- The loop over a key or a string up to its quote; the rest starts with the quote.
unfoldable pub read_quoted : Bytes → Option (Bytes × Bytes)
read_quoted [] = none
read_quoted (c ∷ []) = if c == quote then some ([], c ∷ []) else none
read_quoted (c ∷ d ∷ s) = elim (c == quote) [
  | true ↦ some ([], c ∷ d ∷ s)
  | false ↦ elim (c == backslash) [
    | true ↦ elim (unescape d) [ none ↦ none | some x ↦ and_char x (read_quoted s) ]
    | false ↦ and_char c (read_quoted (d ∷ s))
  ]
]

-- The characters at the head with a test, and what follows.
unfoldable pub span : (ℕ → Bool) → Bytes → Bytes × Bytes
span test [] = ([], [])
span test (c ∷ s) =
    let (front, rest) = span test s in if test c then (c ∷ front, rest) else ([], c ∷ s)

abbrev pub is_numeric : ℕ → Bool
is_numeric c = is_digit c || (c == b'.' || (c == b'-' || c == b'+'))

abbrev pub number_start : ℕ → Bool
number_start c = is_digit c || (c == b'-' || c == b'+')

abbrev pub value_start : ℕ → Bool
value_start c =
    number_start c
    || (c == b'[' || (c == b'{' || (c == quote || (c == b'n' || (c == b't' || c == b'f')))))

abbrev pub has_point : Bytes → Bool
has_point [] = false
has_point (c ∷ s) = c == b'.' || has_point s

-- The order of the keys of a radix tree.
abbrev pub below : Bytes → Bytes → Bool
below [] [] = false
below [] (d ∷ t) = true
below (c ∷ s) [] = false
below (c ∷ s) (d ∷ t) = let rest = below s t in ltb c d || (c == d && rest)

module _ {D : Type 0} where
  abbrev pub put_field : Bytes → Json D → Fields D → Fields D
  put_field key v end = field key v end
  put_field key v (field k w rest) =
      let after = put_field key v rest in
      if same k key
      then field k v rest
      else if below key k
      then field key v (field k w rest)
      else field k w after

  abbrev pub append_item : Items D → Json D → Items D
  append_item nil v = cons v nil
  append_item (cons w rest) v = cons w (append_item rest v)

  -- pgexporter_json_put and pgexporter_json_append, where an error leaves the object as it is; a key has a
  -- character at least.
  abbrev pub json_put : Json D → Bytes → Json D → Json D
  json_put unknown [] v = item end
  json_put unknown (c ∷ key) v = item (put_field (c ∷ key) v end)
  json_put (item fields) [] v = item fields
  json_put (item fields) (c ∷ key) v = item (put_field (c ∷ key) v fields)
  json_put o key v = o

  abbrev pub json_append : Json D → Json D → Json D
  json_append unknown v = array (cons v nil)
  json_append (array items) v = array (append_item items v)
  json_append o v = o

  -- json_add
  abbrev pub json_add : Json D → Option Bytes → Json D → Json D
  json_add o none v = json_append o v
  json_add o (some key) v = json_put o key v
