-- ===== src/Art.antt =====
-- The adaptive radix tree, src/libpgexporter/art.c: struct art_node with its four sizes, struct
-- art_leaf, search and insertion. An array is a function from its indices, so that a copy or a
-- write is the C code's; an index past the end is never used on a well-formed tree. A key is the C
-- string with its NUL, of length key_len. Numbers of children are uint8_t.
pub mod Arrays
pub mod Insert
pub mod Index
pub mod Slots
pub mod Children
pub mod Sorted
pub mod Indexed
pub mod Grow
pub mod AddChild
pub mod Keys
pub mod Paths
pub mod Search
pub mod Least
pub mod Lowest
pub mod Prefixes
pub mod Replace
pub mod Updated
pub mod Split
pub mod SplitNode
pub mod Down
pub mod Refines
pub mod Strings
pub mod Map
use pgexporter.Prelude.{
  ℕ, zero, suc, ◌+◌, ◌-◌, ◌*◌, ◌/◌, ◌%◌, ◌≤◌, ◌<◌, Bool, true, false, not, ◌&&◌, Option, none, some,
  ltb, leb, ◌==◌, if◌then◌else◌, length, get_or, min,
}
use pgexporter.Art.Arrays.{Array, fill, write, copy, memmove}
use pgexporter.Text.{Bytes, same}

-- enum art_node_type
pub data Kind : Type 0 where
  node4 : Kind
  node16 : Kind
  node48 : Kind
  node256 : Kind

-- NULL, a struct art_leaf, or one of the four nodes with prefix_len, prefix, num_children, keys and
-- children.
pub data ArtNode {ℓ} (V : Type ℓ) : Type ℓ where
  null : ArtNode V
  leaf : Bytes → V → ArtNode V
  node : Kind → ℕ → Array ℕ → ℕ → Array ℕ → (ℕ → ArtNode V) → ArtNode V

abbrev pub max_prefix_len : ℕ
max_prefix_len = 10

-- The loop of find_index over left and right, and the tests behind it; `none` is -1.
abbrev pub find_end : ℕ → Array ℕ → ℕ → ℕ → Option ℕ
find_end ch keys left right =
    if leb (keys right) ch then some right else (if leb (keys left) ch then some left else none)

unfoldable pub find_loop : ℕ → ℕ → Array ℕ → ℕ → ℕ → Option ℕ
find_loop zero ch keys left right = find_end ch keys left right
find_loop (suc f) ch keys left right = elim (ltb (left + 1) right) [
  | false ↦ find_end ch keys left right
  | true ↦
      (let mid = (left + right) / 2 in
        elim (keys mid == ch) [
          | true ↦ some mid
          | false ↦ elim (ltb (keys mid) ch) [
            | true ↦ find_loop f ch keys mid right
            | false ↦ find_loop f ch keys left mid
          ]
        ])
]

unfoldable pub find_index : ℕ → Array ℕ → ℕ → Option ℕ
unfolding find_loop
find_index ch keys n = if n == 0 then none else find_loop n ch keys 0 (n - 1)

-- node_get_child: the place of a child in `children`, `none` where the function returns NULL.
abbrev pub key_found : ℕ → Array ℕ → Option ℕ → Option ℕ
key_found ch keys none = none
key_found ch keys (some i) = if keys i == ch then some i else none

unfoldable pub get_child : Kind → ℕ → Array ℕ → ℕ → Option ℕ
unfolding find_index
get_child node4 num keys ch = key_found ch keys (find_index ch keys num)
get_child node16 num keys ch = key_found ch keys (find_index ch keys num)
get_child node48 num keys ch = if keys ch == 0 then none else some (keys ch - 1)
get_child node256 num keys ch = some ch

-- How many bytes agree from `len` on, at `n` more places at most.
unfoldable pub agree_loop : ℕ → Array ℕ → Array ℕ → ℕ → ℕ
agree_loop zero a b len = len
agree_loop (suc n) a b len =
    let rest = agree_loop n a b (suc len) in if a len == b len then rest else len

abbrev pub byte_at : Bytes → Array ℕ
byte_at key i = get_or key i 0

-- key + depth
abbrev pub from : ℕ → Bytes → Array ℕ
from depth key i = byte_at key (depth + i)

-- check_prefix_partial
unfoldable pub check_prefix_partial : ℕ → Array ℕ → Bytes → ℕ → ℕ
unfolding agree_loop
check_prefix_partial prefix_len prefix key depth =
    agree_loop (min (min prefix_len max_prefix_len) (length key - depth)) (from depth key) prefix 0

-- The first index with a test, `n` at most: the loops of node_get_minimum and node48_add_child.
unfoldable pub first_index : ℕ → ℕ → (ℕ → Bool) → ℕ
first_index zero i test = i
first_index (suc n) i test = let rest = first_index n (suc i) test in if test i then i else rest

module _ {ℓ} {V : Type ℓ} where
  abbrev pub is_null : ArtNode V → Bool
  is_null null = true
  is_null (leaf k v) = false
  is_null (node kind plen prefix num keys children) = false

  -- art_search, from `node` and `depth` on.
  unfoldable pub search_from : ArtNode V → ℕ → Bytes → Option V
  unfolding same check_prefix_partial get_child
  search_from null depth key = none
  search_from (leaf k v) depth key = if same k key then some v else none
  search_from (node kind plen prefix num keys children) depth key =
      elim (check_prefix_partial plen prefix key depth == min plen max_prefix_len
        && ltb (depth + plen) (length key)) [
          | false ↦ none
          | true ↦ elim (get_child kind num keys (byte_at key (depth + plen))) [
            | none ↦ none
            | some i ↦ search_from (children i) (depth + plen + 1) key
          ]
        ]

  unfoldable pub art_search : ArtNode V → Bytes → Option V
  unfolding search_from
  art_search root key = search_from root 0 key

  abbrev pub first_child : Kind → Array ℕ → Array (ArtNode V) → ℕ
  first_child node4 keys children = 0
  first_child node16 keys children = 0
  first_child node48 keys children = keys (first_index 256 0 (λ i. not (keys i == 0))) - 1
  first_child node256 keys children = first_index 256 0 (λ i. not (is_null (children i)))

  -- node_get_minimum: the key of the left most leaf.
  unfoldable pub get_minimum : ArtNode V → Option Bytes
  unfolding first_index
  get_minimum null = none
  get_minimum (leaf k v) = some k
  get_minimum (node kind plen prefix num keys children) =
      get_minimum (children (first_child kind keys children))
