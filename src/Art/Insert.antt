-- ===== src/Art/Insert.antt =====
-- Insertion, src/libpgexporter/art.c: node_add_child with its four sizes, check_prefix and
-- art_node_insert. The leaf that is made holds the value that pgexporter_value_create returns.
use pgexporter.Prelude.{
  ℕ, zero, suc, ◌+◌, ◌-◌, ◌%◌, Bool, true, false, not, ◌&&◌, Option, none, some, ltb, leb, ◌==◌,
  if◌then◌else◌, length, min,
}
use pgexporter.Text.{Bytes, same}
use pgexporter.Art.Arrays.{Array, fill, write, copy, memmove}
use pgexporter.Art.{
  Kind, node4, node16, node48, node256, ArtNode, null, leaf, node, max_prefix_len, find_index,
  get_child, agree_loop, byte_at, from, check_prefix_partial, is_null, get_minimum, first_index,
}

-- idx + 1, where idx may be -1
abbrev pub next_index : Option ℕ → ℕ
next_index none = 0
next_index (some i) = i + 1

-- The index of each key byte of node16 in node48: `keys[node->keys[i]] = i + 1` for i below n.
unfoldable pub index_keys : ℕ → Array ℕ → Array ℕ
index_keys zero old = fill 0
index_keys (suc n) old = write (index_keys n old) (old n) (n + 1)

-- copy_header: the prefix up to its length or MAX_PREFIX_LEN.
abbrev pub copy_prefix : ℕ → Array ℕ → Array ℕ
copy_prefix plen prefix = copy (min max_prefix_len plen) prefix (fill 0)

-- check_prefix, with the key of the left most leaf; `none` where there is no leaf.
abbrev pub check_further : ℕ → Bytes → Bytes → ℕ → ℕ
check_further len min_key key depth =
    agree_loop (min (length min_key) (length key) - depth - len) (from depth min_key)
      (from depth key) len

unfoldable pub check_prefix : ℕ → Array ℕ → Option Bytes → Bytes → ℕ → ℕ
unfolding check_prefix_partial agree_loop
check_prefix plen prefix least key depth =
    let len = check_prefix_partial plen prefix key depth in
    if ltb len max_prefix_len
    then len
    else elim least [ none ↦ len | some min_key ↦ check_further len min_key key depth ]

module _ {ℓ} {V : Type ℓ} where
  -- node4_add_child and node16_add_child where there is room
  abbrev pub shift_in :
      Kind → ℕ → Array ℕ → ℕ → Array ℕ → (ℕ → ArtNode V) → ℕ → ℕ → ArtNode V → ArtNode V
  shift_in kind plen prefix num keys children pos ch child =
      node kind plen prefix (num + 1) (write (memmove (pos + 1) pos (num - pos) keys) pos ch)
        (write (memmove (pos + 1) pos (num - pos) children) pos child)

  unfoldable pub add_child256 :
      ℕ → Array ℕ → ℕ → Array ℕ → (ℕ → ArtNode V) → ℕ → ArtNode V → ArtNode V
  add_child256 plen prefix num keys children ch child =
      node node256 plen prefix ((num + 1) % 256) keys (write children ch child)

  abbrev pub spread : Array ℕ → (ℕ → ArtNode V) → ℕ → ArtNode V
  spread keys children i = if ltb i 256 && not (keys i == 0) then children (keys i - 1) else null

  unfoldable pub add_child48 :
      ℕ → Array ℕ → ℕ → Array ℕ → (ℕ → ArtNode V) → ℕ → ArtNode V → ArtNode V
  unfolding first_index add_child256
  add_child48 plen prefix num keys children ch child =
      if ltb num 48
      then (let free = first_index 48 0 (λ i. is_null (children i)) in
          node node48 plen prefix (num + 1) (write keys ch (free + 1)) (write children free child))
      else add_child256 plen (copy_prefix plen prefix) num (fill 0) (spread keys children) ch child

  unfoldable pub add_child16 :
      ℕ → Array ℕ → ℕ → Array ℕ → (ℕ → ArtNode V) → ℕ → ArtNode V → ArtNode V
  unfolding find_index index_keys add_child48
  add_child16 plen prefix num keys children ch child =
      if ltb num 16
      then shift_in node16 plen prefix num keys children (next_index (find_index ch keys num)) ch
          child
      else add_child48 plen (copy_prefix plen prefix) num (index_keys num keys)
          (copy num children (fill null)) ch child

  unfoldable pub add_child4 :
      ℕ → Array ℕ → ℕ → Array ℕ → (ℕ → ArtNode V) → ℕ → ArtNode V → ArtNode V
  unfolding find_index add_child16
  add_child4 plen prefix num keys children ch child =
      if ltb num 4
      then shift_in node4 plen prefix num keys children (next_index (find_index ch keys num)) ch
          child
      else add_child16 plen (copy_prefix plen prefix) num (copy num keys (fill 0))
          (copy num children (fill null)) ch child

  -- node_add_child
  unfoldable pub add_child :
      Kind → ℕ → Array ℕ → ℕ → Array ℕ → (ℕ → ArtNode V) → ℕ → ArtNode V → ArtNode V
  unfolding add_child4 add_child16 add_child48 add_child256
  add_child node4 = add_child4
  add_child node16 = add_child16
  add_child node48 = add_child48
  add_child node256 = add_child256

  -- The two calls of node_add_child on a new node4: the new leaf, then what was there.
  unfoldable pub two_children : ℕ → Array ℕ → ℕ → ArtNode V → ℕ → ArtNode V → ArtNode V
  unfolding add_child4
  two_children plen prefix ch child other old =
      elim (add_child4 plen prefix 0 (fill 0) (fill null) ch child) [
        | node kind plen' prefix' num keys children ↦
            add_child4 plen' prefix' num keys children other old
        | rest ↦ rest
      ]

  -- The case of a leaf with another key: a node4 with the bytes that both keys share from `depth` on.
  unfoldable pub split_leaf : Bytes → V → ℕ → Bytes → V → ArtNode V
  unfolding agree_loop two_children
  split_leaf leaf_key w depth key v =
      let plen =
        agree_loop (min (length key) (length leaf_key) - depth) (from depth key)
          (from depth leaf_key) 0 in
      two_children plen (copy (min plen max_prefix_len) (from depth key) (fill 0))
        (byte_at key (depth + plen)) (leaf key v) (byte_at leaf_key (depth + plen))
        (leaf leaf_key w)

  -- The case of a key that leaves the prefix of a node after `diff` bytes: a node4 with these bytes
  -- over the node, whose prefix is shortened, from the left most key where it is not all stored.
  unfoldable pub split_node :
      Kind
      → ℕ
      → Array ℕ
      → ℕ
      → Array ℕ
      → (ℕ → ArtNode V)
      → Option Bytes
      → ℕ
      → ℕ
      → Bytes
      → V
      → ArtNode V
  unfolding two_children
  split_node kind plen prefix num keys children least diff depth key v =
      let rest = plen - (diff + 1) in
      let start = copy (min max_prefix_len diff) prefix (fill 0) in
      if leb plen max_prefix_len
      then two_children diff start (byte_at key (depth + diff)) (leaf key v) (prefix diff)
          (node kind rest (memmove 0 (diff + 1) rest prefix) num keys children)
      else elim least [
        | none ↦ null
        | some min_key ↦
            two_children diff start (byte_at key (depth + diff)) (leaf key v)
              (byte_at min_key (depth + diff))
              (node kind rest
                (copy (min max_prefix_len rest) (from (depth + diff + 1) min_key) prefix) num keys
                children)
      ]

  -- art_node_insert: the tree in place of the node, and *new.
  unfoldable pub node_insert : ArtNode V → ℕ → Bytes → V → ArtNode V × Bool
  unfolding same get_child check_prefix get_minimum add_child split_leaf split_node
  node_insert null depth key v = (leaf key v, true)
  node_insert (leaf k w) depth key v =
      if same k key then (leaf k v, false) else (split_leaf k w depth key v, true)
  node_insert (node kind plen prefix num keys children) depth key v =
      let least = get_minimum (node kind plen prefix num keys children) in
      let diff = check_prefix plen prefix least key depth in
      elim (ltb diff plen) [
        | true ↦ (split_node kind plen prefix num keys children least diff depth key v, true)
        | false ↦ elim (get_child kind num keys (byte_at key (depth + plen))) [
          | none ↦ (
            add_child kind plen prefix num keys children (byte_at key (depth + plen)) (leaf key v),
            true,
          )
          | some i ↦
              (let below = node_insert (children i) (depth + plen + 1) key v in
                (
                  node kind plen prefix (if is_null (children i) then (num + 1) % 256 else num) keys
                      (write children i below.0),
                  below.1,
                ))
        ]
      ]

-- struct art
pub record Art {ℓ} (V : Type ℓ) : Type ℓ where
  pub root : ArtNode V
  pub size : ℕ

module _ {ℓ} {V : Type ℓ} where
  -- pgexporter_art_create
  unfoldable pub art_create : Art V
  art_create = record { root = null; size = 0 }

  -- pgexporter_art_insert
  unfoldable pub art_insert : Art V → Bytes → V → Art V
  unfolding node_insert
  art_insert t key v =
      let (root, new) = node_insert t.root 0 key v in
      record { root = root; size = if new then t.size + 1 else t.size }
