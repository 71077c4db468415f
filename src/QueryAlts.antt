-- ===== src/QueryAlts.antt =====
-- src/libpgexporter/pg_query_alts.c: the AVL tree of the alternatives of a metric's query, keyed
-- by the least version that the alternative runs on.
-- The tree is generic in the key, because ext_query_alts.c holds the same code over extension
-- versions (module ExtQueryAlts). `compare` of the keys stands for `<`, `==`, `>` on
-- `pg_version`. A pointer to a node is the subtree below it, `leaf` is NULL.
-- `height` is an unsigned int in the source. It is at most the number of nodes, so it cannot wrap
-- and is a natural number here; the balance is the signed difference.
pub mod Shape
pub mod Balance
pub mod Sorted
pub mod Contents
pub mod Lookup
pub mod Memory
pub mod Leaves
pub mod Reader
pub mod Built
pub mod Reads
use Prim.Native.Nat.Ordering.{lt, eq, gt}
use pgexporter.Prelude.{
  ℕ, ◌+◌, max, Bool, true, false, Option, none, some, ◌&&◌, not, if◌then◌else◌, ◌==◌, List, [], ◌∷◌,
}
use pgexporter.Prelude.Int.{ℤ, pos, negsuc, sub_ℕ, ltb_ℤ, eqb_ℤ}
use pgexporter.Order.{Order}

-- `struct pg_query_alts`: left, version, `struct query_alts_base`, height, right.
pub data Tree {ℓ κ} (K : Type ℓ) (V : Type κ) : Type (ℓ ⊔ κ) where
  leaf : Tree K V
  node : Tree K V → K → V → ℕ → Tree K V → Tree K V

module _ {ℓ κ} {K : Type ℓ} {V : Type κ} where
  abbrev pub height : Tree K V → ℕ
  height leaf = 0
  height (node l k v h r) = h

  abbrev pub node_balance : Tree K V → ℤ
  node_balance leaf = pos 0
  node_balance (node l k v h r) = sub_ℕ (height l) (height r)

  -- `MAX(height(left), height(right)) + 1` is stored in both nodes that a rotation moves.
  abbrev pub with_height : Tree K V → K → V → Tree K V → Tree K V
  with_height l k v r = node l k v (max (height l) (height r) + 1) r

  unfoldable pub right_rotate : Tree K V → Tree K V
  right_rotate leaf = leaf
  right_rotate (node leaf k v h r) = node leaf k v h r
  right_rotate (node (node ll lk lv lh lr) k v h r) = with_height ll lk lv (with_height lr k v r)

  unfoldable pub left_rotate : Tree K V → Tree K V
  left_rotate leaf = leaf
  left_rotate (node l k v h leaf) = node l k v h leaf
  left_rotate (node l k v h (node rl rk rv rh rr)) = with_height (with_height l k v rl) rk rv rr

  -- What `pgexporter_insert_pg_node_avl` does to a node once the recursive call has returned: it
  -- stores the height and rotates.
  unfoldable pub rebalance : Tree K V → K → V → Tree K V → Tree K V
  rebalance l k v r =
      let h = max (height l) (height r) + 1 in
      let balance = node_balance (node l k v h r) in
      if ltb_ℤ (pos 1) balance
      then (let l' = (if eqb_ℤ (node_balance l) (negsuc 0) then left_rotate l else l) in
          right_rotate (node l' k v h r))
      else (if ltb_ℤ balance (negsuc 0)
          then (let r' = (if eqb_ℤ (node_balance r) (pos 1) then right_rotate r else r) in
              if not (eqb_ℤ (node_balance (node l k v h r')) (pos 0))
              then left_rotate (node l k v h r')
              else node l k v h r')
          else node l k v h r)

  -- The node that the readers of the metric files insert (src/libpgexporter/yaml_configuration.c,
  -- json_configuration.c): zeroed memory, with the version and the query filled in.
  abbrev pub new_node : K → V → Tree K V
  new_node q w = node leaf q w 0 leaf

module _ {ℓ} {K : Type ℓ} ⦃o : Order K⦄ where
  -- `<=` and `>` on versions
  abbrev pub le_key : K → K → Bool
  le_key a b = elim (o.cmp a b) [ gt ↦ false | _ ↦ true ]

  abbrev pub gt_key : K → K → Bool
  gt_key a b = elim (o.cmp a b) [ gt ↦ true | _ ↦ false ]

module _ {ℓ κ} {K : Type ℓ} {V : Type κ} ⦃o : Order K⦄ where
  -- The flag says whether the new node was freed because its version is in the tree already.
  unfoldable pub insert : Tree K V → K → V → Tree K V × Bool
  insert leaf q w = (new_node q w, false)
  insert (node l k v h r) q w = elim (o.cmp k q) [
    | eq ↦ (node l k v h r, true)
    | gt ↦ (let (l', freed) = insert l q w in (rebalance l' k v r, freed))
    | lt ↦ (let (r', freed) = insert r q w in (rebalance l k v r', freed))
  ]

  -- `!last || temp->pg_version > last->pg_version`
  abbrev pub improves : K → Option (K × V) → Bool
  improves k none = true
  improves k (some (j, w)) = gt_key k j

  -- The loop of `pgexporter_get_pg_query_alt`, over `temp` and `last`.
  unfoldable pub search_alt : Tree K V → K → Option (K × V) → Option (K × V)
  search_alt leaf ver last = last
  search_alt (node l k v h r) ver last =
      let last' : Option (K × V) =
        (if le_key k ver && improves k last then some (k, v) else last) in
      elim (o.cmp k ver) [ gt ↦ search_alt l ver last' | _ ↦ search_alt r ver last' ]

  -- The test of `last` after the loop.
  abbrev pub check_last : K → Option (K × V) → Option (K × V)
  check_last ver none = none
  check_last ver (some (j, w)) = if gt_key j ver then none else some (j, w)

  unfoldable pub get_alt : Tree K V → K → Option (K × V)
  unfolding search_alt
  get_alt root ver = check_last ver (search_alt root ver none)
