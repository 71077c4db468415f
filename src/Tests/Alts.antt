-- ===== src/Tests/Alts.antt =====
-- src/libpgexporter/pg_query_alts.c and ext_query_alts.c at concrete trees.
use pgexporter.Prelude.{
  ℕ, ◌+◌, ◌≤◌, ◌≡◌, ◌⊎◌, refl, true, false, List, [], ◌∷◌, Option, none, some, length, arith,
}
use pgexporter.Order.{nat_order, int_order, ◌≺◌}
use pgexporter.QueryAlts.{
  Tree, leaf, node, height, insert, rebalance, right_rotate, left_rotate, get_alt,
}
use pgexporter.QueryAlts.Shape.{IsBalanced, depth, size}
use pgexporter.QueryAlts.Balance.{insert-IsBalanced, fib}
use pgexporter.QueryAlts.Sorted.{All, IsSorted, insert_sorted}
use pgexporter.QueryAlts.Contents.{to_list, to_list-insert, build, sort_all}
use pgexporter.QueryAlts.Lookup.{get_alt_best, LastBelow}
use mathlib.Core.List.{Perm, map}
use pgexporter.Prelude.Int.{ℤ, pos}
use pgexporter.Text.{Bytes, codes, same}
use pgexporter.Version.{Version, unset, compare_versions}
use pgexporter.Version.Compare.{version_order}
use pgexporter.ExtQueryAlts.{get_extension_alt, build_extension, extension_choice}
use pgexporter.QueryAlts.Memory.{
  Pruned, AllDone, copy_alts, copy_alts_lem, free_nodes, free_nodes-perm,
}
use pgexporter.QueryAlts.Leaves.{ascending_unbalanced}
use pgexporter.QueryAlts.Reader.{
  YamlColumn, YamlQuery, QueryBase, read_queries, read_into, read_base, read_columns, column_type,
}
use pgexporter.QueryAlts.Reads.{SomeRefused, AreRead, read_queries_lem, read_queries-depth}

abbrev alternatives : List (ℕ × ℕ)
alternatives = (10, 100) ∷ (14, 140) ∷ (13, 130) ∷ (17, 170) ∷ (14, 141) ∷ (11, 110) ∷ []

abbrev tree : Tree ℕ ℕ
tree =
    node (node leaf 10 100 1 (node leaf 11 110 0 leaf)) 13 130 2
      (node leaf 14 140 1 (node leaf 17 170 0 leaf))

tree_built : build leaf alternatives ≡ tree
unfolding build insert rebalance right_rotate left_rotate nat_order
tree_built = refl

tree-IsSorted : IsSorted (to_list tree)
unfolding nat_order
tree-IsSorted = (
  (refl, (refl, (refl, (refl, tt)))),
  ((refl, (refl, (refl, tt))), ((refl, (refl, tt)), ((refl, tt), (tt, tt)))),
)

tree-IsBalanced : IsBalanced tree
tree-IsBalanced = omega arith

server_16 : get_alt tree 16 ≡ some (14, 140)
unfolding get_alt nat_order
server_16 = refl

server_9 : get_alt tree 9 ≡ none
unfolding get_alt nat_order
server_9 = refl

insert-IsBalanced_example :
    IsBalanced (insert tree 12 120).0
    × (height tree ≤ height (insert tree 12 120).0)
    × (height (insert tree 12 120).0 ≤ height tree + 1)
insert-IsBalanced_example = insert-IsBalanced tree 12 120 tree-IsBalanced

to_list-insert_example : to_list (insert tree 12 120).0 ≡ insert_sorted 12 120 (to_list tree)
to_list-insert_example = to_list-insert tree 12 120 tree-IsSorted

get_alt_best_example :
    ((get_alt tree 16 ≡ none) × All (λ k. 16 ≺ k) (to_list tree))
    ⊎ ((x : ℕ × ℕ) × (get_alt tree 16 ≡ some x) × LastBelow 16 (to_list tree) x)
get_alt_best_example = get_alt_best tree 16 tree-IsSorted

ascending_unbalanced_example :
    (insert {K = ℕ} {V = ℕ} (insert (insert leaf 10 100).0 11 110).0 12 120).0
    ≡ node leaf 10 100 2 (node leaf 11 110 1 (node leaf 12 120 0 leaf))
ascending_unbalanced_example = ascending_unbalanced 10 11 12 100 110 120 (omega arith) (omega arith)

copy_alts_lem_example :
    Pruned (copy_alts tree (true ∷ true ∷ false ∷ [])).0 tree
    × (((copy_alts tree (true ∷ true ∷ false ∷ [])).0 ≡ tree)
        ⊎ ¬ AllDone (true ∷ true ∷ false ∷ []))
copy_alts_lem_example = copy_alts_lem tree (true ∷ true ∷ false ∷ [])

free_nodes-perm_example : Perm (free_nodes tree) (to_list tree)
free_nodes-perm_example = free_nodes-perm tree

-- Three queries of a metric: without a version, for 14, and for 10.
abbrev column : Bytes → YamlColumn
column type_text = record { name = some (codes "value"); description = none; type_text = type_text }

abbrev query : ℕ → Bytes → YamlQuery
query version type_text = record {
  query = codes "SELECT 1;";
  version = pos version;
  version_str = none;
  columns = column type_text ∷ [];
}

abbrev queries : List YamlQuery
queries = query 0 (codes "gauge") ∷ query 14 (codes "label") ∷ query 10 (codes "histogram") ∷ []

abbrev versions : Tree ℤ QueryBase → List ℤ
versions t = map (λ x. x.0) (to_list t)

abbrev tree_of : Option (Tree ℤ QueryBase) → Tree ℤ QueryBase
tree_of none = leaf
tree_of (some t) = t

abbrev read_tree : Tree ℤ QueryBase
read_tree = tree_of (read_queries (pos 17) leaf queries)

versions_read : versions read_tree ≡ pos 10 ∷ pos 14 ∷ pos 17 ∷ []
unfolding read_queries read_into read_base read_columns column_type same insert rebalance
    right_rotate left_rotate int_order
versions_read = refl

type_refused : read_queries (pos 17) leaf (query 10 (codes "guage") ∷ []) ≡ none
unfolding read_queries read_into read_base read_columns column_type same
type_refused = refl

read_queries_example :
    ((read_queries (pos 17) leaf queries ≡ none) × SomeRefused queries)
    ⊎ ((t : Tree ℤ QueryBase) × (xs : List (ℤ × QueryBase)) × (read_queries (pos 17) leaf queries
          ≡ some t)
        × AreRead (pos 17) queries xs
        × (to_list t ≡ sort_all [] xs)
        × IsSorted (to_list t))
read_queries_example = read_queries_lem (pos 17) queries

queries_read : read_queries (pos 17) leaf queries ≡ some read_tree
unfolding read_queries read_into read_base read_columns column_type same
queries_read = refl

read_queries-depth_example :
    (fib (depth read_tree + 1) ≤ size read_tree + 1) × (size read_tree ≤ length queries)
read_queries-depth_example = read_queries-depth (pos 17) queries read_tree queries_read

abbrev v : ℕ → ℕ → Version
v a b = record { major = pos a; minor = pos b; patch = unset }

abbrev extension_alternatives : List (Version × ℕ)
extension_alternatives = (v 1 9, 19) ∷ (v 1 10, 110) ∷ (record (v 1 9) { patch = pos 0 }, 190) ∷ []

installed_1_9 :
    get_extension_alt (build_extension leaf extension_alternatives) (v 1 9) ≡ some (v 1 9, 19)
unfolding get_extension_alt build_extension insert rebalance compare_versions
installed_1_9 = refl

extension_choice_example :
    ((get_extension_alt (build_extension leaf extension_alternatives) (v 1 9) ≡ none)
      × All (λ k. v 1 9 ≺ k) (sort_all [] extension_alternatives))
    ⊎ ((x : Version × ℕ) × (get_extension_alt (build_extension leaf extension_alternatives) (v 1 9)
          ≡ some x)
        × LastBelow (v 1 9) (sort_all [] extension_alternatives) x)
extension_choice_example = extension_choice extension_alternatives (v 1 9)
