-- ===== src/ExtQueryAlts.antt =====
-- src/libpgexporter/ext_query_alts.c: the alternatives of an extension's query. The functions are
-- those of pg_query_alts.c, statement by statement, with
-- `pgexporter_compare_extension_versions` in place of the operators on `pg_version`, so they are
-- those of `QueryAlts` at the order of extension versions.
pub mod Reader
use pgexporter.Prelude.{◌≡◌, ◌⊎◌, refl, Bool, List, [], ◌∷◌, Option, some, none}
use pgexporter.Order.{◌≺◌}
use pgexporter.Version.{Version}
use pgexporter.Version.Compare.{version_order}
use pgexporter.QueryAlts.{Tree, leaf, right_rotate, left_rotate, insert, get_alt}
use pgexporter.QueryAlts.Memory.{Outcomes, copy_alts, free_nodes}
use pgexporter.QueryAlts.Sorted.{All}
use pgexporter.QueryAlts.Contents.{build, sort_all, to_list-build}
use pgexporter.QueryAlts.Lookup.{LastBelow, get_alt_best}

module _ {ℓ} {V : Type ℓ} where
  unfoldable pub ext_right_rotate : Tree Version V → Tree Version V
  unfolding right_rotate
  ext_right_rotate = right_rotate

  unfoldable pub ext_left_rotate : Tree Version V → Tree Version V
  unfolding left_rotate
  ext_left_rotate = left_rotate

  -- `pgexporter_insert_extension_node_avl`
  unfoldable pub insert_extension : Tree Version V → Version → V → Tree Version V × Bool
  unfolding insert version_order
  insert_extension t q w = insert t q w

  -- `pgexporter_get_extension_query_alt`
  unfoldable pub get_extension_alt : Tree Version V → Version → Option (Version × V)
  unfolding get_alt version_order
  get_extension_alt t ver = get_alt t ver

  -- `pgexporter_copy_extension_query_alts`
  unfoldable pub copy_extension_alts : Tree Version V → Outcomes → Tree Version V × Outcomes
  unfolding copy_alts
  copy_extension_alts = copy_alts

  -- `pgexporter_free_extension_node_avl`
  unfoldable pub free_extension_nodes : Tree Version V → List (Version × V)
  unfolding free_nodes
  free_extension_nodes = free_nodes

  -- The insertions of a list one after the other, which the reader of a file makes (Reader).
  unfoldable pub build_extension : Tree Version V → List (Version × V) → Tree Version V
  unfolding insert_extension
  build_extension t [] = t
  build_extension t (x ∷ xs) = build_extension (insert_extension t x.0 x.1).0 xs

  build_extension-eq :
      (t : Tree Version V) (xs : List (Version × V)) → build_extension t xs ≡ build t xs
  unfolding build_extension build
  build_extension-eq t [] = refl
  build_extension-eq t (x ∷ xs) = build_extension-eq (insert t x.0 x.1).0 xs

  -- The alternative given to an installed version after the alternatives of a file are inserted:
  -- none if all are for newer versions; else the entry of the sorted list, with the first of
  -- those of equal version kept, that only newer ones stand behind.
  pub extension_choice :
      (alts : List (Version × V)) (ver : Version)
      → ((get_extension_alt (build_extension leaf alts) ver ≡ none)
          × All (λ k. ver ≺ k) (sort_all [] alts))
        ⊎ ((x : Version × V) × (get_extension_alt (build_extension leaf alts) ver ≡ some x)
            × LastBelow ver (sort_all [] alts) x)
  unfolding get_extension_alt
  extension_choice alts ver =
      let built = to_list-build leaf alts tt in
      rw (build_extension-eq leaf alts, ← built.0) (get_alt_best (build leaf alts) ver built.1)
