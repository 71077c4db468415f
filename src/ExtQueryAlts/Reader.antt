-- ===== src/ExtQueryAlts/Reader.antt =====
-- src/libpgexporter/yaml_configuration.c: the loop over the queries of an extension's metric, from what
-- the YAML file held to the version tree.
use pgexporter.Prelude.{
  Bool, true, false, ◌≡◌, refl, ◌∙◌, ◌⊎◌, inl, inr, List, [], ◌∷◌, Option, none, some,
}
use pgexporter.Prelude.Int.{pos}
use pgexporter.Version.{Version, parse_version}
use pgexporter.Version.Compare.{version_order}
use pgexporter.QueryAlts.{Tree}
use pgexporter.QueryAlts.Reader.{YamlQuery, QueryBase, read_base, read_into}
use pgexporter.QueryAlts.Reads.{some_cases, into_no_version, into_no_base, into_next}
use pgexporter.ExtQueryAlts.{insert_extension, build_extension}

-- `none` is the return for a version that does not parse; the version starts out as zeros.
abbrev pub version_read : Bool × Version → Option Version
version_read (true, v) = none
version_read (false, v) = some v

unfoldable pub extension_version : YamlQuery → Option Version
unfolding parse_version
extension_version q =
    version_read
      (parse_version q.version_str (record { major = pos 0; minor = pos 0; patch = pos 0 }))

-- The queries of an extension's metric into its ext_root.
unfoldable pub read_extension_queries :
    Tree Version QueryBase → List YamlQuery → Option (Tree Version QueryBase)
unfolding read_into version_order extension_version
read_extension_queries t qs = read_into extension_version t qs

-- The versions and queries read, one for each query of the file.
abbrev pub AreReadExtension : List YamlQuery → List (Version × QueryBase) → Type 0
AreReadExtension [] [] = Unit
AreReadExtension [] (x ∷ xs) = ⊥
AreReadExtension (q ∷ qs) [] = ⊥
AreReadExtension (q ∷ qs) (x ∷ xs) =
    (extension_version q ≡ some x.0) × (read_base q ≡ some x.1) × AreReadExtension qs xs

-- A version does not parse, or a column type is unexpected.
abbrev pub SomeRefusedExtension : List YamlQuery → Type 0
SomeRefusedExtension [] = ⊥
SomeRefusedExtension (q ∷ qs) =
    (extension_version q ≡ none) ⊎ (read_base q ≡ none) ⊎ SomeRefusedExtension qs

read_empty :
    (t : Tree Version QueryBase) → read_extension_queries t [] ≡ some (build_extension t [])
unfolding read_extension_queries read_into build_extension
read_empty t = refl

no_version :
    (t : Tree Version QueryBase) (q : YamlQuery) (qs : List YamlQuery)
    → extension_version q ≡ none
    → read_extension_queries t (q ∷ qs) ≡ none
unfolding read_extension_queries
no_version t q qs e = into_no_version extension_version t q qs e

no_base :
    (t : Tree Version QueryBase) (q : YamlQuery) (qs : List YamlQuery) (v : Version)
    → extension_version q ≡ some v
    → read_base q ≡ none
    → read_extension_queries t (q ∷ qs) ≡ none
unfolding read_extension_queries
no_base t q qs v e f = into_no_base extension_version t q qs v e f

next :
    (t : Tree Version QueryBase) (q : YamlQuery) (qs : List YamlQuery) (v : Version) (b : QueryBase)
    → extension_version q ≡ some v
    → read_base q ≡ some b
    → read_extension_queries t (q ∷ qs) ≡ read_extension_queries (insert_extension t v b).0 qs
unfolding read_extension_queries insert_extension
next t q qs v b e f = into_next extension_version t q qs v b e f

build_next :
    (t : Tree Version QueryBase) (v : Version) (b : QueryBase) (xs : List (Version × QueryBase))
    → some (build_extension (insert_extension t v b).0 xs) ≡ some (build_extension t ((v, b) ∷ xs))
unfolding build_extension
build_next t v b xs = refl

-- Reading the queries of an extension's metric fails, and then a version does not parse or a query
-- has an unexpected column type, or inserts what was read of each query in their order.
pub read_extension_queries_lem :
    (t : Tree Version QueryBase) (qs : List YamlQuery)
    → ((read_extension_queries t qs ≡ none) × SomeRefusedExtension qs)
      ⊎ ((xs : List (Version × QueryBase)) × (read_extension_queries t qs
            ≡ some (build_extension t xs))
          × AreReadExtension qs xs)
read_extension_queries_lem t [] = inr ([], read_empty t, tt)
read_extension_queries_lem t (q ∷ qs) = elim (some_cases (extension_version q)) [
  | inl e ↦ inl (no_version t q qs e, inl e)
  | inr v ↦ elim (some_cases (read_base q)) [
    | inl e ↦ inl (no_base t q qs v.0 v.1 e, inr (inl e))
    | inr b ↦ elim (read_extension_queries_lem (insert_extension t v.0 b.0).0 qs) [
      | inl r ↦ inl (next t q qs v.0 b.0 v.1 b.1 ∙ r.0, inr (inr r.1))
      | inr r ↦ inr (
        (v.0, b.0) ∷ r.0,
        next t q qs v.0 b.0 v.1 b.1 ∙ r.1 ∙ build_next t v.0 b.0 r.0,
        (v.1, b.1, r.2),
      )
    ]
  ]
]
