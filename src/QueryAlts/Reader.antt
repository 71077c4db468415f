-- ===== src/QueryAlts/Reader.antt =====
-- src/libpgexporter/yaml_configuration.c: the loop over the queries of a metric, from what the YAML
-- file held to the version tree. Shared memory does not run out, and is zero before it is written.
-- Each column has a type.
use pgexporter.Prelude.{
  ◌||◌, Bool, true, false, List, [], ◌∷◌, Option, none, some, ℕ, if◌then◌else◌, take,
}
use pgexporter.Prelude.Int.{ℤ, pos, eqb_ℤ}
use pgexporter.Order.{Order, int_order}
use pgexporter.Text.{Bytes, codes, same}
use pgexporter.QueryAlts.{Tree, insert}

-- yaml_column_t
pub record YamlColumn : Type 0 where
  pub name : Option Bytes
  pub description : Option Bytes
  pub type_text : Bytes

-- yaml_query_t, with the columns as a list; the version is a char.
pub record YamlQuery : Type 0 where
  pub query : Bytes
  pub version : ℤ
  pub version_str : Option Bytes
  pub columns : List YamlColumn

-- LABEL_TYPE, COUNTER_TYPE, GAUGE_TYPE and HISTOGRAM_TYPE
pub data ColumnType : Type 0 where
  label : ColumnType
  counter : ColumnType
  gauge : ColumnType
  histogram : ColumnType

pub record Column : Type 0 where
  pub name : Bytes
  pub description : Bytes
  pub type_of : ColumnType

-- struct query_alts_base
pub record QueryBase : Type 0 where
  pub columns : List Column
  pub query : Bytes
  pub is_histogram : Bool

-- MAX_NUMBER_OF_COLUMNS, MAX_QUERY_LENGTH - 1 and PROMETHEUS_LENGTH - 1
abbrev pub max_columns : ℕ
max_columns = 32

abbrev pub max_query : ℕ
max_query = 2047

abbrev pub max_name : ℕ
max_name = 255

unfoldable pub column_type : Bytes → Option ColumnType
unfolding same
column_type s =
    if same s (codes "label")
    then some label
    else if same s (codes "counter")
    then some counter
    else if same s (codes "gauge")
    then some gauge
    else if same s (codes "histogram")
    then some histogram
    else none

abbrev pub column_text : Option Bytes → Bytes
column_text none = []
column_text (some s) = take max_name s

-- The loop over the columns; `none` is the return for an unexpected type.
unfoldable pub read_columns : List YamlColumn → Option (List Column)
unfolding column_type
read_columns [] = some []
read_columns (c ∷ cs) = elim (column_type c.type_text) [
  | none ↦ none
  | some t ↦ elim (read_columns cs) [
    | none ↦ none
    | some rest ↦ some (
        record { name = column_text c.name; description = column_text c.description; type_of = t }
        ∷ rest)
  ]
]

abbrev pub is_histogram_type : ColumnType → Bool
is_histogram_type label = false
is_histogram_type counter = false
is_histogram_type gauge = false
is_histogram_type histogram = true

abbrev pub any_histogram : List Column → Bool
any_histogram [] = false
any_histogram (c ∷ cs) = is_histogram_type c.type_of || any_histogram cs

unfoldable pub read_base : YamlQuery → Option QueryBase
unfolding read_columns
read_base q = elim (read_columns (take max_columns q.columns)) [
  | none ↦ none
  | some cs ↦
      some
        (record { columns = cs; query = take max_query q.query; is_histogram = any_histogram cs })
]

-- The version that a query is inserted under: the default for 0.
abbrev pub version_or : ℤ → ℤ → ℤ
version_or default version = if eqb_ℤ version (pos 0) then default else version

-- The loop, with the version that each query is read to.
module _ {ℓ} {K : Type ℓ} ⦃o : Order K⦄ (version_of : YamlQuery → Option K) where
  unfoldable pub read_into : Tree K QueryBase → List YamlQuery → Option (Tree K QueryBase)
  unfolding read_base insert
  read_into t [] = some t
  read_into t (q ∷ qs) = elim (version_of q) [
    | none ↦ none
    | some k ↦ elim (read_base q) [ none ↦ none | some b ↦ read_into (insert t k b).0 qs ]
  ]

-- The queries of a metric into its pg_root; the default version is a char, too.
unfoldable pub read_queries : ℤ → Tree ℤ QueryBase → List YamlQuery → Option (Tree ℤ QueryBase)
unfolding read_into int_order
read_queries default t qs = read_into (λ q. some (version_or default q.version)) t qs
