-- ===== src/QueryAlts/Reads.antt =====
-- The version tree that the queries of a metric are read into, src/libpgexporter/yaml_configuration.c:
-- which lists of queries are refused, and what the tree holds and how deep it is for the others.
use pgexporter.Prelude.{
  ℕ, zero, suc, ◌+◌, ◌≤◌, ◌≡◌, ◌≢◌, refl, sym, ap, ◌∙◌, ◌⊎◌, inl, inr, false, List, [], ◌∷◌, Option,
  none, some, length, take, arith,
}
use mathlib.Core.Path.{subst}
use pgexporter.Prelude.Int.{ℤ, pos, negsuc, eqb_ℤ}
use pgexporter.Order.{Order, int_order}
use pgexporter.Text.{Bytes, codes, same}
use pgexporter.QueryAlts.{Tree, leaf, insert}
use pgexporter.QueryAlts.Shape.{depth, size}
use pgexporter.QueryAlts.Balance.{fib, depth_bound}
use pgexporter.QueryAlts.Sorted.{IsSorted}
use pgexporter.QueryAlts.Contents.{to_list, build, sort_all, to_list-build}
use pgexporter.QueryAlts.Reader.{
  YamlColumn, YamlQuery, label, counter, gauge, histogram, QueryBase, ColumnType, Column,
  column_text, max_columns, column_type, read_columns, read_base, version_or, read_into,
  read_queries,
}
use pgexporter.QueryAlts.Built.{build-IsBalanced}

-- A column type that is none of the four.
abbrev pub IsUnexpected : Bytes → Type 0
IsUnexpected s =
    (s ≢ codes "label") × (s ≢ codes "counter") × (s ≢ codes "gauge") × (s ≢ codes "histogram")

abbrev pub SomeUnexpected : List YamlColumn → Type 0
SomeUnexpected [] = ⊥
SomeUnexpected (c ∷ cs) = IsUnexpected c.type_text ⊎ SomeUnexpected cs

-- A query has an unexpected type among the columns that are read.
abbrev pub SomeRefused : List YamlQuery → Type 0
SomeRefused [] = ⊥
SomeRefused (q ∷ qs) = SomeUnexpected (take max_columns q.columns) ⊎ SomeRefused qs

-- The versions and queries read, one for each query of the file.
abbrev pub AreRead : ℤ → List YamlQuery → List (ℤ × QueryBase) → Type 0
AreRead default [] [] = Unit
AreRead default [] (x ∷ xs) = ⊥
AreRead default (q ∷ qs) [] = ⊥
AreRead default (q ∷ qs) (x ∷ xs) =
    (((q.version ≡ pos 0) × (x.0 ≡ default)) ⊎ ((q.version ≢ pos 0) × (x.0 ≡ q.version)))
    × (read_base q ≡ some x.1)
    × AreRead default qs xs

column_type-IsUnexpected : (s : Bytes) → column_type s ≡ none → IsUnexpected s
unfolding column_type same
column_type-IsUnexpected s h = (
  λ e. (let f : some label ≡ none = sym (ap column_type e) ∙ h in cc f),
  λ e. (let f : some counter ≡ none = sym (ap column_type e) ∙ h in cc f),
  λ e. (let f : some gauge ≡ none = sym (ap column_type e) ∙ h in cc f),
  λ e. (let f : some histogram ≡ none = sym (ap column_type e) ∙ h in cc f),
)

pub some_cases : {A : Type 0} (o : Option A) → (o ≡ none) ⊎ ((a : A) × (o ≡ some a))
some_cases none = inl refl
some_cases (some a) = inr (a, refl)

read_columns-some :
    (c : YamlColumn) (cs : List YamlColumn) (t : ColumnType) (rest : List Column)
    → column_type c.type_text ≡ some t
    → read_columns cs ≡ some rest
    → read_columns (c ∷ cs)
      ≡ some (
          record { name = column_text c.name; description = column_text c.description; type_of = t }
          ∷ rest)
unfolding read_columns
read_columns-some c cs t rest e f = rw (e, f, read_columns) refl

read_columns-none : (cs : List YamlColumn) → read_columns cs ≡ none → SomeUnexpected cs
unfolding read_columns
read_columns-none [] h = cc h
read_columns-none (c ∷ cs) h = elim (some_cases (column_type c.type_text)) [
  | inl e ↦ inl (column_type-IsUnexpected c.type_text e)
  | inr t ↦ elim (some_cases (read_columns cs)) [
    | inl e ↦ inr (read_columns-none cs e)
    | inr rest ↦ cc (h, read_columns-some c cs t.0 rest.0 t.1 rest.1)
  ]
]

read_base-none : (q : YamlQuery) → read_base q ≡ none → SomeUnexpected (take max_columns q.columns)
unfolding read_base
read_base-none q h = elim (some_cases (read_columns (take max_columns q.columns))) [
  | inl e ↦ read_columns-none _ e
  | inr cs ↦ cc (rw cs.1 at h)
]

version_or-cases :
    (d v : ℤ) → ((v ≡ pos 0) × (version_or d v ≡ d)) ⊎ ((v ≢ pos 0) × (version_or d v ≡ v))
version_or-cases d (pos zero) = inl (refl, refl)
version_or-cases d (pos (suc n)) = inr ((λ e. cc e), rw (nonzero n) refl)
  where
    nonzero : (n : ℕ) → eqb_ℤ (pos (suc n)) (pos 0) ≡ false
    nonzero n = ground arith
version_or-cases d (negsuc n) = inr ((λ e. cc e), rw (nonzero n) refl)
  where
    nonzero : (n : ℕ) → eqb_ℤ (negsuc n) (pos 0) ≡ false
    nonzero n = ground arith

AreRead-length :
    (d : ℤ) (qs : List YamlQuery) (xs : List (ℤ × QueryBase))
    → AreRead d qs xs
    → length xs ≡ length qs
AreRead-length d [] [] r = refl
AreRead-length d [] (x ∷ xs) r = absurd r
AreRead-length d (q ∷ qs) [] r = absurd r
AreRead-length d (q ∷ qs) (x ∷ xs) r = ap suc (AreRead-length d qs xs r.2)

-- A step of the loop, for either kind of version.
module _ {K : Type 0} ⦃o : Order K⦄ (version_of : YamlQuery → Option K) (t : Tree K QueryBase)
    (q : YamlQuery) (qs : List YamlQuery) where
  pub into_no_version : version_of q ≡ none → read_into version_of t (q ∷ qs) ≡ none
  unfolding read_into
  into_no_version e = rw (e, read_into) refl

  pub into_no_base :
      (k : K) → version_of q ≡ some k → read_base q ≡ none → read_into version_of t (q ∷ qs) ≡ none
  unfolding read_into
  into_no_base k e f = rw (e, f, read_into) refl

  pub into_next :
      (k : K) (b : QueryBase)
      → version_of q ≡ some k
      → read_base q ≡ some b
      → read_into version_of t (q ∷ qs) ≡ read_into version_of (insert t k b).0 qs
  unfolding read_into
  into_next k b e f = rw (e, f, read_into) refl

read_none :
    (d : ℤ) (t : Tree ℤ QueryBase) (q : YamlQuery) (qs : List YamlQuery)
    → read_base q ≡ none
    → read_queries d t (q ∷ qs) ≡ none
unfolding read_queries
read_none d t q qs e =
    into_no_base (λ r. some (version_or d r.version)) t q qs (version_or d q.version) refl e

read_some :
    (d : ℤ) (t : Tree ℤ QueryBase) (q : YamlQuery) (b : QueryBase) (qs : List YamlQuery)
    → read_base q ≡ some b
    → read_queries d t (q ∷ qs) ≡ read_queries d (insert t (version_or d q.version) b).0 qs
unfolding read_queries
read_some d t q b qs e =
    into_next (λ r. some (version_or d r.version)) t q qs (version_or d q.version) b refl e

read_empty : (d : ℤ) (t : Tree ℤ QueryBase) → read_queries d t [] ≡ some (build t [])
unfolding read_queries read_into build
read_empty d t = refl

build_next :
    (t : Tree ℤ QueryBase) (k : ℤ) (b : QueryBase) (xs : List (ℤ × QueryBase))
    → some (build (insert t k b).0 xs) ≡ some (build t ((k, b) ∷ xs))
unfolding build
build_next t k b xs = refl

-- Reading is refusing, or inserting what was read of each query.
read_queries-build :
    (d : ℤ) (t : Tree ℤ QueryBase) (qs : List YamlQuery)
    → ((read_queries d t qs ≡ none) × SomeRefused qs)
      ⊎ ((xs : List (ℤ × QueryBase)) × (read_queries d t qs ≡ some (build t xs)) × AreRead d qs xs)
read_queries-build d t [] = inr ([], read_empty d t, tt)
read_queries-build d t (q ∷ qs) = elim (some_cases (read_base q)) [
  | inl e ↦ inl (read_none d t q qs e, inl (read_base-none q e))
  | inr b ↦ elim (read_queries-build d (insert t (version_or d q.version) b.0).0 qs) [
    | inl r ↦ inl (read_some d t q b.0 qs b.1 ∙ r.0, inr r.1)
    | inr r ↦ inr (
      (version_or d q.version, b.0) ∷ r.0,
      read_some d t q b.0 qs b.1 ∙ r.1 ∙ build_next t (version_or d q.version) b.0 r.0,
      (version_or-cases d q.version, b.1, r.2),
    )
  ]
]

-- Reading the queries of a metric, with its default version, either fails, and then a query has
-- an unexpected type among its first 32 columns, or gives a tree whose versions ascend and which
-- holds what sorting the queries read by version gives, the first of those with the same version:
-- each under its own version, or under the default where this is 0.
pub read_queries_lem :
    (d : ℤ) (qs : List YamlQuery)
    → ((read_queries d leaf qs ≡ none) × SomeRefused qs)
      ⊎ ((t : Tree ℤ QueryBase) × (xs : List (ℤ × QueryBase)) × (read_queries d leaf qs ≡ some t)
          × AreRead d qs xs
          × (to_list t ≡ sort_all [] xs)
          × IsSorted (to_list t))
read_queries_lem d qs = elim (read_queries-build d leaf qs) [
  | inl r ↦ inl r
  | inr r ↦
      let built = to_list-build leaf r.0 tt in inr (build leaf r.0, r.0, r.1, r.2, built.0, built.1)
]

-- The tree that the queries of a metric are read into has a depth that is logarithmic in the
-- number of its nodes, n, which is at most the number of queries: for the depth d, fib (d + 1)
-- is at most n + 1.
pub read_queries-depth :
    (d : ℤ) (qs : List YamlQuery) (t : Tree ℤ QueryBase)
    → read_queries d leaf qs ≡ some t
    → (fib (depth t + 1) ≤ size t + 1) × (size t ≤ length qs)
read_queries-depth d qs t e = elim (read_queries-build d leaf qs) [
  | inl r ↦ cc (e, r.0)
  | inr r ↦
      let b = build-IsBalanced leaf r.0 tt in
      let same_tree : build leaf r.0 ≡ t = some_inj (sym r.1 ∙ e) in
      subst (λ u. (fib (depth u + 1) ≤ size u + 1) × (size u ≤ length qs)) same_tree
        (depth_bound (build leaf r.0) b.0, omega (arith, b.1, AreRead-length d qs r.0 r.2))
]
  where
    some_inj : {a b : Tree ℤ QueryBase} → some a ≡ some b → a ≡ b
    some_inj e = cc e
