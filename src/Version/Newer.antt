-- ===== src/Version/Newer.antt =====
-- Which of two extension versions pgexporter_compare_extension_versions of
-- src/libpgexporter/extension.c takes for the newer one.
use Prim.Native.Nat.{Ordering}
use Prim.Native.Nat.Ordering.{lt, eq, gt}
use pgexporter.Prelude.{zero, suc, ◌+◌, ◌<◌, ◌≡◌, ◌⊎◌, inl, inr, refl, sym, ap, ◌∙◌, some, arith}
use pgexporter.Prelude.Int.{ℤ, pos, negsuc, pos_part, neg_part}
use pgexporter.Order.{compare_ℤ}
use pgexporter.Version.{Version, given, compare_versions, code, compare_extension_versions}
use pgexporter.Version.Compare.{and_then, compare_versions-eq-lex}

infix 50 ◌<ℤ◌
abbrev pub ◌<ℤ◌ : ℤ → ℤ → Type 0
a <ℤ b = pos_part a + neg_part b < pos_part b + neg_part a

-- The number that a minor or patch number stands for: -1 is none, which is 0.
abbrev pub value_of : ℤ → ℤ
value_of (pos n) = pos n
value_of (negsuc zero) = pos 0
value_of (negsuc (suc n)) = negsuc (suc n)

given-value_of : (n : ℤ) → given n ≡ value_of n
given-value_of (pos n) = ground arith
given-value_of (negsuc zero) = refl
given-value_of (negsuc (suc n)) = ground arith

-- The first version is newer: by its major number, with the same by its minor number, and with
-- this the same too by its patch number.
abbrev pub Newer : Version → Version → Type 0
Newer a b =
    (b.major <ℤ a.major)
    ⊎ (a.major ≡ b.major)
      × ((value_of b.minor <ℤ value_of a.minor)
          ⊎ (value_of a.minor ≡ value_of b.minor) × (value_of b.patch <ℤ value_of a.patch))

abbrev pub NoneNewer : Version → Version → Type 0
NoneNewer a b =
    (a.major ≡ b.major)
    × (value_of a.minor ≡ value_of b.minor)
    × (value_of a.patch ≡ value_of b.patch)

compare_ℤ-eq : (a b : ℤ) → compare_ℤ a b ≡ eq → a ≡ b
compare_ℤ-eq (pos n) (pos m) e = ap pos (ground arith)
compare_ℤ-eq (pos n) (negsuc m) e = absurd (ground arith)
compare_ℤ-eq (negsuc n) (pos m) e = absurd (ground arith)
compare_ℤ-eq (negsuc n) (negsuc m) e = ap negsuc (ground arith)

compare_ℤ-cases :
    (a b : ℤ)
    → ((compare_ℤ a b ≡ gt) × (b <ℤ a))
      ⊎ ((compare_ℤ a b ≡ lt) × (a <ℤ b))
      ⊎ ((compare_ℤ a b ≡ eq) × (a ≡ b))
compare_ℤ-cases a b = by (compare_ℤ a b) refl
  where
    by :
        (c : Ordering)
        → compare_ℤ a b ≡ c
        → ((compare_ℤ a b ≡ gt) × (b <ℤ a))
          ⊎ ((compare_ℤ a b ≡ lt) × (a <ℤ b))
          ⊎ ((compare_ℤ a b ≡ eq) × (a ≡ b))
    by gt e = inl (e, ground arith)
    by lt e = inr (inl (e, ground arith))
    by eq e = inr (inr (e, compare_ℤ-eq a b e))

by_numbers :
    (a b : Version)
    → compare_versions a b
      ≡ and_then (compare_ℤ a.major b.major) (
          and_then
            (compare_ℤ (value_of a.minor) (value_of b.minor))
            (compare_ℤ (value_of a.patch) (value_of b.patch)))
by_numbers a b =
    compare_versions-eq-lex a b
    ∙ rw
        (
          given-value_of a.minor,
          given-value_of b.minor,
          given-value_of a.patch,
          given-value_of b.patch,
        )
        refl

compare_text :
    (a b : Version) → compare_extension_versions (some a) (some b) ≡ code (compare_versions a b)
unfolding compare_extension_versions
compare_text a b = refl

-- The comparison of two extension versions is 1 exactly for a newer first version, -1 exactly for
-- a newer second one and 0 exactly where none is newer, for the three cases exclude one another:
-- the major numbers count first, then the minor, then the patch numbers, with -1 for one that was
-- not given read as 0.
pub compare_extension_versions_lem :
    (a b : Version)
    → ((compare_extension_versions (some a) (some b) ≡ pos 1) × Newer a b)
      ⊎ ((compare_extension_versions (some a) (some b) ≡ negsuc 0) × Newer b a)
      ⊎ ((compare_extension_versions (some a) (some b) ≡ pos 0) × NoneNewer a b)
compare_extension_versions_lem a b = elim (compare_ℤ-cases a.major b.major) [
  | inl x ↦ inl (shown gt (rw (by_numbers a b, x.0) refl), inl x.1)
  | inr (inl x) ↦ inr (inl (shown lt (rw (by_numbers a b, x.0) refl), inl x.1))
  | inr (inr x) ↦ elim (compare_ℤ-cases (value_of a.minor) (value_of b.minor)) [
    | inl y ↦ inl (shown gt (rw (by_numbers a b, x.0, y.0) refl), inr (x.1, inl y.1))
    | inr (inl y) ↦
        inr (inl (shown lt (rw (by_numbers a b, x.0, y.0) refl), inr (sym x.1, inl y.1)))
    | inr (inr y) ↦ elim (compare_ℤ-cases (value_of a.patch) (value_of b.patch)) [
      | inl z ↦ inl (shown gt (rw (by_numbers a b, x.0, y.0, z.0) refl), inr (x.1, inr (y.1, z.1)))
      | inr (inl z) ↦ inr (
          inl
            (shown lt (rw (by_numbers a b, x.0, y.0, z.0) refl), inr (sym x.1, inr (sym y.1, z.1))))
      | inr (inr z) ↦
          inr (inr (shown eq (rw (by_numbers a b, x.0, y.0, z.0) refl), (x.1, y.1, z.1)))
    ]
  ]
]
  where
    shown :
        (c : Ordering)
        → compare_versions a b ≡ c
        → compare_extension_versions (some a) (some b) ≡ code c
    shown c e = compare_text a b ∙ ap code e
