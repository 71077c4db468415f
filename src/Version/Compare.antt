-- ===== src/Version/Compare.antt =====
-- The comparison of extension versions is a total preorder, the lexicographic one on the numbers
-- with those not given read as 0; so it can key the tree of query alternatives.
use Prim.Native.Nat.{Ordering}
use Prim.Native.Nat.Ordering.{lt, eq, gt}
use pgexporter.Prelude.{◌≡◌, refl, ap, ◌∙◌, if◌then◌else◌, arith}
use mathlib.Core.Path.{fun_ext}
use pgexporter.Prelude.Int.{ℤ, ltb_ℤ}
use pgexporter.Order.{Order, IsPreorder, compare_ℤ, compare_ℤ-IsPreorder}
use pgexporter.Version.{Version, compare_versions, given}

abbrev pub and_then : Ordering → Ordering → Ordering
and_then eq second = second
and_then lt second = lt
and_then gt second = gt

-- First by one comparison of a field, then by another.
module _ {ℓ κ μ} {A : Type ℓ} {K : Type κ} {J : Type μ} (f : A → K) (g : A → J)
    {c : K → K → Ordering} {d : J → J → Ordering} (p : IsPreorder c) (q : IsPreorder d) where
  abbrev lex : A → A → Ordering
  lex x y = and_then (c (f x) (f y)) (d (g x) (g y))

  lex-IsPreorder : IsPreorder lex
  lex-IsPreorder = record {
    cmp_refl = λ x. ground (arith, p.cmp_refl (f x), q.cmp_refl (g x));
    lt_of_gt = λ x y.
        ground (arith, p.lt_of_gt (f x) (f y), p.eq_symm (f x) (f y), q.lt_of_gt (g x) (g y));
    gt_of_lt = λ x y.
        ground (arith, p.gt_of_lt (f x) (f y), p.eq_symm (f x) (f y), q.gt_of_lt (g x) (g y));
    eq_symm = λ x y. ground (arith, p.eq_symm (f x) (f y), q.eq_symm (g x) (g y));
    eq_trans = λ x y z. ground (
      arith,
      p.eq_trans (f x) (f y) (f z),
      p.lt_trans (f x) (f y) (f z),
      p.lt_of_lt_eq (f x) (f y) (f z),
      p.lt_of_eq_lt (f x) (f y) (f z),
      q.eq_trans (g x) (g y) (g z),
    );
    lt_trans = λ x y z. ground (
      arith,
      p.eq_trans (f x) (f y) (f z),
      p.lt_trans (f x) (f y) (f z),
      p.lt_of_lt_eq (f x) (f y) (f z),
      p.lt_of_eq_lt (f x) (f y) (f z),
      q.lt_trans (g x) (g y) (g z),
    );
    lt_of_lt_eq = λ x y z. ground (
      arith,
      p.eq_trans (f x) (f y) (f z),
      p.lt_trans (f x) (f y) (f z),
      p.lt_of_lt_eq (f x) (f y) (f z),
      p.lt_of_eq_lt (f x) (f y) (f z),
      q.lt_of_lt_eq (g x) (g y) (g z),
    );
    lt_of_eq_lt = λ x y z. ground (
      arith,
      p.eq_trans (f x) (f y) (f z),
      p.lt_trans (f x) (f y) (f z),
      p.lt_of_lt_eq (f x) (f y) (f z),
      p.lt_of_eq_lt (f x) (f y) (f z),
      q.lt_of_eq_lt (g x) (g y) (g z),
    );
  }

-- The numbers that count, and the versions compared number by number.
abbrev pub minor_of : Version → ℤ
minor_of v = given v.minor

abbrev pub patch_of : Version → ℤ
patch_of v = given v.patch

abbrev minor_patch-IsPreorder :
    IsPreorder (lex minor_of patch_of compare_ℤ-IsPreorder compare_ℤ-IsPreorder)
minor_patch-IsPreorder = lex-IsPreorder minor_of patch_of compare_ℤ-IsPreorder compare_ℤ-IsPreorder

compare_step :
    (a b : ℤ) (x : Ordering)
    → (if ltb_ℤ b a then gt else (if ltb_ℤ a b then lt else x)) ≡ and_then (compare_ℤ a b) x
compare_step a b x = ground arith

and_then-eq : (c : Ordering) → and_then c eq ≡ c
and_then-eq lt = refl
and_then-eq eq = refl
and_then-eq gt = refl

pub compare_versions-eq-lex :
    (a b : Version)
    → compare_versions a b
      ≡ and_then
          (compare_ℤ a.major b.major)
          (and_then (compare_ℤ (minor_of a) (minor_of b)) (compare_ℤ (patch_of a) (patch_of b)))
unfolding compare_versions
compare_versions-eq-lex a b =
    compare_step a.major b.major _
    ∙ ap (and_then (compare_ℤ a.major b.major)) (
        compare_step (minor_of a) (minor_of b) _
        ∙ ap (and_then (compare_ℤ (minor_of a) (minor_of b))) (
            compare_step (patch_of a) (patch_of b) eq
            ∙ and_then-eq (compare_ℤ (patch_of a) (patch_of b))))

-- Versions are totally preordered.
pub compare_versions-IsPreorder : IsPreorder compare_versions
compare_versions-IsPreorder =
    rw (fun_ext (λ a. fun_ext (λ b. compare_versions-eq-lex a b))) (
      lex-IsPreorder (λ (v : Version). v.major) (λ v. v) compare_ℤ-IsPreorder
        minor_patch-IsPreorder)

instance unfoldable pub version_order : Order Version
version_order = record { cmp = compare_versions; laws = compare_versions-IsPreorder }
