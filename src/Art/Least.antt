-- ===== src/Art/Least.antt =====
-- node_get_minimum: below a node with a child there is a leaf, and its key goes through the path.
use pgexporter.Prelude.{
  ℕ, zero, suc, ◌≤◌, ◌+◌, ◌-◌, ◌<◌, ◌≡◌, ◌≢◌, refl, sym, ap, ◌∙◌, Bool, true, false, not, Option,
  some, ◌==◌, length, arith,
}
use pgexporter.Text.{Bytes}
use pgexporter.Art.Arrays.{Array}
use pgexporter.Art.{Kind, ArtNode, node, is_null, get_child, first_index, first_child, get_minimum}
use pgexporter.Art.Index.{Found, present, missing}
use pgexporter.Art.Slots.{slot_tree, child_at, sorted-Found, Found-some}
use pgexporter.Art.Children.{IsSorted, IsIndexed, IsFine, fine4, fine16, fine48, fine256}
use pgexporter.Art.Sorted.{sorted_at}
use pgexporter.Art.Indexed.{first_index_lem}
use pgexporter.Art.Grow.{indexed_at, Pointed, unset, points, indexed_at-Pointed}
use pgexporter.Art.Paths.{Under, step, Under-step, Holds, empty, one_key, branch}

module _ {ℓ} {V : Type ℓ} where
  -- The first child is the child for the lowest byte that has one.
  pub record First (at : ℕ → ArtNode V) (child : ArtNode V) : Type ℓ where
    pub byte : ℕ
    pub in_range : byte < 256
    pub is_it : at byte ≡ child
    pub solid : is_null child ≡ false
    pub lowest : (c : ℕ) → c < 256 → is_null (at c) ≡ false → byte ≤ c

  First-sorted :
      (limit num : ℕ) (keys : Array ℕ) (children : ℕ → ArtNode V)
      → IsSorted limit num keys children
      → (c : ℕ) → is_null (sorted_at num keys children c) ≡ false
      → First (sorted_at num keys children) (children 0)
  First-sorted limit num keys children s c e =
      let l = filled _ (sorted-Found c num keys s.ascending) e in
      record {
        byte = keys 0;
        in_range = s.bytes 0 l;
        is_it = ap (slot_tree children) (
            Found-some (keys 0) num keys _ s.ascending (sorted-Found (keys 0) num keys s.ascending)
              0 l refl);
        solid = s.solid 0 l;
        lowest = λ d m g. lowest d _ (sorted-Found d num keys s.ascending) g;
      }
    where
      at_first : (i : ℕ) → i < num → keys 0 ≤ keys i
      at_first zero l = omega arith
      at_first (suc i) l = omega (arith, s.ascending 0 (suc i) (omega arith) l)

      lowest :
          (d : ℕ) (o : Option ℕ)
          → Found d num keys o
          → is_null (slot_tree children o) ≡ false
          → keys 0 ≤ d
      lowest d o (present i l f) e = omega (arith, at_first i l, f)
      lowest d o (missing a) e = cc e

      filled :
          (o : Option ℕ) → Found c num keys o → is_null (slot_tree children o) ≡ false → 0 < num
      filled o (present i l f) e = omega arith
      filled o (missing a) e = cc e

  First-indexed :
      (num : ℕ) (keys : Array ℕ) (children : ℕ → ArtNode V)
      → IsIndexed num keys children
      → (c : ℕ) → c < 256
      → is_null (indexed_at keys children c) ≡ false
      → First
          (indexed_at keys children)
          (children (keys (first_index 256 0 (λ i. not (keys i == 0))) - 1))
  First-indexed num keys children s c l e =
      let f =
        first_index_lem 256 0 (λ i. not (keys i == 0)) c (omega arith) (omega arith)
          (pointed c e (indexed_at-Pointed keys children c)) in
      let i = first_index 256 0 (λ i. not (keys i == 0)) in
      record {
        byte = i;
        in_range = omega (arith, f.1);
        is_it = pointing (nonzero (keys i) f.0) (indexed_at-Pointed keys children i);
        solid = s.solid i (omega (arith, f.1)) (nonzero (keys i) f.0);
        lowest = λ d m g.
            (first_index_lem 256 0 (λ j. not (keys j == 0)) d (omega arith) (omega arith)
              (pointed d g (indexed_at-Pointed keys children d))).1;
      }
    where
      nonzero : (k : ℕ) → not (k == 0) ≡ true → k ≢ 0
      nonzero k e f = ground arith

      shown : (k : ℕ) → k ≢ 0 → not (k == 0) ≡ true
      shown k e = ground arith

      pointed :
          (d : ℕ)
          → is_null (indexed_at keys children d) ≡ false
          → Pointed (keys d) children (indexed_at keys children d)
          → not (keys d == 0) ≡ true
      pointed d e (unset a p) = cc (e, ap is_null p)
      pointed d e (points a p) = shown (keys d) a

      pointing :
          {i : ℕ} {t : ArtNode V}
          → keys i ≢ 0
          → Pointed (keys i) children t
          → t ≡ children (keys i - 1)
      pointing n (unset a p) = absurd (n a)
      pointing n (points a p) = p

  First-all :
      (children : ℕ → ArtNode V) (c : ℕ)
      → c < 256
      → is_null (children c) ≡ false
      → First children (children (first_index 256 0 (λ i. not (is_null (children i)))))
  First-all children c l e =
      let f =
        first_index_lem 256 0 (λ i. not (is_null (children i))) c (omega arith) (omega arith)
          (ap not e) in
      record {
        byte = first_index 256 0 (λ i. not (is_null (children i)));
        in_range = omega (arith, f.1);
        is_it = refl;
        solid = not_not (is_null (children _)) f.0;
        lowest = λ d m g.
            (first_index_lem 256 0 (λ i. not (is_null (children i))) d (omega arith) (omega arith)
              (ap not g)).1;
      }
    where
      not_not : (b : Bool) → not b ≡ true → b ≡ false
      not_not b e = ground arith

  pub first_child_lem :
      (kind : Kind) (num : ℕ) (keys : Array ℕ) (children : ℕ → ArtNode V)
      → IsFine kind num keys children
      → (c : ℕ) → c < 256
      → is_null (child_at kind num keys children c) ≡ false
      → First (child_at kind num keys children) (children (first_child kind keys children))
  unfolding get_child
  first_child_lem kind num keys children (fine4 s) c l e = First-sorted 4 num keys children s c e
  first_child_lem kind num keys children (fine16 s) c l e = First-sorted 16 num keys children s c e
  first_child_lem kind num keys children (fine48 s) c l e = First-indexed num keys children s c l e
  first_child_lem kind num keys children fine256 c l e = First-all children c l e

  -- The least key below a node, from the least key below its first child.
  module _ (depth : ℕ) (kind : Kind) (plen : ℕ) (prefix : Array ℕ) (num : ℕ) (keys : Array ℕ)
      (children : ℕ → ArtNode V) (longer : Array ℕ) where
    below-First :
        (f : First (child_at kind num keys children) (children (first_child kind keys children)))
        → (k : Bytes) × (get_minimum (child_at kind num keys children f.byte) ≡ some k)
          × Under (step longer (depth + plen) f.byte) (depth + plen + 1) k
        → (k : Bytes) × (get_minimum (node kind plen prefix num keys children) ≡ some k)
          × Under longer (depth + plen) k
          × (depth + plen < length k)
    unfolding get_minimum
    below-First f (k, e, u) = (
      k,
      sym (ap get_minimum f.is_it) ∙ e,
      Under-step longer (depth + plen) f.byte k u,
      omega (arith, u.reaches),
    )

  -- Below a node of a well-formed radix tree node_get_minimum returns a key, and it goes through
  -- the path to the node.
  pub get_minimum-Under :
      {path : Array ℕ} {depth : ℕ} {t : ArtNode V}
      → Holds path depth t
      → is_null t ≡ false
      → (k : Bytes) × (get_minimum t ≡ some k) × Under path depth k
  unfolding get_minimum
  get_minimum-Under empty e = cc e
  get_minimum-Under (one_key {key = k} u) e = (k, refl, u)
  get_minimum-Under {path = path} {depth = depth}
        (branch {kind = kind} {plen = plen} {prefix = prefix} {num = num} {keys = keys}
          {children = children} longer a p fine some_child below)
        e =
      let f = first_child_lem kind num keys children fine some_child.0 some_child.1 some_child.2 in
      let least =
        below-First depth kind plen prefix num keys children longer f
          (get_minimum-Under (below f.byte f.in_range) (ap is_null f.is_it ∙ f.solid)) in
      (
        least.0,
        least.1,
        record {
          key_ok = least.2.key_ok;
          agrees = λ j l. least.2.agrees j (omega arith) ∙ a j l;
          reaches = omega (arith, least.3);
        },
      )

  -- The least key below a node goes through the whole prefix and a byte more.
  pub least_key :
      (depth : ℕ) (kind : Kind) (plen : ℕ) (prefix : Array ℕ) (num : ℕ) (keys : Array ℕ)
      (children : ℕ → ArtNode V) (longer : Array ℕ)
      → IsFine kind num keys children
      → ((c : ℕ) × (c < 256) × (is_null (child_at kind num keys children c) ≡ false))
      → ((c : ℕ)
          → c < 256
          → Holds
              (step longer (depth + plen) c)
              (depth + plen + 1)
              (child_at kind num keys children c))
      → (k : Bytes) × (get_minimum (node kind plen prefix num keys children) ≡ some k)
        × Under longer (depth + plen) k
        × (depth + plen < length k)
  least_key depth kind plen prefix num keys children longer fine some_child below =
      let f = first_child_lem kind num keys children fine some_child.0 some_child.1 some_child.2 in
      below-First depth kind plen prefix num keys children longer f
        (get_minimum-Under (below f.byte f.in_range) (ap is_null f.is_it ∙ f.solid))
