-- ===== src/Art/Updated.antt =====
-- What art_node_insert has to do with a tree, and the node4 with two children that it makes.
use pgexporter.Prelude.{
  ℕ, ◌+◌, ◌<◌, ◌≡◌, ◌≢◌, refl, sym, ap, ◌∙◌, Bool, true, false, Option, none, some, if◌then◌else◌,
  min, arith,
}
use mathlib.Core.Path.{subst}
use pgexporter.Text.{Bytes, same}
use pgexporter.Art.Arrays.{Array, fill}
use pgexporter.Art.{ArtNode, null, is_null, find_index, key_found, max_prefix_len, byte_at}
use pgexporter.Art.Insert.{two_children, add_child4}
use pgexporter.Art.Slots.{put_in, put_in_here, Place, sorted-Found, Found-none, slot_tree}
use pgexporter.Art.Children.{IsSorted, IsNode, is_node, IsNode-map, with_child, put_in-IsSorted}
use pgexporter.Art.Sorted.{sorted_at, new_pos, new-Place, sorted_at-put_in, add_child4_room}
use pgexporter.Art.AddChild.{with_child-map}
use pgexporter.Art.Keys.{IsKey, Agree}
use pgexporter.Art.Paths.{step, Holds, branch, find, find-node}

module _ {ℓ} {V : Type ℓ} where
  abbrev pub is_none : Option V → Bool
  is_none none = true
  is_none (some v) = false

  -- The tree and *new after an insertion of a key with a value.
  pub record Updated (path : Array ℕ) (depth : ℕ) (t : ArtNode V) (key : Bytes) (v : V)
      (t' : ArtNode V) (new : Bool) : Type ℓ where
    pub holds : Holds path depth t'
    pub solid : is_null t' ≡ false
    pub found :
        (k : Bytes) → IsKey k → find t' depth k ≡ (if same key k then some v else find t depth k)
    pub fresh : new ≡ is_none (find t depth key)

  pub IsNode-solid :
      (t : ArtNode V) (plen : ℕ) (prefix : Array ℕ) (f : ℕ → ArtNode V)
      → IsNode t plen prefix f
      → is_null t ≡ false
  IsNode-solid t plen prefix f (is_node p fine at) = refl

  pub IsNode-Holds :
      {path : Array ℕ} {depth : ℕ} {t : ArtNode V} {plen : ℕ} {prefix : Array ℕ} {f : ℕ → ArtNode V}
      (longer : Array ℕ)
      → Agree depth longer path
      → ((j : ℕ) → j < min plen max_prefix_len → prefix j ≡ longer (depth + j))
      → ((c : ℕ) × (c < 256) × (is_null (f c) ≡ false))
      → ((c : ℕ) → c < 256 → Holds (step longer (depth + plen) c) (depth + plen + 1) (f c))
      → IsNode t plen prefix f
      → Holds path depth t
  IsNode-Holds {depth = depth} longer a p some_child below (is_node {plen = plen} q fine at) =
      branch longer a (λ j l. q j l ∙ p j l) fine
        (some_child.0, some_child.1, ap is_null (at some_child.0 some_child.1) ∙ some_child.2)
        (λ c l.
          subst (Holds (step longer (depth + plen) c) (depth + plen + 1)) (sym (at c l))
            (below c l))

  pub IsNode-find :
      (depth : ℕ) {t : ArtNode V} {plen : ℕ} {prefix : Array ℕ} {f : ℕ → ArtNode V} (key : Bytes)
      → IsKey key
      → IsNode t plen prefix f
      → find t depth key ≡ find (f (byte_at key (depth + plen))) (depth + plen + 1) key
  IsNode-find depth key k
        (is_node {kind = kind} {plen = plen} {prefix' = prefix} {num = num} {keys = keys}
          {children = children} q fine at) =
      find-node kind plen prefix num keys children depth key
      ∙ ap (λ t. find t (depth + plen + 1) key)
          (at (byte_at key (depth + plen)) (k.bytes (depth + plen)))

  -- Two bytes that differ lead to their own child, the others to none.
  abbrev pub only_two : ℕ → ArtNode V → ℕ → ArtNode V → ℕ → ArtNode V
  only_two a x b y = with_child b y (with_child a x (fill null))

  module _ (plen : ℕ) (prefix : Array ℕ) (a : ℕ) (x : ArtNode V) (b : ℕ) (y : ArtNode V)
      (la : a < 256) (lb : b < 256) (apart : a ≢ b) (nx : is_null x ≡ false)
      (ny : is_null y ≡ false) where
    abbrev no_children : ℕ → ArtNode V
    no_children = fill null

    none_yet : IsSorted 4 0 (fill 0) no_children
    none_yet = record {
      room = omega arith;
      ascending = λ i j l m. absurd (omega arith);
      bytes = λ i l. absurd (omega arith);
      solid = λ i l. absurd (omega arith);
    }

    nothing_found : (c : ℕ) → key_found c (fill 0) (find_index c (fill 0) 0) ≡ none
    unfolding find_index
    nothing_found c = refl

    abbrev one_pos : ℕ
    one_pos = new_pos 4 0 (fill 0) no_children a x none_yet (nothing_found a)

    abbrev one_key_array : Array ℕ
    one_key_array = put_in one_pos 0 a (fill 0)

    abbrev one_child_array : ℕ → ArtNode V
    one_child_array = put_in one_pos 0 x no_children

    one-Place : Place a 0 (fill 0) one_pos
    one-Place = new-Place 4 0 (fill 0) no_children a x none_yet (nothing_found a)

    one-IsSorted : IsSorted 4 1 one_key_array one_child_array
    one-IsSorted =
        put_in-IsSorted 4 0 (fill 0) no_children one_pos a x none_yet (omega arith) one-Place la nx

    second_absent : key_found b one_key_array (find_index b one_key_array 1) ≡ none
    second_absent =
        Found-none b 1 one_key_array _ (sorted-Found b 1 one_key_array one-IsSorted.ascending)
          (λ i l e. apart (sym (only i (omega (arith, one-Place.within))) ∙ e))
      where
        only : (i : ℕ) → i ≡ one_pos → one_key_array i ≡ a
        only i e = ap one_key_array e ∙ put_in_here one_pos 0 a (fill 0)

    two_steps :
        two_children plen prefix a x b y
        ≡ add_child4 plen prefix 1 one_key_array one_child_array b y
    unfolding two_children add_child4
    two_steps = refl

    pub two_children-IsNode :
        IsNode (two_children plen prefix a x b y) plen prefix (only_two a x b y)
    two_children-IsNode =
        subst (λ t. IsNode t plen prefix (only_two a x b y)) (sym two_steps)
          (IsNode-map _ plen prefix prefix
            (with_child b y (sorted_at 1 one_key_array one_child_array)) _ (λ j l. refl)
            (λ c l.
              with_child-map b y (sorted_at 1 one_key_array one_child_array)
                (with_child a x no_children) c
                (sorted_at-put_in 4 0 (fill 0) no_children a x none_yet (nothing_found a)
                    (omega arith) la nx c
                  ∙ with_child-map a x (sorted_at 0 (fill 0) no_children) no_children c
                      (no_child c)))
            (add_child4_room plen prefix 1 one_key_array one_child_array b y one-IsSorted
              second_absent (omega arith) lb ny))
      where
        no_child : (c : ℕ) → sorted_at 0 (fill 0) no_children c ≡ null
        no_child c = ap (λ o. slot_tree no_children o) (nothing_found c)
