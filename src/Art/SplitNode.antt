-- ===== src/Art/SplitNode.antt =====
-- art_node_insert where the key leaves the prefix of a node: the node comes under a new node4, with
-- what is left of its prefix.
use mathlib.Core.Path.{subst}
use pgexporter.Prelude.{
  ℕ, ◌+◌, ◌-◌, ◌<◌, ◌≡◌, ◌≢◌, inl, inr, refl, sym, ap, ◌∙◌, true, false, ◌&&◌, some, ltb, leb, ◌==◌,
  Bool-cases, leb→le, ==_iff, length, min, arith,
}
use pgexporter.Text.{Bytes}
use pgexporter.Art.Arrays.{Array, fill, copy, memmove}
use pgexporter.Art.{Kind, ArtNode, leaf, node, is_null, max_prefix_len, byte_at, from}
use pgexporter.Art.Insert.{two_children, split_node}
use pgexporter.Art.Slots.{child_at}
use pgexporter.Art.Children.{IsFine}
use pgexporter.Art.Sorted.{copy_below}
use pgexporter.Art.Indexed.{write_here}
use pgexporter.Art.Keys.{Agree}
use pgexporter.Art.Paths.{Under, step, Agree-step, Holds, branch, find, find-node}
use pgexporter.Art.Search.{find-passes}
use pgexporter.Art.Updated.{Updated}
use pgexporter.Art.Split.{split-Updated}

-- The path along its own byte.
step_same : (path : Array ℕ) (n : ℕ) → Agree (n + 1) path (step path n (path n))
step_same path n j l = elim (Bool-cases (j == n)) [
  | inl e ↦
      ap path ((==_iff j n).0 e)
      ∙ sym (write_here path n (path n))
      ∙ sym (ap (step path n (path n)) ((==_iff j n).0 e))
  | inr e ↦ sym (Agree-step path n (path n) j (earlier j n e l))
]
  where
    earlier : (j n : ℕ) → (j == n) ≡ false → j < n + 1 → j < n
    earlier j n e l = ground arith

-- A move to the start of an array.
memmove_start : (n s : ℕ) (a : Array ℕ) (j : ℕ) → j < n → memmove 0 s n a j ≡ a (s + j)
memmove_start n s a j l = rw (inside j n l) (ap a (no_offset s j))
  where
    inside : (j n : ℕ) → j < n → (leb 0 j && ltb j (0 + n)) ≡ true
    inside j n l = ground arith

    no_offset : (s j : ℕ) → s + (j - 0) ≡ s + j
    no_offset s j = omega arith

module _ {ℓ} {V : Type ℓ} (path : Array ℕ) (depth : ℕ) (kind : Kind) (plen : ℕ) (prefix : Array ℕ)
    (num : ℕ) (keys : Array ℕ) (children : ℕ → ArtNode V) (longer : Array ℕ)
    (goes : Agree depth longer path)
    (stored : (j : ℕ) → j < min plen max_prefix_len → prefix j ≡ longer (depth + j))
    (fine : IsFine kind num keys children)
    (some_child : (c : ℕ) × (c < 256) × (is_null (child_at kind num keys children c) ≡ false))
    (below : (c : ℕ)
      → c < 256
      → Holds (step longer (depth + plen) c) (depth + plen + 1) (child_at kind num keys children c))
    (diff : ℕ) (part : diff < plen) where
  abbrev rest : ℕ
  rest = plen - (diff + 1)

  same_depth : depth + diff + 1 + rest ≡ depth + plen
  same_depth = omega arith

  -- The node with the rest of its prefix holds the same keys.
  module _ (prefix' : Array ℕ) where
    shorter-Holds :
        ((j : ℕ) → j < min rest max_prefix_len → prefix' j ≡ longer (depth + diff + 1 + j))
        → Holds
            (step longer (depth + diff) (longer (depth + diff)))
            (depth + diff + 1)
            (node kind rest prefix' num keys children)
    shorter-Holds p = branch longer (step_same longer (depth + diff)) p fine some_child (λ c l.
        subst (λ n. Holds (step longer n c) (n + 1) (child_at kind num keys children c))
          (sym same_depth) (below c l))

    shorter_find :
        (k : Bytes)
        → find (node kind rest prefix' num keys children) (depth + diff + 1) k
          ≡ find (node kind plen prefix num keys children) depth k
    shorter_find k =
        find-node kind rest prefix' num keys children (depth + diff + 1) k
        ∙ ap (λ n. find (child_at kind num keys children (byte_at k n)) (n + 1) k) same_depth
        ∙ sym (find-node kind plen prefix num keys children depth k)

  module _ (key : Bytes) (v : V) (u : Under longer (depth + diff) key)
      (more : depth + diff < length key)
      (apart : byte_at key (depth + diff) ≢ longer (depth + diff))
      (byte : longer (depth + diff) < 256) where
    abbrev start : Array ℕ
    start = copy (min max_prefix_len diff) prefix (fill 0)

    over :
        (b : ℕ) (prefix' : Array ℕ)
        → b ≡ longer (depth + diff)
        → ((j : ℕ) → j < min rest max_prefix_len → prefix' j ≡ longer (depth + diff + 1 + j))
        → Updated path depth
            (node kind plen prefix num keys children)
            key
            v
            (two_children diff start
              (byte_at key (depth + diff))
              (leaf key v)
              b
              (node kind rest prefix' num keys children))
            true
    over b prefix' e p =
        split-Updated path depth diff start (node kind plen prefix num keys children)
          (node kind rest prefix' num keys children) key v longer b goes
          (λ j l.
            copy_below (min max_prefix_len diff) prefix (fill 0) j (omega arith)
            ∙ stored j (omega arith))
          u more (omega (arith, e)) (λ f. apart (f ∙ e)) refl
          (subst
            (λ c.
              Holds (step longer (depth + diff) c) (depth + diff + 1)
                (node kind rest prefix' num keys children))
            (sym e) (shorter-Holds prefix' p))
          (λ k ok. shorter_find prefix' k)
          (λ k ok w f.
            (find-passes path depth kind plen prefix num keys children k longer below ok w f).0
              (depth + diff) (omega arith)
            ∙ sym e)

    pub split_node-Updated :
        (least : Bytes)
        → Agree (depth + plen) (byte_at least) longer
        → Updated path depth
            (node kind plen prefix num keys children)
            key
            v
            (split_node kind plen prefix num keys children (some least) diff depth key v)
            true
    unfolding split_node
    split_node-Updated least low = elim (Bool-cases (leb plen max_prefix_len)) [
      | inl e ↦
          let short = leb→le plen max_prefix_len e in
          rw e (
            over (prefix diff) (memmove 0 (diff + 1) rest prefix)
              (stored diff (omega (arith, short)))
              (λ j l.
                memmove_start rest (diff + 1) prefix j (omega (arith, l))
                ∙ stored (diff + 1 + j) (omega (arith, short, l))
                ∙ ap longer (regroup depth diff j)))
      | inr e ↦ rw e (
          over (byte_at least (depth + diff))
            (copy (min max_prefix_len rest) (from (depth + diff + 1) least) prefix)
            (low (depth + diff) (omega arith))
            (λ j l.
              copy_below (min max_prefix_len rest) (from (depth + diff + 1) least) prefix j
                (omega (arith, l))
              ∙ low (depth + diff + 1 + j) (omega (arith, l))))
    ]
      where
        regroup : (d i j : ℕ) → d + (i + 1 + j) ≡ d + i + 1 + j
        regroup d i j = omega arith
