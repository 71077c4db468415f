-- ===== src/Art/Down.antt =====
-- art_node_insert at a node: the key leaves the prefix, or goes to a new child or to one that is there.
use mathlib.Core.Path.{subst}
use pgexporter.Prelude.{
  ℕ, ◌+◌, ◌%◌, ◌<◌, ◌≡◌, ◌≢◌, inl, inr, refl, sym, ap, ◌∙◌, Bool, true, false, none, some, ltb,
  ◌==◌, if◌then◌else◌, Bool-cases, Option-cases, ==_iff, min, arith,
}
use pgexporter.Text.{Bytes, same}
use pgexporter.Art.Arrays.{Array, write}
use pgexporter.Art.{
  Kind, ArtNode, null, leaf, node, is_null, get_child, get_minimum, max_prefix_len, byte_at,
}
use pgexporter.Art.Insert.{node_insert, add_child, check_prefix, split_node}
use pgexporter.Art.Slots.{slot_tree, child_at}
use pgexporter.Art.Children.{IsFine, IsNode, with_child}
use pgexporter.Art.AddChild.{add_child_lem}
use pgexporter.Art.Keys.{IsKey, Agree, same-differ}
use pgexporter.Art.Paths.{step, Holds, find, find-node}
use pgexporter.Art.Replace.{replace-IsNode}
use pgexporter.Art.Updated.{is_none, Updated, IsNode-solid, IsNode-Holds, IsNode-find}

module _ {ℓ} {V : Type ℓ} where
  pub node_insert-null :
      (depth : ℕ) (key : Bytes) (v : V) → node_insert null depth key v ≡ (leaf key v, true)
  unfolding node_insert
  node_insert-null depth key v = refl

  module _ (path : Array ℕ) (depth : ℕ) (kind : Kind) (plen : ℕ) (prefix : Array ℕ) (num : ℕ)
      (keys : Array ℕ) (children : ℕ → ArtNode V) (key : Bytes) (v : V) where
    abbrev here : ArtNode V
    here = node kind plen prefix num keys children

    abbrev diff : ℕ
    diff = check_prefix plen prefix (get_minimum here) key depth

    abbrev ch : ℕ
    ch = byte_at key (depth + plen)

    abbrev at : ℕ → ArtNode V
    at = child_at kind num keys children

    abbrev deeper : ArtNode V × Bool
    deeper = node_insert (at ch) (depth + plen + 1) key v

    pub node_insert_splits :
        ltb diff plen ≡ true
        → node_insert here depth key v ≡ (
          split_node kind plen prefix num keys children (get_minimum here) diff depth key v,
          true,
        )
    unfolding node_insert
    node_insert_splits e = rw (e, node_insert) refl

    node_insert_new :
        ltb diff plen ≡ false
        → get_child kind num keys ch ≡ none
        → node_insert here depth key v
          ≡ (add_child kind plen prefix num keys children ch (leaf key v), true)
    unfolding node_insert
    node_insert_new e f = rw (e, f, node_insert) refl

    node_insert_into :
        (i : ℕ)
        → ltb diff plen ≡ false
        → get_child kind num keys ch ≡ some i
        → node_insert here depth key v ≡ (
          node kind plen prefix
              (if is_null (children i) then (num + 1) % 256 else num)
              keys
              (write children i (node_insert (children i) (depth + plen + 1) key v).0),
          (node_insert (children i) (depth + plen + 1) key v).1,
        )
    unfolding node_insert
    node_insert_into i e f = rw (e, f, node_insert) refl

    module _ (longer : Array ℕ) (goes : Agree depth longer path)
        (stored : (j : ℕ) → j < min plen max_prefix_len → prefix j ≡ longer (depth + j))
        (fine : IsFine kind num keys children)
        (below : (c : ℕ) → c < 256 → Holds (step longer (depth + plen) c) (depth + plen + 1) (at c))
        (ok : IsKey key) where
      -- The node with the new tree for the byte of the key.
      module _ (x : ArtNode V) (new : Bool) (t' : ArtNode V)
          (up : Updated (step longer (depth + plen) ch) (depth + plen + 1) (at ch) key v x new)
          (is : IsNode t' plen prefix (with_child ch x at)) where
        each_child :
            (c : ℕ)
            → c < 256
            → Holds (step longer (depth + plen) c) (depth + plen + 1) (with_child ch x at c)
        each_child c l = elim (Bool-cases (c == ch)) [
          | inl e ↦ rw e (
              subst (λ d. Holds (step longer (depth + plen) d) (depth + plen + 1) x)
                (sym ((==_iff c ch).0 e)) up.holds)
          | inr e ↦ rw e (below c l)
        ]

        found_child :
            (k : Bytes)
            → IsKey k
            → find (with_child ch x at (byte_at k (depth + plen))) (depth + plen + 1) k ≡ (
                if same key k
                then some v
                else find (at (byte_at k (depth + plen))) (depth + plen + 1) k)
        found_child k ok' = elim (Bool-cases (byte_at k (depth + plen) == ch)) [
          | inl e ↦ rw e (
              up.found k ok'
              ∙ ap (λ c. if same key k then some v else find (at c) (depth + plen + 1) k)
                  (sym ((==_iff (byte_at k (depth + plen)) ch).0 e)))
          | inr e ↦
              rw (e, same-differ key k (depth + plen) (unequal (byte_at k (depth + plen)) ch e))
                refl
        ]
          where
            unequal : (a b : ℕ) → (a == b) ≡ false → b ≢ a
            unequal a b e f = ground arith

        node-Updated : Updated path depth here key v t' new
        node-Updated = record {
          holds =
              IsNode-Holds longer goes stored
                (ch, ok.bytes (depth + plen), ap is_null chosen ∙ up.solid) each_child is;
          solid = IsNode-solid t' plen prefix (with_child ch x at) is;
          found = λ k ok'.
              IsNode-find depth k ok' is
              ∙ found_child k ok'
              ∙ ap (λ o. if same key k then some v else o)
                  (sym (find-node kind plen prefix num keys children depth k));
          fresh =
              up.fresh ∙ sym (ap is_none (find-node kind plen prefix num keys children depth key));
        }
          where
            self : (n : ℕ) → (n == n) ≡ true
            self n = ground arith

            chosen : with_child ch x at ch ≡ x
            chosen = rw (self ch) refl

      -- A new child, or the child that was there with the key in it.
      pub down-Updated :
          ltb diff plen ≡ false
          → Updated
              (step longer (depth + plen) ch)
              (depth + plen + 1)
              (at ch)
              key
              v
              deeper.0
              deeper.1
          → Updated path depth here key v
              (node_insert here depth key v).0
              (node_insert here depth key v).1
      down-Updated e up = elim (Option-cases (get_child kind num keys ch)) [
        | inl f ↦
            subst (λ r. Updated path depth here key v r.0 r.1) (sym (node_insert_new e f))
              (node-Updated (leaf key v) true _
                (subst
                  (λ r.
                    Updated (step longer (depth + plen) ch) (depth + plen + 1) (at ch) key v r.0
                      r.1)
                  (on_null (at ch) (ap (slot_tree children) f)) up)
                (add_child_lem plen ch (leaf key v) (ok.bytes (depth + plen)) refl kind prefix num
                  keys children fine f))
        | inr (i, f) ↦
            subst (λ r. Updated path depth here key v r.0 r.1) (sym (node_insert_into i e f))
              (node-Updated (into i).0 (into i).1 _
                (subst
                  (λ r.
                    Updated (step longer (depth + plen) ch) (depth + plen + 1) (at ch) key v r.0
                      r.1)
                  (on_child i f) up)
                (replace-IsNode i ch (into i).0 (on_solid i f up.solid) (ok.bytes (depth + plen))
                  kind plen prefix num keys children fine f))
      ]
        where
          into : ℕ → ArtNode V × Bool
          into i = node_insert (children i) (depth + plen + 1) key v

          on_null :
              (t : ArtNode V)
              → t ≡ null
              → node_insert t (depth + plen + 1) key v ≡ (leaf key v, true)
          on_null t e =
              ap (λ s. node_insert s (depth + plen + 1) key v) e
              ∙ node_insert-null (depth + plen + 1) key v

          on_child : (i : ℕ) → get_child kind num keys ch ≡ some i → deeper ≡ into i
          on_child i f = ap (λ o. node_insert (slot_tree children o) (depth + plen + 1) key v) f

          on_solid :
              (i : ℕ)
              → get_child kind num keys ch ≡ some i
              → is_null deeper.0 ≡ false
              → is_null (into i).0 ≡ false
          on_solid i f e = sym (ap (λ r. is_null r.0) (on_child i f)) ∙ e
