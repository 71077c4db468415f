-- ===== src/Art/Split.antt =====
-- A new node4 over a leaf or over a node: the new key and what was there differ in one byte.
use mathlib.Core.Path.{subst}
use pgexporter.Prelude.{
  ℕ, ◌+◌, ◌<◌, ◌≡◌, ◌≢◌, ◌⊎◌, inl, inr, refl, sym, ap, ◌∙◌, Bool, true, false, none, some, ◌==◌,
  if◌then◌else◌, Bool-cases, Option-cases, ==_iff, length, min, arith,
}
use pgexporter.Text.{Bytes, same}
use pgexporter.Art.Arrays.{Array, fill, copy}
use pgexporter.Art.{ArtNode, leaf, is_null, max_prefix_len, byte_at, from}
use pgexporter.Art.Insert.{two_children, split_leaf}
use pgexporter.Art.Sorted.{copy_below}
use pgexporter.Art.Keys.{
  IsKey, Agree, same-differ, same_sound, same_self, Diverge, diverge, agree_loop-Diverge,
}
use pgexporter.Art.Paths.{Under, step, Under-extend, Holds, empty, one_key, find}
use pgexporter.Art.Updated.{
  is_none, Updated, IsNode-solid, IsNode-Holds, IsNode-find, only_two, two_children-IsNode,
}

module _ {ℓ} {V : Type ℓ} where
  module _ (path : Array ℕ) (depth plen : ℕ) (prefix : Array ℕ) (t y : ArtNode V) (key : Bytes)
      (v : V) (longer : Array ℕ) (b : ℕ) (goes : Agree depth longer path)
      (stored : (j : ℕ) → j < min plen max_prefix_len → prefix j ≡ longer (depth + j))
      (u : Under longer (depth + plen) key) (more : depth + plen < length key) (lb : b < 256)
      (apart : byte_at key (depth + plen) ≢ b) (ny : is_null y ≡ false)
      (old : Holds (step longer (depth + plen) b) (depth + plen + 1) y)
      (kept_keys : (k : Bytes) → IsKey k → find y (depth + plen + 1) k ≡ find t depth k)
      (old_byte : (k : Bytes)
        → IsKey k
        → (w : V) → find t depth k ≡ some w
        → byte_at k (depth + plen) ≡ b) where
    abbrev a : ℕ
    a = byte_at key (depth + plen)

    abbrev children_of : ℕ → ArtNode V
    children_of = only_two a (leaf key v) b y

    self : (n : ℕ) → (n == n) ≡ true
    self n = ground arith

    unequal : (m n : ℕ) → (m == n) ≡ false → m ≢ n
    unequal m n e f = ground arith

    not_old : (k : Bytes) → IsKey k → byte_at k (depth + plen) ≢ b → find t depth k ≡ none
    not_old k ok n = go (Option-cases (find t depth k))
      where
        go : (find t depth k ≡ none) ⊎ ((w : V) × (find t depth k ≡ some w)) → find t depth k ≡ none
        go (inl e) = e
        go (inr (w, e)) = absurd (n (old_byte k ok w e))

    each_child : (c : ℕ) → Holds (step longer (depth + plen) c) (depth + plen + 1) (children_of c)
    each_child c = elim (Bool-cases (c == b)) [
      | inl e ↦ rw e (
          subst (λ d. Holds (step longer (depth + plen) d) (depth + plen + 1) y)
            (sym ((==_iff c b).0 e)) old)
      | inr e ↦ elim (Bool-cases (c == a)) [
        | inl f ↦
            rw (e, f)
              (subst (λ d. Holds (step longer (depth + plen) d) (depth + plen + 1) (leaf key v))
                (sym ((==_iff c a).0 f)) (one_key (Under-extend longer (depth + plen) key u more)))
        | inr f ↦ rw (e, f) empty
      ]
    ]

    found_child :
        (k : Bytes)
        → IsKey k
        → find (children_of (byte_at k (depth + plen))) (depth + plen + 1) k
          ≡ (if same key k then some v else find t depth k)
    unfolding find
    found_child k ok = elim (Bool-cases (byte_at k (depth + plen) == b)) [
      | inl e ↦
          rw (e, differ (λ f. apart (f ∙ (==_iff (byte_at k (depth + plen)) b).0 e)))
            (kept_keys k ok)
      | inr e ↦ elim (Bool-cases (byte_at k (depth + plen) == a)) [
        | inl f ↦ rw (e, f, not_old k ok (unequal (byte_at k (depth + plen)) b e)) refl
        | inr f ↦
            rw
              (
                e,
                f,
                not_old k ok (unequal (byte_at k (depth + plen)) b e),
                differ (λ g. unequal (byte_at k (depth + plen)) a f (sym g)),
              )
              refl
      ]
    ]
      where
        differ : a ≢ byte_at k (depth + plen) → same key k ≡ false
        differ n = same-differ key k (depth + plen) n

    pub split-Updated :
        Updated path depth t key v (two_children plen prefix a (leaf key v) b y) true
    split-Updated =
        let two =
          two_children-IsNode plen prefix a (leaf key v) b y (u.key_ok.bytes (depth + plen)) lb
            apart refl ny in
        record {
          holds =
              IsNode-Holds longer goes stored (b, lb, ap is_null chosen ∙ ny) (λ c l. each_child c)
                two;
          solid = IsNode-solid _ plen prefix children_of two;
          found = λ k ok. IsNode-find depth k ok two ∙ found_child k ok;
          fresh = sym (ap is_none (not_old key u.key_ok apart));
        }
      where
        chosen : children_of b ≡ y
        chosen = rw (self b) refl

  -- A leaf with another key.
  pub split_leaf-Updated :
      (path : Array ℕ) (depth : ℕ) (k : Bytes) (w : V) (key : Bytes) (v : V)
      → Under path depth k
      → Under path depth key
      → same k key ≡ false
      → Updated path depth (leaf k w) key v (split_leaf k w depth key v) true
  unfolding split_leaf find
  split_leaf-Updated path depth k w key v u u' e = go _ (
      agree_loop-Diverge key k depth u'.key_ok u.key_ok
        (λ f. cc (e, sym (ap (λ a. same a key) f), same_self key))
        (λ j l. u'.agrees j l ∙ sym (u.agrees j l)) u'.reaches u.reaches)
    where
      on_key :
          (b : Bool) (k' : Bytes) (x : V)
          → same k k' ≡ b
          → (if b then some w else none) ≡ some x
          → k ≡ k'
      on_key true k' x f g = same_sound k k' f
      on_key false k' x f g = cc g

      go :
          (r : ℕ)
          → Diverge key k depth r
          → Updated path depth
              (leaf k w)
              key
              v
              (two_children r
                (copy (min r max_prefix_len) (from depth key) (fill 0))
                (byte_at key (depth + r))
                (leaf key v)
                (byte_at k (depth + r))
                (leaf k w))
              true
      go r (diverge same_start differ l m) =
          split-Updated path depth r (copy (min r max_prefix_len) (from depth key) (fill 0))
            (leaf k w) (leaf k w) key v (byte_at key) (byte_at k (depth + r)) u'.agrees
            (λ j n. copy_below (min r max_prefix_len) (from depth key) (fill 0) j n)
            record { key_ok = u'.key_ok; agrees = λ j n. refl; reaches = omega arith } l
            (u.key_ok.bytes (depth + r)) differ refl
            (one_key (
              Under-extend (byte_at key) (depth + r) k
                record {
                  key_ok = u.key_ok;
                  agrees = λ j n. sym (same_start j n);
                  reaches = omega arith;
                }
                m))
            (λ k' ok. refl)
            (λ k' ok x f. sym (ap (λ a. byte_at a (depth + r)) (on_key (same k k') k' x refl f)))
