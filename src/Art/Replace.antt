-- ===== src/Art/Replace.antt =====
-- art_node_insert where node_get_child finds a child: another tree in its place.
use mathlib.Core.Path.{subst}
use pgexporter.Prelude.{
  ℕ, zero, suc, ◌+◌, ◌-◌, ◌%◌, ◌<◌, ◌≡◌, ◌≢◌, inl, inr, refl, sym, ap, ◌∙◌, true, false, Option,
  none, some, ◌==◌, if◌then◌else◌, Bool-cases, ==_iff, arith,
}
use pgexporter.Art.Arrays.{Array, write}
use pgexporter.Art.{Kind, node4, node16, node48, ArtNode, node, is_null, get_child}
use pgexporter.Art.Index.{Found, present, missing}
use pgexporter.Art.Slots.{slot_tree, child_at, sorted-Found}
use pgexporter.Art.Children.{
  count_filled, IsSorted, IsIndexed, IsFine, fine4, fine16, fine48, fine256, IsNode, is_node,
  with_child,
}
use pgexporter.Art.Indexed.{write_here, Stored, written, kept, write-Stored}

some_of : (a b : ℕ) → some a ≡ some b → a ≡ b
some_of a b e = cc e

Found-at :
    (ch num : ℕ) (keys : Array ℕ) (o : Option ℕ) (i : ℕ)
    → Found ch num keys o
    → o ≡ some i
    → (i < num) × (keys i ≡ ch)
Found-at ch num keys o i (present j l f) e =
    subst (λ k. (k < num) × (keys k ≡ ch)) (some_of j i e) (l, f)
Found-at ch num keys o i (missing a) e = cc e

indexed_some : (k i : ℕ) → (if k == 0 then none else some (k - 1)) ≡ some i → (k ≢ 0) × (k - 1 ≡ i)
indexed_some k i e = elim (Bool-cases (k == 0)) [
  | inl f ↦ cc (rw f at e)
  | inr f ↦ (set_key k f, some_of (k - 1) i (rw f at e))
]
  where
    set_key : (k : ℕ) → (k == 0) ≡ false → k ≢ 0
    set_key k e f = ground arith

module _ {ℓ} {V : Type ℓ} where
  -- A write that leaves a child a child counts as many.
  count-write_same :
      (n : ℕ) (children : ℕ → ArtNode V) (i : ℕ) (x : ArtNode V)
      → is_null (children i) ≡ is_null x
      → count_filled n (write children i x) ≡ count_filled n children
  unfolding count_filled
  count-write_same zero children i x e = refl
  count-write_same (suc n) children i x e =
      rw (same_null (write-Stored children i x n), count-write_same n children i x e) refl
    where
      same_null : {t : ArtNode V} → Stored children i x n t → is_null t ≡ is_null (children n)
      same_null (written a f) = ap is_null f ∙ sym e ∙ sym (ap (λ k. is_null (children k)) a)
      same_null (kept a f) = ap is_null f

  write_solid :
      (children : ℕ → ArtNode V) (i : ℕ) (x : ArtNode V) (j : ℕ)
      → is_null x ≡ false
      → is_null (children j) ≡ false
      → is_null (write children i x j) ≡ false
  write_solid children i x j n s = go (write-Stored children i x j)
    where
      go : {t : ArtNode V} → Stored children i x j t → is_null t ≡ false
      go (written a f) = ap is_null f ∙ n
      go (kept a f) = ap is_null f ∙ s

  module _ (i ch : ℕ) (x : ArtNode V) (n : is_null x ≡ false) (b : ch < 256) where
    -- Each byte has a place of its own.
    get_child-distinct :
        (kind : Kind) (num : ℕ) (keys : Array ℕ) (children : ℕ → ArtNode V)
        → IsFine kind num keys children
        → get_child kind num keys ch ≡ some i
        → (c : ℕ) → c < 256
        → get_child kind num keys c ≡ some i
        → c ≡ ch
    unfolding get_child
    get_child-distinct kind num keys children (fine4 s) e c l f =
        sym (Found-at c num keys _ i (sorted-Found c num keys s.ascending) f).1
        ∙ (Found-at ch num keys _ i (sorted-Found ch num keys s.ascending) e).1
    get_child-distinct kind num keys children (fine16 s) e c l f =
        sym (Found-at c num keys _ i (sorted-Found c num keys s.ascending) f).1
        ∙ (Found-at ch num keys _ i (sorted-Found ch num keys s.ascending) e).1
    get_child-distinct kind num keys children (fine48 s) e c l f =
        let p = indexed_some (keys c) i f in
        let q = indexed_some (keys ch) i e in
        s.distinct c ch l b p.0 (one_key (keys c) (keys ch) p.0 q.0 (p.1 ∙ sym q.1))
      where
        one_key : (x y : ℕ) → x ≢ 0 → y ≢ 0 → x - 1 ≡ y - 1 → x ≡ y
        one_key x y p q e = ground arith
    get_child-distinct kind num keys children fine256 e c l f = some_of c i f ∙ sym (some_of ch i e)

    child_at-write :
        (kind : Kind) (num num' : ℕ) (keys : Array ℕ) (children : ℕ → ArtNode V)
        → IsFine kind num keys children
        → get_child kind num keys ch ≡ some i
        → (c : ℕ) → c < 256
        → child_at kind num keys (write children i x) c
          ≡ with_child ch x (child_at kind num keys children) c
    child_at-write kind num num' keys children fine e c l = elim (Bool-cases (c == ch)) [
      | inl f ↦
          ap (λ d. slot_tree (write children i x) (get_child kind num keys d)) ((==_iff c ch).0 f)
          ∙ ap (slot_tree (write children i x)) e
          ∙ write_here children i x
          ∙ sym (chosen f)
      | inr f ↦
          other (get_child kind num keys c)
            (λ g. unequal c ch f (get_child-distinct kind num keys children fine e c l g))
          ∙ sym (passed f)
    ]
      where
        unequal : (a b : ℕ) → (a == b) ≡ false → a ≢ b
        unequal a b e f = ground arith

        chosen : (c == ch) ≡ true → with_child ch x (child_at kind num keys children) c ≡ x
        chosen f = rw f refl

        passed :
            (c == ch) ≡ false
            → with_child ch x (child_at kind num keys children) c
              ≡ child_at kind num keys children c
        passed f = rw f refl

        only_kept : (j : ℕ) → j ≢ i → {t : ArtNode V} → Stored children i x j t → t ≡ children j
        only_kept j d (written a f) = absurd (d a)
        only_kept j d (kept a f) = f

        other :
            (o : Option ℕ) → o ≢ some i → slot_tree (write children i x) o ≡ slot_tree children o
        other none d = refl
        other (some j) d = only_kept j (λ a. d (ap some a)) (write-Stored children i x j)

    abbrev new_count : ℕ → (ℕ → ArtNode V) → ℕ
    new_count num children = if is_null (children i) then (num + 1) % 256 else num

    same_count :
        (num : ℕ) (children : ℕ → ArtNode V)
        → is_null (children i) ≡ false
        → new_count num children ≡ num
    same_count num children e = rw e refl

    IsSorted-write :
        (limit num : ℕ) (keys : Array ℕ) (children : ℕ → ArtNode V)
        → IsSorted limit num keys children
        → IsSorted limit num keys (write children i x)
    IsSorted-write limit num keys children s = record {
      room = s.room;
      ascending = s.ascending;
      bytes = s.bytes;
      solid = λ j l. write_solid children i x j n (s.solid j l);
    }

    IsIndexed-write :
        (num : ℕ) (keys : Array ℕ) (children : ℕ → ArtNode V)
        → IsIndexed num keys children
        → is_null (children i) ≡ false
        → IsIndexed num keys (write children i x)
    IsIndexed-write num keys children s e = record {
      room = s.room;
      counted = count-write_same 48 children i x (e ∙ sym n) ∙ s.counted;
      pointed = s.pointed;
      solid = λ c l z. write_solid children i x (keys c - 1) n (s.solid c l z);
      distinct = s.distinct;
    }

    -- The same node with `x` for the child of the byte, num_children changed only in a node256.
    write-IsFine :
        (kind : Kind) (num : ℕ) (keys : Array ℕ) (children : ℕ → ArtNode V)
        → IsFine kind num keys children
        → get_child kind num keys ch ≡ some i
        → IsFine kind (new_count num children) keys (write children i x)
    unfolding get_child
    write-IsFine kind num keys children (fine4 s) e =
        let solid =
          s.solid i (Found-at ch num keys _ i (sorted-Found ch num keys s.ascending) e).0 in
        subst (λ m. IsFine node4 m keys (write children i x)) (sym (same_count num children solid))
          (fine4 (IsSorted-write 4 num keys children s))
    write-IsFine kind num keys children (fine16 s) e =
        let solid =
          s.solid i (Found-at ch num keys _ i (sorted-Found ch num keys s.ascending) e).0 in
        subst (λ m. IsFine node16 m keys (write children i x)) (sym (same_count num children solid))
          (fine16 (IsSorted-write 16 num keys children s))
    write-IsFine kind num keys children (fine48 s) e =
        let p = indexed_some (keys ch) i e in
        let solid = sym (ap (λ k. is_null (children k)) p.1) ∙ s.solid ch b p.0 in
        subst (λ m. IsFine node48 m keys (write children i x)) (sym (same_count num children solid))
          (fine48 (IsIndexed-write num keys children s solid))
    write-IsFine kind num keys children fine256 e = fine256

    -- get_child looks at num_children in node4 and node16 only, where it stays.
    get_child-count :
        (kind : Kind) (num : ℕ) (keys : Array ℕ) (children : ℕ → ArtNode V)
        → IsFine kind num keys children
        → get_child kind num keys ch ≡ some i
        → (c : ℕ) → get_child kind (new_count num children) keys c ≡ get_child kind num keys c
    unfolding get_child
    get_child-count kind num keys children (fine4 s) e c =
        ap (λ m. get_child node4 m keys c)
          (same_count num children
            (s.solid i (Found-at ch num keys _ i (sorted-Found ch num keys s.ascending) e).0))
    get_child-count kind num keys children (fine16 s) e c =
        ap (λ m. get_child node16 m keys c)
          (same_count num children
            (s.solid i (Found-at ch num keys _ i (sorted-Found ch num keys s.ascending) e).0))
    get_child-count kind num keys children (fine48 s) e c = refl
    get_child-count kind num keys children fine256 e c = refl

    pub replace-IsNode :
        (kind : Kind) (plen : ℕ) (prefix : Array ℕ) (num : ℕ) (keys : Array ℕ)
        (children : ℕ → ArtNode V)
        → IsFine kind num keys children
        → get_child kind num keys ch ≡ some i
        → IsNode
            (node kind plen prefix (new_count num children) keys (write children i x))
            plen
            prefix
            (with_child ch x (child_at kind num keys children))
    replace-IsNode kind plen prefix num keys children fine e =
        is_node (λ j l. refl) (write-IsFine kind num keys children fine e)
          (λ c l.
            ap (slot_tree (write children i x)) (get_child-count kind num keys children fine e c)
            ∙ child_at-write kind num num keys children fine e c l)
