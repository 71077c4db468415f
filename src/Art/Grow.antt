-- ===== src/Art/Grow.antt =====
-- node48_add_child where there is room, and node16 grown to node48.
use pgexporter.Prelude.{
  ℕ, ◌+◌, ◌-◌, ◌≤◌, ◌<◌, ◌≡◌, ◌≢◌, inl, inr, refl, sym, ap, ◌∙◌, true, false, Option, none, some,
  ◌==◌, if◌then◌else◌, Bool-cases, lt→ltb, ==_iff, arith,
}
use pgexporter.Art.Arrays.{Array, fill, write, copy}
use pgexporter.Art.{ArtNode, null, is_null, get_child, first_index}
use pgexporter.Art.Insert.{index_keys, add_child48}
use pgexporter.Art.Index.{Found}
use pgexporter.Art.Slots.{slot_tree, sorted-Found, Found-some, Found-none}
use pgexporter.Art.Children.{IsSorted, IsIndexed, fine48, IsNode, is_node, with_child}
use pgexporter.Art.Sorted.{sorted_at, copy_below}
use pgexporter.Art.Indexed.{
  first_index_lem, write_here, Stored, written, kept, write-Stored, Indexed, at_key, no_key,
  index_keys-Indexed, free_place, count-write, count-copy,
}

unset_key : (k : ℕ) → (k == 0) ≡ true → k ≡ 0
unset_key k e = ground arith

set_key : (k : ℕ) → (k == 0) ≡ false → k ≢ 0
set_key k e f = ground arith

module _ {ℓ} {V : Type ℓ} where
  -- How node48 finds a child.
  abbrev pub indexed_at : Array ℕ → (ℕ → ArtNode V) → ℕ → ArtNode V
  indexed_at keys children c = slot_tree children (if keys c == 0 then none else some (keys c - 1))

  pub data Pointed (key : ℕ) (children : ℕ → ArtNode V) (t : ArtNode V) : Type ℓ where
    unset : key ≡ 0 → t ≡ null → Pointed key children t
    points : key ≢ 0 → t ≡ children (key - 1) → Pointed key children t

  pub indexed_at-Pointed :
      (keys : Array ℕ) (children : ℕ → ArtNode V) (c : ℕ)
      → Pointed (keys c) children (indexed_at keys children c)
  indexed_at-Pointed keys children c = elim (Bool-cases (keys c == 0)) [
    | inl e ↦ unset (unset_key (keys c) e) (rw e refl)
    | inr e ↦ points (set_key (keys c) e) (rw e refl)
  ]

  -- The same place of the same children, or none of both.
  Pointed-same :
      (k k' : ℕ) (f g : ℕ → ArtNode V) (t t' : ArtNode V)
      → k' ≡ k
      → (k ≢ 0 → g (k - 1) ≡ f (k - 1))
      → Pointed k f t
      → Pointed k' g t'
      → t' ≡ t
  Pointed-same k k' f g t t' e h (unset a p) (unset b q) = q ∙ sym p
  Pointed-same k k' f g t t' e h (unset a p) (points b q) = absurd (b (e ∙ a))
  Pointed-same k k' f g t t' e h (points a p) (unset b q) = absurd (a (sym e ∙ b))
  Pointed-same k k' f g t t' e h (points a p) (points b q) = q ∙ ap (λ i. g (i - 1)) e ∙ h a ∙ sym p

  module _ (num : ℕ) (keys : Array ℕ) (children : ℕ → ArtNode V) (ch free : ℕ) (child : ArtNode V)
      (s : IsIndexed num keys children) (l : num < 48) (b : ch < 256) (n : is_null child ≡ false)
      (absent : keys ch ≡ 0) (inside : free < 48)
      (open_place : is_null (children free) ≡ true) where
    abbrev new_keys : Array ℕ
    new_keys = write keys ch (free + 1)

    abbrev new_children : ℕ → ArtNode V
    new_children = write children free child

    not_free : (c : ℕ) → c < 256 → keys c ≢ 0 → keys c - 1 ≢ free
    not_free c m k e = cc (s.solid c m k, open_place, ap (λ i. is_null (children i)) e)

    stays : (c : ℕ) → c < 256 → keys c ≢ 0 → new_children (keys c - 1) ≡ children (keys c - 1)
    stays c m k = only_kept (write-Stored children free child (keys c - 1))
      where
        only_kept :
            {t : ArtNode V} → Stored children free child (keys c - 1) t → t ≡ children (keys c - 1)
        only_kept (written e f) = absurd (not_free c m k e)
        only_kept (kept e f) = f

    comes : (c k : ℕ) → k ≡ free + 1 → new_children (k - 1) ≡ child
    comes c k e =
        ap (λ i. new_children (i - 1)) e
        ∙ ap new_children (back free)
        ∙ write_here children free child
      where
        back : (a : ℕ) → a + 1 - 1 ≡ a
        back a = omega arith

    added-IsIndexed : IsIndexed (num + 1) new_keys new_children
    added-IsIndexed = record {
      room = omega arith;
      counted = omega (arith, count-write 48 children free child inside open_place n, s.counted);
      pointed = λ c m k. within c m (new_keys c) k (write-Stored keys ch (free + 1) c);
      solid = λ c m k. filled c m (new_keys c) k (write-Stored keys ch (free + 1) c);
      distinct = λ c d m m' k e.
          same_byte c d m m' (new_keys c) (new_keys d) k e (write-Stored keys ch (free + 1) c)
            (write-Stored keys ch (free + 1) d);
    }
      where
        within : (c : ℕ) → c < 256 → (k : ℕ) → k ≢ 0 → Stored keys ch (free + 1) c k → k ≤ 48
        within c m k z (written e f) = omega arith
        within c m k z (kept e f) = omega (arith, s.pointed c m (λ g. z (f ∙ g)))

        filled :
            (c : ℕ)
            → c < 256
            → (k : ℕ) → k ≢ 0
            → Stored keys ch (free + 1) c k
            → is_null (new_children (k - 1)) ≡ false
        filled c m k z (written e f) = ap is_null (comes c k f) ∙ n
        filled c m k z (kept e f) =
            let old : keys c ≢ 0 = λ g. z (f ∙ g) in
            ap (λ i. is_null (new_children (i - 1))) f
            ∙ ap is_null (stays c m old)
            ∙ s.solid c m old

        no_clash : (c : ℕ) → c < 256 → keys c ≢ 0 → keys c ≢ free + 1
        no_clash c m z e = not_free c m z (omega (arith, e))

        same_byte :
            (c d : ℕ)
            → c < 256
            → d < 256
            → (j k : ℕ) → j ≢ 0
            → j ≡ k
            → Stored keys ch (free + 1) c j
            → Stored keys ch (free + 1) d k
            → c ≡ d
        same_byte c d m m' j k z e (written a f) (written a' f') = a ∙ sym a'
        same_byte c d m m' j k z e (written a f) (kept a' f') =
            absurd (no_clash d m' (λ g. z (e ∙ f' ∙ g)) (sym f' ∙ sym e ∙ f))
        same_byte c d m m' j k z e (kept a f) (written a' f') =
            absurd (no_clash c m (λ g. z (f ∙ g)) (sym f ∙ e ∙ f'))
        same_byte c d m m' j k z e (kept a f) (kept a' f') =
            s.distinct c d m m' (λ g. z (f ∙ g)) (sym f ∙ e ∙ f')

    added_at :
        (c : ℕ)
        → c < 256
        → indexed_at new_keys new_children c ≡ with_child ch child (indexed_at keys children) c
    added_at c m = elim (Bool-cases (c == ch)) [
      | inl e ↦
          new_one (new_keys c) (write-Stored keys ch (free + 1) c) ((==_iff c ch).0 e) _
            (indexed_at-Pointed new_keys new_children c)
          ∙ sym (chosen e)
      | inr e ↦ old_one e ∙ sym (passed e)
    ]
      where
        new_one :
            (k : ℕ)
            → Stored keys ch (free + 1) c k
            → c ≡ ch
            → (t : ArtNode V) → Pointed k new_children t
            → t ≡ child
        new_one k (written a f) e t (unset g h) = absurd (omega arith)
        new_one k (written a f) e t (points g h) = h ∙ comes c k f
        new_one k (kept a f) e t p = absurd (a e)

        chosen : (c == ch) ≡ true → with_child ch child (indexed_at keys children) c ≡ child
        chosen e = rw e refl

        passed :
            (c == ch) ≡ false
            → with_child ch child (indexed_at keys children) c ≡ indexed_at keys children c
        passed e = rw e refl

        same_key : (c == ch) ≡ false → new_keys c ≡ keys c
        same_key e = rw e refl

        old_one :
            (c == ch) ≡ false → indexed_at new_keys new_children c ≡ indexed_at keys children c
        old_one e =
            Pointed-same (keys c) (new_keys c) children new_children _ _ (same_key e) (stays c m)
              (indexed_at-Pointed keys children c) (indexed_at-Pointed new_keys new_children c)

  pub add_child48_room :
      (plen : ℕ) (prefix : Array ℕ) (num : ℕ) (keys : Array ℕ) (children : ℕ → ArtNode V) (ch : ℕ)
      (child : ArtNode V)
      → IsIndexed num keys children
      → keys ch ≡ 0
      → num < 48
      → ch < 256
      → is_null child ≡ false
      → IsNode
          (add_child48 plen prefix num keys children ch child)
          plen
          prefix
          (with_child ch child (indexed_at keys children))
  unfolding add_child48 get_child
  add_child48_room plen prefix num keys children ch child s absent l b n =
      let open_place = free_place 48 children (omega (arith, s.counted)) in
      let free = first_index 48 0 (λ i. is_null (children i)) in
      let first =
        first_index_lem 48 0 (λ i. is_null (children i)) open_place.0 (omega arith)
          (omega (arith, open_place.1)) open_place.2 in
      let inside : free < 48 = omega (arith, first.1, open_place.1) in
      rw (lt→ltb num 48 l) (
        is_node (λ j m. refl)
          (fine48 (added-IsIndexed num keys children ch free child s l b n absent inside first.0))
          (λ c m. added_at num keys children ch free child s l b n absent inside first.0 c m))

  -- The arrays of a node16, written to a node48, hold the same.
  module _ (keys : Array ℕ) (children : ℕ → ArtNode V) (s : IsSorted 16 16 keys children) where
    pub grown-IsIndexed : IsIndexed 16 (index_keys 16 keys) (copy 16 children (fill null))
    grown-IsIndexed = record {
      room = omega arith;
      counted = count-copy 48 16 children s.solid;
      pointed = λ c m k. within c (index_keys 16 keys c) k (index_keys-Indexed 16 keys c);
      solid = λ c m k. filled c (index_keys 16 keys c) k (index_keys-Indexed 16 keys c);
      distinct = λ c d m m' k e.
          same_byte c d (index_keys 16 keys c) (index_keys 16 keys d) k e
            (index_keys-Indexed 16 keys c) (index_keys-Indexed 16 keys d);
    }
      where
        back : (a b : ℕ) → a ≡ b + 1 → a - 1 ≡ b
        back a b e = omega arith

        within : (c k : ℕ) → k ≢ 0 → Indexed 16 keys c k → k ≤ 48
        within c k z (at_key i l e f) = omega arith
        within c k z (no_key a f) = absurd (z f)

        filled :
            (c k : ℕ)
            → k ≢ 0
            → Indexed 16 keys c k
            → is_null (copy 16 children (fill null) (k - 1)) ≡ false
        filled c k z (at_key i l e f) =
            ap (λ j. is_null (copy 16 children (fill null) j)) (back k i f)
            ∙ ap is_null (copy_below 16 children (fill null) i l)
            ∙ s.solid i l
        filled c k z (no_key a f) = absurd (z f)

        same_byte :
            (c d j k : ℕ) → j ≢ 0 → j ≡ k → Indexed 16 keys c j → Indexed 16 keys d k → c ≡ d
        same_byte c d j k z e (at_key i l p f) (at_key i' l' p' f') =
            sym p ∙ ap keys (omega (arith, f, f')) ∙ p'
        same_byte c d j k z e (at_key i l p f) (no_key a f') = absurd (z (e ∙ f'))
        same_byte c d j k z e (no_key a f) q = absurd (z f)

    pub grown_at :
        (c : ℕ)
        → indexed_at (index_keys 16 keys) (copy 16 children (fill null)) c
          ≡ sorted_at 16 keys children c
    grown_at c =
        go (index_keys 16 keys c) (index_keys-Indexed 16 keys c) _
          (indexed_at-Pointed (index_keys 16 keys) (copy 16 children (fill null)) c) _
          (sorted-Found c 16 keys s.ascending)
      where
        back : (a b : ℕ) → a ≡ b + 1 → a - 1 ≡ b
        back a b e = omega arith

        go :
            (k : ℕ)
            → Indexed 16 keys c k
            → (t : ArtNode V) → Pointed k (copy 16 children (fill null)) t
            → (o : Option ℕ) → Found c 16 keys o
            → t ≡ slot_tree children o
        go k (at_key i l e f) t (unset g h) o q = absurd (omega arith)
        go k (at_key i l e f) t (points g h) o q =
            h
            ∙ ap (copy 16 children (fill null)) (back k i f)
            ∙ copy_below 16 children (fill null) i l
            ∙ sym (ap (slot_tree children) (Found-some c 16 keys o s.ascending q i l e))
        go k (no_key a f) t (unset g h) o q =
            h ∙ sym (ap (slot_tree children) (Found-none c 16 keys o q a))
        go k (no_key a f) t (points g h) o q = absurd (g f)
