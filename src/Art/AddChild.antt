-- ===== src/Art/AddChild.antt =====
-- node_add_child: the new child is the one for its byte, the children for the other bytes stay and
-- the prefix stays, whatever the node grows to.
use mathlib.Core.Path.{subst}
use pgexporter.Prelude.{
  ℕ, ◌-◌, ◌≤◌, ◌<◌, ◌≡◌, inl, inr, refl, sym, ap, ◌∙◌, false, none, some, ltb, ◌==◌, if◌then◌else◌,
  Bool-cases, ltb→lt, lt→ltb, ==_iff, arith,
}
use pgexporter.Art.Arrays.{Array, fill, copy}
use pgexporter.Art.{Kind, ArtNode, null, is_null, find_index, get_child, key_found}
use pgexporter.Art.Insert.{
  index_keys, copy_prefix, spread, add_child, add_child4, add_child16, add_child48, add_child256,
}
use pgexporter.Art.Slots.{child_at, sorted-Found, Found-none, absent_key}
use pgexporter.Art.Children.{
  IsSorted, IsIndexed, IsFine, fine4, fine16, fine48, fine256, IsNode, is_node, IsNode-map,
  with_child,
}
use pgexporter.Art.Sorted.{
  sorted_at, copy_below, copy_prefix_same, add_child4_room, add_child16_room, copied-IsSorted,
  copied_at,
}
use pgexporter.Art.Indexed.{Indexed, at_key, no_key, index_keys-Indexed}
use pgexporter.Art.Grow.{indexed_at, add_child48_room, grown-IsIndexed, grown_at}

all_used : (num limit : ℕ) → num ≤ limit → ltb num limit ≡ false → limit ≡ num
all_used num limit l e = ground arith

module _ {ℓ} {V : Type ℓ} where
  pub with_child-map :
      (ch : ℕ) (child : ArtNode V) (f g : ℕ → ArtNode V) (c : ℕ)
      → f c ≡ g c
      → with_child ch child f c ≡ with_child ch child g c
  with_child-map ch child f g c e = ap (λ t. if c == ch then child else t) e

  add_child256_lem :
      (plen : ℕ) (prefix : Array ℕ) (num : ℕ) (keys : Array ℕ) (children : ℕ → ArtNode V) (ch : ℕ)
      (child : ArtNode V)
      → IsNode
          (add_child256 plen prefix num keys children ch child)
          plen
          prefix
          (with_child ch child children)
  unfolding add_child256 get_child
  add_child256_lem plen prefix num keys children ch child =
      is_node (λ j m. refl) fine256 (λ c m. refl)

  spread_at :
      (keys : Array ℕ) (children : ℕ → ArtNode V) (c : ℕ)
      → c < 256
      → spread keys children c ≡ indexed_at keys children c
  spread_at keys children c l = elim (Bool-cases (keys c == 0)) [
    | inl e ↦ rw (lt→ltb c 256 l, e) refl
    | inr e ↦ rw (lt→ltb c 256 l, e) refl
  ]

  module _ (plen ch : ℕ) (child : ArtNode V) (b : ch < 256) (n : is_null child ≡ false) where
    -- What a node says of its children with a new one, where it was copied with its prefix.
    grown-IsNode :
        (t : ArtNode V) (prefix : Array ℕ) (f g : ℕ → ArtNode V)
        → ((c : ℕ) → c < 256 → f c ≡ g c)
        → IsNode t plen (copy_prefix plen prefix) (with_child ch child f)
        → IsNode t plen prefix (with_child ch child g)
    grown-IsNode t prefix f g e =
        IsNode-map t plen prefix (copy_prefix plen prefix) (with_child ch child f)
          (with_child ch child g) (copy_prefix_same plen prefix)
          (λ c m. with_child-map ch child f g c (e c m))

    module _ (prefix : Array ℕ) (num : ℕ) (keys : Array ℕ) (children : ℕ → ArtNode V) where
      full48 :
          ltb num 48 ≡ false
          → add_child48 plen prefix num keys children ch child
            ≡ add_child256 plen
                (copy_prefix plen prefix)
                num
                (fill 0)
                (spread keys children)
                ch
                child
      unfolding add_child48
      full48 e = rw e refl

      full16 :
          ltb num 16 ≡ false
          → add_child16 plen prefix num keys children ch child
            ≡ add_child48 plen
                (copy_prefix plen prefix)
                num
                (index_keys num keys)
                (copy num children (fill null))
                ch
                child
      unfolding add_child16
      full16 e = rw e refl

      full4 :
          ltb num 4 ≡ false
          → add_child4 plen prefix num keys children ch child
            ≡ add_child16 plen
                (copy_prefix plen prefix)
                num
                (copy num keys (fill 0))
                (copy num children (fill null))
                ch
                child
      unfolding add_child4
      full4 e = rw e refl

    add_child48_lem :
        (prefix : Array ℕ) (num : ℕ) (keys : Array ℕ) (children : ℕ → ArtNode V)
        → IsIndexed num keys children
        → keys ch ≡ 0
        → IsNode
            (add_child48 plen prefix num keys children ch child)
            plen
            prefix
            (with_child ch child (indexed_at keys children))
    add_child48_lem prefix num keys children s absent = elim (Bool-cases (ltb num 48)) [
      | inl e ↦
          add_child48_room plen prefix num keys children ch child s absent (ltb→lt num 48 e) b n
      | inr e ↦
          subst (λ t. IsNode t plen prefix (with_child ch child (indexed_at keys children)))
            (sym (full48 prefix num keys children e))
            (grown-IsNode _ prefix (spread keys children) (indexed_at keys children)
              (spread_at keys children)
              (add_child256_lem plen (copy_prefix plen prefix) num (fill 0) (spread keys children)
                ch child))
    ]

    add_child16_lem :
        (prefix : Array ℕ) (num : ℕ) (keys : Array ℕ) (children : ℕ → ArtNode V)
        → IsSorted 16 num keys children
        → key_found ch keys (find_index ch keys num) ≡ none
        → IsNode
            (add_child16 plen prefix num keys children ch child)
            plen
            prefix
            (with_child ch child (sorted_at num keys children))
    add_child16_lem prefix num keys children s absent = elim (Bool-cases (ltb num 16)) [
      | inl e ↦
          add_child16_room plen prefix num keys children ch child s absent (ltb→lt num 16 e) b n
      | inr e ↦ grows num (all_used num 16 s.room e) e s absent
    ]
      where
        unset :
            IsSorted 16 16 keys children
            → key_found ch keys (find_index ch keys 16) ≡ none
            → (k : ℕ) → Indexed 16 keys ch k
            → k ≡ 0
        unset s absent k (at_key i l e f) = absurd (absent_key ch 16 keys s.ascending absent i l e)
        unset s absent k (no_key a f) = f

        larger :
            IsSorted 16 16 keys children
            → ltb 16 16 ≡ false
            → key_found ch keys (find_index ch keys 16) ≡ none
            → IsNode
                (add_child16 plen prefix 16 keys children ch child)
                plen
                prefix
                (with_child ch child (sorted_at 16 keys children))
        larger s e absent =
            subst (λ t. IsNode t plen prefix (with_child ch child (sorted_at 16 keys children)))
              (sym (full16 prefix 16 keys children e))
              (grown-IsNode _ prefix
                (indexed_at (index_keys 16 keys) (copy 16 children (fill null)))
                (sorted_at 16 keys children) (λ c m. grown_at keys children s c)
                (add_child48_lem (copy_prefix plen prefix) 16 (index_keys 16 keys)
                  (copy 16 children (fill null)) (grown-IsIndexed keys children s)
                  (unset s absent (index_keys 16 keys ch) (index_keys-Indexed 16 keys ch))))

        grows :
            (k : ℕ)
            → 16 ≡ k
            → ltb k 16 ≡ false
            → IsSorted 16 k keys children
            → key_found ch keys (find_index ch keys k) ≡ none
            → IsNode
                (add_child16 plen prefix k keys children ch child)
                plen
                prefix
                (with_child ch child (sorted_at k keys children))
        grows k p =
            subst
              (λ m.
                ltb m 16 ≡ false
                → IsSorted 16 m keys children
                → key_found ch keys (find_index ch keys m) ≡ none
                → IsNode (add_child16 plen prefix m keys children ch child) plen prefix
                    (with_child ch child (sorted_at m keys children)))
              p (λ e s absent. larger s e absent)

    add_child4_lem :
        (prefix : Array ℕ) (num : ℕ) (keys : Array ℕ) (children : ℕ → ArtNode V)
        → IsSorted 4 num keys children
        → key_found ch keys (find_index ch keys num) ≡ none
        → IsNode
            (add_child4 plen prefix num keys children ch child)
            plen
            prefix
            (with_child ch child (sorted_at num keys children))
    add_child4_lem prefix num keys children s absent = elim (Bool-cases (ltb num 4)) [
      | inl e ↦ add_child4_room plen prefix num keys children ch child s absent (ltb→lt num 4 e) b n
      | inr e ↦
          subst (λ t. IsNode t plen prefix (with_child ch child (sorted_at num keys children)))
            (sym (full4 prefix num keys children e))
            (grown-IsNode _ prefix
              (sorted_at num (copy num keys (fill 0)) (copy num children (fill null)))
              (sorted_at num keys children)
              (λ c m. copied_at num keys (fill 0) children (fill null) s c)
              (add_child16_lem (copy_prefix plen prefix) num (copy num keys (fill 0))
                (copy num children (fill null)) copied
                (Found-none ch num (copy num keys (fill 0)) _
                  (sorted-Found ch num (copy num keys (fill 0)) copied.ascending)
                  (λ i l f.
                    absent_key ch num keys s.ascending absent i l
                      (sym (copy_below num keys (fill 0) i l) ∙ f)))))
    ]
      where
        copied : IsSorted 16 num (copy num keys (fill 0)) (copy num children (fill null))
        copied = copied-IsSorted num keys (fill 0) children (fill null) s

    -- In a node with arrays in order and no child for a byte, node_add_child makes the given
    -- child the one for that byte, keeps the children for all other bytes and the stored
    -- prefix, and leaves arrays in order, also where the node grows to the next size.
    pub add_child_lem :
        (kind : Kind) (prefix : Array ℕ) (num : ℕ) (keys : Array ℕ) (children : ℕ → ArtNode V)
        → IsFine kind num keys children
        → get_child kind num keys ch ≡ none
        → IsNode
            (add_child kind plen prefix num keys children ch child)
            plen
            prefix
            (with_child ch child (child_at kind num keys children))
    unfolding add_child get_child
    add_child_lem kind prefix num keys children (fine4 s) absent =
        add_child4_lem prefix num keys children s absent
    add_child_lem kind prefix num keys children (fine16 s) absent =
        add_child16_lem prefix num keys children s absent
    add_child_lem kind prefix num keys children (fine48 s) absent =
        add_child48_lem prefix num keys children s (unset (keys ch) absent)
      where
        unset : (k : ℕ) → (if k == 0 then none else some (k - 1)) ≡ none → k ≡ 0
        unset k e = elim (Bool-cases (k == 0)) [ inl f ↦ (==_iff k 0).0 f | inr f ↦ cc (rw f at e) ]
    add_child_lem kind prefix num keys children fine256 absent = cc absent
