-- ===== src/Art/Sorted.antt =====
-- node4_add_child and node16_add_child where there is room, and node4 grown to node16.
use pgexporter.Prelude.{
  ℕ, ◌+◌, ◌<◌, ◌≡◌, refl, sym, ap, ◌∙◌, false, Option, none, lt→ltb, min, arith,
}
use pgexporter.Art.Arrays.{Array, fill, copy}
use pgexporter.Art.{ArtNode, is_null, find_index, get_child, key_found, max_prefix_len}
use pgexporter.Art.Insert.{next_index, add_child4, add_child16, copy_prefix}
use pgexporter.Art.Index.{find_index-Position, Found, present, missing}
use pgexporter.Art.Slots.{
  put_in, Place, next_index-Place, Found-some, Found-none, slot_tree, slot-put_in, sorted-Found,
  absent_key,
}
use pgexporter.Art.Children.{IsSorted, fine4, fine16, IsNode, is_node, with_child, put_in-IsSorted}

pub copy_below {ℓ} : {A : Type ℓ} (n : ℕ) (a b : Array A) (i : ℕ) → i < n → copy n a b i ≡ a i
copy_below n a b i l = rw (lt→ltb i n l) refl

pub copy_prefix_same :
    (plen : ℕ) (prefix : Array ℕ) (j : ℕ)
    → j < min plen max_prefix_len
    → copy_prefix plen prefix j ≡ prefix j
copy_prefix_same plen prefix j l =
    copy_below (min max_prefix_len plen) prefix (fill 0) j (omega arith)

module _ {ℓ} {V : Type ℓ} where
  -- Both kinds of node with ascending keys find a child in the same way.
  abbrev pub sorted_at : ℕ → Array ℕ → (ℕ → ArtNode V) → ℕ → ArtNode V
  sorted_at num keys children c = slot_tree children (key_found c keys (find_index c keys num))

  module _ (limit num : ℕ) (keys : Array ℕ) (children : ℕ → ArtNode V) (ch : ℕ) (child : ArtNode V)
      (s : IsSorted limit num keys children)
      (absent : key_found ch keys (find_index ch keys num) ≡ none) where
    abbrev pub new_pos : ℕ
    new_pos = next_index (find_index ch keys num)

    pub new-Place : Place ch num keys new_pos
    new-Place =
        next_index-Place ch num keys s.ascending (absent_key ch num keys s.ascending absent)
          (find_index ch keys num) (find_index-Position ch num keys s.ascending)

    pub sorted_at-put_in :
        num < limit
        → ch < 256
        → is_null child ≡ false
        → (c : ℕ)
        → sorted_at (num + 1) (put_in new_pos num ch keys) (put_in new_pos num child children) c
          ≡ with_child ch child (sorted_at num keys children) c
    sorted_at-put_in l b n c =
        let s' = put_in-IsSorted limit num keys children new_pos ch child s l new-Place b n in
        slot-put_in ch num keys children new_pos child s.ascending new-Place c
          (key_found c keys (find_index c keys num)) _ (sorted-Found c num keys s.ascending)
          (sorted-Found c (num + 1) (put_in new_pos num ch keys) s'.ascending)

  pub add_child4_room :
      (plen : ℕ) (prefix : Array ℕ) (num : ℕ) (keys : Array ℕ) (children : ℕ → ArtNode V) (ch : ℕ)
      (child : ArtNode V)
      → IsSorted 4 num keys children
      → key_found ch keys (find_index ch keys num) ≡ none
      → num < 4
      → ch < 256
      → is_null child ≡ false
      → IsNode
          (add_child4 plen prefix num keys children ch child)
          plen
          prefix
          (with_child ch child (sorted_at num keys children))
  unfolding add_child4 get_child
  add_child4_room plen prefix num keys children ch child s absent l b n = rw (lt→ltb num 4 l) (
      is_node (λ j m. refl)
        (fine4 (
          put_in-IsSorted 4 num keys children (new_pos 4 num keys children ch child s absent) ch
            child s l (new-Place 4 num keys children ch child s absent) b n))
        (λ c m. sorted_at-put_in 4 num keys children ch child s absent l b n c))

  pub add_child16_room :
      (plen : ℕ) (prefix : Array ℕ) (num : ℕ) (keys : Array ℕ) (children : ℕ → ArtNode V) (ch : ℕ)
      (child : ArtNode V)
      → IsSorted 16 num keys children
      → key_found ch keys (find_index ch keys num) ≡ none
      → num < 16
      → ch < 256
      → is_null child ≡ false
      → IsNode
          (add_child16 plen prefix num keys children ch child)
          plen
          prefix
          (with_child ch child (sorted_at num keys children))
  unfolding add_child16 get_child
  add_child16_room plen prefix num keys children ch child s absent l b n = rw (lt→ltb num 16 l) (
      is_node (λ j m. refl)
        (fine16 (
          put_in-IsSorted 16 num keys children (new_pos 16 num keys children ch child s absent) ch
            child s l (new-Place 16 num keys children ch child s absent) b n))
        (λ c m. sorted_at-put_in 16 num keys children ch child s absent l b n c))

  -- The arrays of a node4, copied to a node16, hold the same.
  module _ (num : ℕ) (keys keys₀ : Array ℕ) (children children₀ : ℕ → ArtNode V)
      (s : IsSorted 4 num keys children) where
    pub copied-IsSorted : IsSorted 16 num (copy num keys keys₀) (copy num children children₀)
    copied-IsSorted = record {
      room = omega (arith, s.room);
      ascending = λ i j l m.
          subst2 i j l m (copy_below num keys keys₀ i (omega arith))
            (copy_below num keys keys₀ j m);
      bytes = λ i m. omega (arith, s.bytes i m, copy_below num keys keys₀ i m);
      solid = λ i m. ap is_null (copy_below num children children₀ i m) ∙ s.solid i m;
    }
      where
        subst2 :
            (i j : ℕ)
            → i < j
            → j < num
            → copy num keys keys₀ i ≡ keys i
            → copy num keys keys₀ j ≡ keys j
            → copy num keys keys₀ i < copy num keys keys₀ j
        subst2 i j l m e f = omega (arith, s.ascending i j l m)

    pub copied_at :
        (c : ℕ)
        → sorted_at num (copy num keys keys₀) (copy num children children₀) c
          ≡ sorted_at num keys children c
    copied_at c =
        go (key_found c keys (find_index c keys num)) (sorted-Found c num keys s.ascending) _
          (sorted-Found c num (copy num keys keys₀) copied-IsSorted.ascending)
      where
        go :
            (o : Option ℕ)
            → Found c num keys o
            → (o' : Option ℕ) → Found c num (copy num keys keys₀) o'
            → slot_tree (copy num children children₀) o' ≡ slot_tree children o
        go o (present i l e) o' f =
            ap (slot_tree (copy num children children₀)) (
              Found-some c num (copy num keys keys₀) o' copied-IsSorted.ascending f i l
                (copy_below num keys keys₀ i l ∙ e))
            ∙ copy_below num children children₀ i l
        go o (missing absent) o' f = ap (slot_tree (copy num children children₀)) (
            Found-none c num (copy num keys keys₀) o' f
              (λ i l e. absent i l (sym (copy_below num keys keys₀ i l) ∙ e)))
