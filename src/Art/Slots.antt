-- ===== src/Art/Slots.antt =====
-- The child of a node for a key byte, and nodes with ascending keys: node4 and node16.
use mathlib.Core.Path.{subst}
use pgexporter.Prelude.{
  ℕ, ◌+◌, ◌-◌, ◌≤◌, ◌<◌, ◌≡◌, ◌≢◌, ◌⊎◌, inl, inr, refl, sym, ap, ◌∙◌, true, false, ◌&&◌, Option,
  none, some, ltb, leb, ◌==◌, if◌then◌else◌, Bool-cases, ltb→lt, ==_iff, arith,
}
use pgexporter.Art.Arrays.{Array, write, memmove}
use pgexporter.Art.{Kind, ArtNode, null, find_index, get_child, key_found}
use pgexporter.Art.Insert.{next_index}
use pgexporter.Art.Index.{
  Ascending, Position, find_index-Position, Found, present, missing, key_found-Found,
}

module _ {ℓ} {A : Type ℓ} where
  -- What an array has at `j` after an element was put in at `pos` of its first `num`.
  pub data Shifted (pos : ℕ) (x : A) (a : Array A) : ℕ → A → Type ℓ where
    before : {j : ℕ} {y : A} → j < pos → y ≡ a j → Shifted pos x a j y
    here : {j : ℕ} {y : A} → j ≡ pos → y ≡ x → Shifted pos x a j y
    behind : {j : ℕ} {y : A} → pos < j → y ≡ a (j - 1) → Shifted pos x a j y

  abbrev pub put_in : ℕ → ℕ → A → Array A → Array A
  put_in pos num x a = write (memmove (pos + 1) pos (num - pos) a) pos x

  pub put_in-Shifted :
      (pos num : ℕ) (x : A) (a : Array A) (j : ℕ)
      → pos ≤ num
      → j < num + 1
      → Shifted pos x a j (put_in pos num x a j)
  put_in-Shifted pos num x a j p l = elim (Bool-cases (j == pos)) [
    | inl e ↦ here ((==_iff j pos).0 e) (rw e refl)
    | inr e ↦ elim (Bool-cases (ltb j pos)) [
      | inl f ↦ before (ltb→lt j pos f) (rw (e, outside j pos num f) refl)
      | inr f ↦ behind (past j pos e f) (rw (e, inside j pos num p l e f) (ap a (back j pos e f)))
    ]
  ]
    where
      outside :
          (j pos num : ℕ)
          → ltb j pos ≡ true
          → (leb (pos + 1) j && ltb j (pos + 1 + (num - pos))) ≡ false
      outside j pos num f = ground arith

      inside :
          (j pos num : ℕ)
          → pos ≤ num
          → j < num + 1
          → (j == pos) ≡ false
          → ltb j pos ≡ false
          → (leb (pos + 1) j && ltb j (pos + 1 + (num - pos))) ≡ true
      inside j pos num p l e f = ground arith

      past : (j pos : ℕ) → (j == pos) ≡ false → ltb j pos ≡ false → pos < j
      past j pos e f = ground arith

      back : (j pos : ℕ) → (j == pos) ≡ false → ltb j pos ≡ false → pos + (j - (pos + 1)) ≡ j - 1
      back j pos e f = ground arith

module _ {ℓ} {A : Type ℓ} (pos num : ℕ) (x : A) (a : Array A) where
  pub put_in_here : put_in pos num x a pos ≡ x
  put_in_here = rw (self pos) refl
    where
      self : (n : ℕ) → (n == n) ≡ true
      self n = ground arith

  pub put_in_before : (j : ℕ) → pos ≤ num → j < pos → put_in pos num x a j ≡ a j
  put_in_before j p l = only_before (put_in-Shifted pos num x a j p (omega arith))
    where
      only_before : {y : A} → Shifted pos x a j y → y ≡ a j
      only_before (before m e) = e
      only_before (here m e) = absurd (omega arith)
      only_before (behind m e) = absurd (omega arith)

  pub put_in_behind : (j : ℕ) → pos ≤ j → j < num → put_in pos num x a (j + 1) ≡ a j
  put_in_behind j p l = only_behind (put_in-Shifted pos num x a (j + 1) (omega arith) (omega arith))
    where
      one_back : (n : ℕ) → n + 1 - 1 ≡ n
      one_back n = omega arith

      only_behind : {y : A} → Shifted pos x a (j + 1) y → y ≡ a j
      only_behind (before m e) = absurd (omega arith)
      only_behind (here m e) = absurd (omega arith)
      only_behind (behind m e) = e ∙ ap a (one_back j)

-- Where a key that is not there comes in.
pub record Place (ch num : ℕ) (keys : Array ℕ) (pos : ℕ) : Type 0 where
  pub within : pos ≤ num
  pub lower : (j : ℕ) → j < pos → keys j < ch
  pub upper : (j : ℕ) → pos ≤ j → j < num → ch < keys j

pub next_index-Place :
    (ch num : ℕ) (keys : Array ℕ)
    → Ascending num keys
    → ((i : ℕ) → i < num → keys i ≢ ch)
    → (p : Option ℕ) → Position ch num keys p
    → Place ch num keys (next_index p)
next_index-Place ch num keys asc absent none pos = record {
  within = omega arith;
  lower = λ j l. absurd (omega arith);
  upper = λ j p l. pos j l;
}
next_index-Place ch num keys asc absent (some i) pos = record {
  within = omega arith;
  lower = λ j l. below j l;
  upper = λ j p l. pos.2 j (omega arith) l;
}
  where
    at_end : (a b : ℕ) → ltb a b ≡ false → a < b + 1 → a ≡ b
    at_end a b e l = ground arith

    less : (a b : ℕ) → a ≤ b → a ≢ b → a < b
    less a b p q = ground arith

    below : (j : ℕ) → j < i + 1 → keys j < ch
    below j l = elim (Bool-cases (ltb j i)) [
      | inl e ↦ omega (arith, asc j i (ltb→lt j i e) pos.0, pos.1)
      | inr e ↦
          let at_i : j ≡ i = at_end j i e l in
          subst (λ k. keys k < ch) (sym at_i) (less (keys i) ch pos.1 (absent i pos.0))
    ]

pub put_in-Ascending :
    (ch num : ℕ) (keys : Array ℕ) (pos : ℕ)
    → Ascending num keys
    → Place ch num keys pos
    → Ascending (num + 1) (put_in pos num ch keys)
put_in-Ascending ch num keys pos asc p i j l m =
    order i j l m (put_in pos num ch keys i) (put_in pos num ch keys j)
      (put_in-Shifted pos num ch keys i p.within (omega arith))
      (put_in-Shifted pos num ch keys j p.within m)
  where
    order :
        (i j : ℕ)
        → i < j
        → j < num + 1
        → (x y : ℕ) → Shifted pos ch keys i x
        → Shifted pos ch keys j y
        → x < y
    order i j l m x y (before a e) (before b f) = omega (arith, asc i j l (omega (arith, p.within)))
    order i j l m x y (before a e) (here b f) = omega (arith, p.lower i a)
    order i j l m x y (before a e) (behind b f) =
        omega (arith, p.lower i a, p.upper (j - 1) (omega arith) (omega arith))
    order i j l m x y (here a e) (before b f) = absurd (omega arith)
    order i j l m x y (here a e) (here b f) = absurd (omega arith)
    order i j l m x y (here a e) (behind b f) =
        omega (arith, p.upper (j - 1) (omega arith) (omega arith))
    order i j l m x y (behind a e) (before b f) = absurd (omega arith)
    order i j l m x y (behind a e) (here b f) = absurd (omega arith)
    order i j l m x y (behind a e) (behind b f) =
        omega (arith, asc (i - 1) (j - 1) (omega arith) (omega arith))

-- A key that stands at `i` is found there, and one that is nowhere is not found.
pub Found-some :
    (ch n : ℕ) (keys : Array ℕ) (o : Option ℕ)
    → Ascending n keys
    → Found ch n keys o
    → (i : ℕ) → i < n
    → keys i ≡ ch
    → o ≡ some i
Found-some ch n keys o asc (present j l e) i m f =
    ap some (one_index (Bool-cases (ltb i j)) (Bool-cases (ltb j i)))
  where
    equal : (x y : ℕ) → ltb x y ≡ false → ltb y x ≡ false → y ≡ x
    equal x y a b = ground arith

    one_index : (ltb i j ≡ true) ⊎ (ltb i j ≡ false) → (ltb j i ≡ true) ⊎ (ltb j i ≡ false) → j ≡ i
    one_index (inl a) b = absurd (omega (arith, asc i j (ltb→lt i j a) l))
    one_index (inr a) (inl b) = absurd (omega (arith, asc j i (ltb→lt j i b) m))
    one_index (inr a) (inr b) = equal i j a b
Found-some ch n keys o asc (missing absent) i m f = absurd (absent i m f)

pub Found-none :
    (ch n : ℕ) (keys : Array ℕ) (o : Option ℕ)
    → Found ch n keys o
    → ((i : ℕ) → i < n → keys i ≢ ch)
    → o ≡ none
Found-none ch n keys o (present i l e) absent = absurd (absent i l e)
Found-none ch n keys o (missing f) absent = refl

module _ {ℓ} {V : Type ℓ} where
  -- The child that a place of node_get_child holds, NULL where there is no place.
  abbrev pub slot_tree : (ℕ → ArtNode V) → Option ℕ → ArtNode V
  slot_tree children none = null
  slot_tree children (some i) = children i

  abbrev pub child_at : Kind → ℕ → Array ℕ → (ℕ → ArtNode V) → ℕ → ArtNode V
  child_at kind num keys children ch = slot_tree children (get_child kind num keys ch)

  module _ (ch num : ℕ) (keys : Array ℕ) (children : ℕ → ArtNode V) (pos : ℕ) (child : ArtNode V)
      (asc : Ascending num keys) (p : Place ch num keys pos) where
    Found-new :
        (o' : Option ℕ)
        → Found ch (num + 1) (put_in pos num ch keys) o'
        → slot_tree (put_in pos num child children) o' ≡ child
    Found-new o' f =
        rw
          (Found-some ch (num + 1) (put_in pos num ch keys) o'
            (put_in-Ascending ch num keys pos asc p) f pos (omega (arith, p.within))
            (put_in_here pos num ch keys))
          (put_in_here pos num child children)

    absent_other :
        (c : ℕ)
        → (c == ch) ≡ false
        → ((i : ℕ) → i < num → keys i ≢ c)
        → (j : ℕ) → j < num + 1
        → put_in pos num ch keys j ≢ c
    absent_other c d absent j l =
        cases (put_in pos num ch keys j) (put_in-Shifted pos num ch keys j p.within l)
      where
        different : (c k : ℕ) → (c == ch) ≡ false → k ≡ ch → k ≢ c
        different c k d e f = ground arith

        cases : (y : ℕ) → Shifted pos ch keys j y → y ≢ c
        cases y (before a e) = λ f. absent j (omega (arith, p.within)) (sym e ∙ f)
        cases y (here a e) = different c y d e
        cases y (behind a e) = λ f. absent (j - 1) (omega arith) (sym e ∙ f)

    Found-other :
        (c : ℕ) (o o' : Option ℕ)
        → (c == ch) ≡ false
        → Found c num keys o
        → Found c (num + 1) (put_in pos num ch keys) o'
        → slot_tree (put_in pos num child children) o' ≡ slot_tree children o
    Found-other c o o' d (missing absent) f =
        ap (slot_tree (put_in pos num child children))
          (Found-none c (num + 1) (put_in pos num ch keys) o' f (absent_other c d absent))
    Found-other c o o' d (present i l e) f = elim (Bool-cases (ltb i pos)) [
      | inl a ↦
          let lower = ltb→lt i pos a in
          ap (slot_tree (put_in pos num child children)) (
            Found-some c (num + 1) (put_in pos num ch keys) o'
              (put_in-Ascending ch num keys pos asc p) f i (omega arith)
              (put_in_before pos num ch keys i p.within lower ∙ e))
          ∙ put_in_before pos num child children i p.within lower
      | inr a ↦
          ap (slot_tree (put_in pos num child children)) (
            Found-some c (num + 1) (put_in pos num ch keys) o'
              (put_in-Ascending ch num keys pos asc p) f (i + 1) (omega arith)
              (put_in_behind pos num ch keys i (not_lower i pos a) l ∙ e))
          ∙ put_in_behind pos num child children i (not_lower i pos a) l
    ]
      where
        not_lower : (a b : ℕ) → ltb a b ≡ false → b ≤ a
        not_lower a b e = ground arith

    -- After a child is put in for a new byte, the byte has it, and any other byte has what it had.
    pub slot-put_in :
        (c : ℕ) (o o' : Option ℕ)
        → Found c num keys o
        → Found c (num + 1) (put_in pos num ch keys) o'
        → slot_tree (put_in pos num child children) o'
          ≡ (if c == ch then child else slot_tree children o)
    slot-put_in c o o' f f' = elim (Bool-cases (c == ch)) [
      | inl e ↦ rw e (
          Found-new o'
            (subst (λ k. Found k (num + 1) (put_in pos num ch keys) o') ((==_iff c ch).0 e) f'))
      | inr e ↦ rw e (Found-other c o o' e f f')
    ]

pub sorted-Found :
    (c num : ℕ) (keys : Array ℕ)
    → Ascending num keys
    → Found c num keys (key_found c keys (find_index c keys num))
sorted-Found c num keys asc =
    key_found-Found c num keys (find_index c keys num) asc (find_index-Position c num keys asc)

-- A key that node_get_child does not find is none of the keys.
pub absent_key :
    (ch num : ℕ) (keys : Array ℕ)
    → Ascending num keys
    → key_found ch keys (find_index ch keys num) ≡ none
    → (i : ℕ) → i < num
    → keys i ≢ ch
absent_key ch num keys asc e i l f =
    cc (Found-some ch num keys _ asc (sorted-Found ch num keys asc) i l f)
