-- ===== src/Art/Children.antt =====
-- Well-formed arrays of the four nodes, and node_add_child: a new child is the one for its byte,
-- and the children for the other bytes stay, whatever the node grows to.
use pgexporter.Prelude.{
  ℕ, zero, suc, ◌+◌, ◌-◌, ◌≤◌, ◌<◌, ◌≡◌, ◌≢◌, ap, ◌∙◌, false, ◌==◌, if◌then◌else◌, min, arith,
}
use pgexporter.Art.Arrays.{Array}
use pgexporter.Art.{Kind, node4, node16, node48, node256, ArtNode, node, is_null, max_prefix_len}
use pgexporter.Art.Index.{Ascending}
use pgexporter.Art.Slots.{
  put_in, put_in-Shifted, Shifted, before, here, behind, Place, put_in-Ascending, child_at,
}

module _ {ℓ} {V : Type ℓ} where
  -- How many of the first `n` places hold a child.
  unfoldable pub count_filled : ℕ → (ℕ → ArtNode V) → ℕ
  count_filled zero children = 0
  count_filled (suc n) children = (if is_null (children n) then 0 else 1) + count_filled n children

  -- node4 and node16: keys in order, a child for each.
  pub record IsSorted (limit num : ℕ) (keys : Array ℕ) (children : ℕ → ArtNode V) : Type ℓ where
    pub room : num ≤ limit
    pub ascending : Ascending num keys
    pub bytes : (i : ℕ) → i < num → keys i < 256
    pub solid : (i : ℕ) → i < num → is_null (children i) ≡ false

  -- node48: each key that is set points to a child of its own.
  pub record IsIndexed (num : ℕ) (keys : Array ℕ) (children : ℕ → ArtNode V) : Type ℓ where
    pub room : num ≤ 48
    pub counted : count_filled 48 children ≡ num
    pub pointed : (c : ℕ) → c < 256 → keys c ≢ 0 → keys c ≤ 48
    pub solid : (c : ℕ) → c < 256 → keys c ≢ 0 → is_null (children (keys c - 1)) ≡ false
    pub distinct : (c d : ℕ) → c < 256 → d < 256 → keys c ≢ 0 → keys c ≡ keys d → c ≡ d

  pub data IsFine : Kind → ℕ → Array ℕ → (ℕ → ArtNode V) → Type ℓ where
    fine4 :
        {num : ℕ} {keys : Array ℕ} {children : ℕ → ArtNode V}
        → IsSorted 4 num keys children
        → IsFine node4 num keys children
    fine16 :
        {num : ℕ} {keys : Array ℕ} {children : ℕ → ArtNode V}
        → IsSorted 16 num keys children
        → IsFine node16 num keys children
    fine48 :
        {num : ℕ} {keys : Array ℕ} {children : ℕ → ArtNode V}
        → IsIndexed num keys children
        → IsFine node48 num keys children
    fine256 :
        {num : ℕ} {keys : Array ℕ} {children : ℕ → ArtNode V} → IsFine node256 num keys children

  -- A node with a prefix and with the children that `f` tells for each byte.
  pub data IsNode : ArtNode V → ℕ → Array ℕ → (ℕ → ArtNode V) → Type ℓ where
    is_node :
        {kind : Kind} {plen : ℕ} {prefix prefix' : Array ℕ} {num : ℕ} {keys : Array ℕ}
        {children f : ℕ → ArtNode V}
        → ((j : ℕ) → j < min plen max_prefix_len → prefix' j ≡ prefix j)
        → IsFine kind num keys children
        → ((c : ℕ) → c < 256 → child_at kind num keys children c ≡ f c)
        → IsNode (node kind plen prefix' num keys children) plen prefix f

  pub IsNode-map :
      (t : ArtNode V) (plen : ℕ) (prefix prefix' : Array ℕ) (f g : ℕ → ArtNode V)
      → ((j : ℕ) → j < min plen max_prefix_len → prefix' j ≡ prefix j)
      → ((c : ℕ) → c < 256 → f c ≡ g c)
      → IsNode t plen prefix' f
      → IsNode t plen prefix g
  IsNode-map t plen prefix prefix' f g p q (is_node same fine at) =
      is_node (λ j l. same j l ∙ p j l) fine (λ c l. at c l ∙ q c l)

  -- The children with one more.
  abbrev pub with_child : ℕ → ArtNode V → (ℕ → ArtNode V) → ℕ → ArtNode V
  with_child ch child f c = if c == ch then child else f c

  pub put_in-IsSorted :
      (limit num : ℕ) (keys : Array ℕ) (children : ℕ → ArtNode V) (pos ch : ℕ) (child : ArtNode V)
      → IsSorted limit num keys children
      → num < limit
      → Place ch num keys pos
      → ch < 256
      → is_null child ≡ false
      → IsSorted limit (num + 1) (put_in pos num ch keys) (put_in pos num child children)
  put_in-IsSorted limit num keys children pos ch child s l p b n = record {
    room = omega arith;
    ascending = put_in-Ascending ch num keys pos s.ascending p;
    bytes =
        λ i m. byte i m (put_in pos num ch keys i) (put_in-Shifted pos num ch keys i p.within m);
    solid = λ i m.
        filled i m (put_in pos num child children i)
          (put_in-Shifted pos num child children i p.within m);
  }
    where
      byte : (i : ℕ) → i < num + 1 → (y : ℕ) → Shifted pos ch keys i y → y < 256
      byte i m y (before a e) = omega (arith, s.bytes i (omega (arith, p.within)))
      byte i m y (here a e) = omega arith
      byte i m y (behind a e) = omega (arith, s.bytes (i - 1) (omega arith))

      filled :
          (i : ℕ)
          → i < num + 1
          → (y : ArtNode V) → Shifted pos child children i y
          → is_null y ≡ false
      filled i m y (before a e) = ap is_null e ∙ s.solid i (omega (arith, p.within))
      filled i m y (here a e) = ap is_null e ∙ n
      filled i m y (behind a e) = ap is_null e ∙ s.solid (i - 1) (omega arith)
