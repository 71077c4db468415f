-- ===== src/Art/Lowest.antt =====
-- node_get_minimum of src/libpgexporter/art.c: the key that it returns is the first of the tree's keys in
-- byte order.
use mathlib.Core.Path.{subst}
use pgexporter.Prelude.{
  ℕ, ◌+◌, ◌<◌, ◌≤◌, ◌≡◌, ◌⊎◌, inl, inr, refl, sym, ap, ◌∙◌, false, some, ltb, Bool-cases, ltb→lt,
  arith,
}
use pgexporter.Text.{Bytes, same}
use pgexporter.Art.Arrays.{Array}
use pgexporter.Art.{
  Kind, ArtNode, null, leaf, node, is_null, byte_at, first_child, get_minimum, art_search,
}
use pgexporter.Art.Slots.{child_at}
use pgexporter.Art.Indexed.{write_here}
use pgexporter.Art.Keys.{IsKey, Agree, same_sound, same_self}
use pgexporter.Art.Paths.{
  Under, step, Under-step, Holds, empty, one_key, branch, find, find-node, find-Under,
}
use pgexporter.Art.Least.{First, first_child_lem}
use pgexporter.Art.Insert.{Art}
use pgexporter.Art.Map.{IsArt, search_find}

-- The first key is the second, or has the lower byte where they first differ.
abbrev pub NotAfter : Bytes → Bytes → Type 0
NotAfter k k' =
    (k ≡ k') ⊎ ((i : ℕ) × Agree i (byte_at k) (byte_at k') × (byte_at k i < byte_at k' i))

module _ {ℓ} {V : Type ℓ} where
  -- The least key below a node: it is there, and no other comes before it.
  record Lowest (path : Array ℕ) (depth : ℕ) (t : ArtNode V) : Type ℓ where
    key : Bytes
    value : V
    returned : get_minimum t ≡ some key
    under : Under path depth key
    found : find t depth key ≡ some value
    first : (k : Bytes) (v : V) → IsKey k → find t depth k ≡ some v → NotAfter key k

  get_minimum_child :
      (kind : Kind) (plen : ℕ) (prefix : Array ℕ) (num : ℕ) (keys : Array ℕ)
      (children : ℕ → ArtNode V)
      → get_minimum (node kind plen prefix num keys children)
        ≡ get_minimum (children (first_child kind keys children))
  unfolding get_minimum
  get_minimum_child kind plen prefix num keys children = refl

  Lowest-leaf :
      {path : Array ℕ} {depth : ℕ} (key : Bytes) (v : V)
      → Under path depth key
      → Lowest path depth (leaf key v)
  unfolding get_minimum find
  Lowest-leaf key v u = record {
    key = key;
    value = v;
    returned = refl;
    under = u;
    found = rw (same_self key) refl;
    first = λ k w ok e. elim (Bool-cases (same key k)) [
      | inl f ↦ inl (same_sound key k f)
      | inr f ↦ cc (rw f at e)
    ];
  }

  module _ (path : Array ℕ) (depth : ℕ) (kind : Kind) (plen : ℕ) (prefix : Array ℕ) (num : ℕ)
      (keys : Array ℕ) (children : ℕ → ArtNode V) (longer : Array ℕ)
      (along : Agree depth longer path)
      (below : (c : ℕ)
        → c < 256
        → Holds
            (step longer (depth + plen) c)
            (depth + plen + 1)
            (child_at kind num keys children c))
      (f : First (child_at kind num keys children) (children (first_child kind keys children)))
      (low : Lowest
        (step longer (depth + plen) f.byte)
        (depth + plen + 1)
        (child_at kind num keys children f.byte)) where
    byte_here : byte_at low.key (depth + plen) ≡ f.byte
    byte_here =
        low.under.agrees (depth + plen) (omega arith) ∙ write_here longer (depth + plen) f.byte

    first_there :
        (k : Bytes) (v : V)
        → IsKey k
        → find (node kind plen prefix num keys children) depth k ≡ some v
        → NotAfter low.key k
    unfolding find
    first_there k v ok e =
        let c = byte_at k (depth + plen) in
        let there = sym (find-node kind plen prefix num keys children depth k) ∙ e in
        let u = find-Under k v ok (below c (ok.bytes (depth + plen))) there in
        let l =
          f.lowest c (ok.bytes (depth + plen))
            (solid (depth + plen + 1) (child_at kind num keys children c) there) in
        elim (Bool-cases (ltb f.byte c)) [
          | inl g ↦ inr (
            depth + plen,
            (λ j m.
                (Under-step longer (depth + plen) f.byte low.key low.under).agrees j m
                ∙ sym ((Under-step longer (depth + plen) c k u).agrees j m)),
            subst (λ b. b < c) (sym byte_here) (ltb→lt f.byte c g),
          )
          | inr g ↦ low.first k v ok (
              ap (λ b. find (child_at kind num keys children b) (depth + plen + 1) k)
                (equal f.byte c l g)
              ∙ there)
        ]
      where
        equal : (a b : ℕ) → a ≤ b → ltb a b ≡ false → a ≡ b
        equal a b l e = ground arith

        solid : (d : ℕ) (t : ArtNode V) → find t d k ≡ some v → is_null t ≡ false
        solid d null e = cc e
        solid d (leaf k w) e = refl
        solid d (node kind plen prefix num keys children) e = refl

    Lowest-node : Lowest path depth (node kind plen prefix num keys children)
    Lowest-node =
        let u = Under-step longer (depth + plen) f.byte low.key low.under in
        record {
          key = low.key;
          value = low.value;
          returned =
              get_minimum_child kind plen prefix num keys children
              ∙ sym (ap get_minimum f.is_it)
              ∙ low.returned;
          under = record {
            key_ok = u.key_ok;
            agrees = λ j l. u.agrees j (omega arith) ∙ along j l;
            reaches = omega (arith, u.reaches);
          };
          found =
              find-node kind plen prefix num keys children depth low.key
              ∙ ap (λ b. find (child_at kind num keys children b) (depth + plen + 1) low.key)
                  byte_here
              ∙ low.found;
          first = first_there;
        }

  lowest :
      {path : Array ℕ} {depth : ℕ} {t : ArtNode V}
      → Holds path depth t
      → is_null t ≡ false
      → Lowest path depth t
  lowest empty e = cc e
  lowest (one_key {key = key} {v = v} u) e = Lowest-leaf key v u
  lowest {path = path} {depth = depth}
        (branch {kind = kind} {plen = plen} {prefix = prefix} {num = num} {keys = keys}
          {children = children} longer a p fine some_child below)
        e =
      let f = first_child_lem kind num keys children fine some_child.0 some_child.1 some_child.2 in
      Lowest-node path depth kind plen prefix num keys children longer a below f
        (lowest (below f.byte f.in_range) (ap is_null f.is_it ∙ f.solid))

  solid_root : (t : ArtNode V) (k : Bytes) (v : V) → find t 0 k ≡ some v → is_null t ≡ false
  unfolding find
  solid_root null k v e = cc e
  solid_root (leaf k₀ w) k v e = refl
  solid_root (node kind plen prefix num keys children) k v e = refl

  -- On a well-formed radix tree in which a search finds some key, node_get_minimum returns a key
  -- that a search finds, too, and that does not come after that one in byte order: it is the same,
  -- or has the lower byte where the two first differ.
  pub get_minimum_lem :
      (t : Art V) (k : Bytes) (v : V)
      → IsArt t
      → IsKey k
      → art_search t.root k ≡ some v
      → (least : Bytes) × (get_minimum t.root ≡ some least)
        × IsKey least
        × ((w : V) × (art_search t.root least ≡ some w))
        × NotAfter least k
  get_minimum_lem t k v h ok found =
      let there = sym (search_find t k h ok) ∙ found in
      let l = lowest h (solid_root t.root k v there) in
      (
        l.key,
        l.returned,
        l.under.key_ok,
        (l.value, search_find t l.key h l.under.key_ok ∙ l.found),
        l.first k v ok there,
      )
