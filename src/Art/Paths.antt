-- ===== src/Art/Paths.antt =====
-- Well-formed trees: the keys below a node agree up to it, with what its prefix stores. On such a
-- tree art_search finds what the children alone lead to.
use pgexporter.Prelude.{
  ℕ, ◌+◌, ◌≤◌, ◌<◌, ◌≡◌, ◌⊎◌, inl, inr, refl, sym, ap, ◌∙◌, true, false, Option, none, some, ◌==◌,
  if◌then◌else◌, Bool-cases, ==_iff, length, min, arith,
}
use mathlib.Core.Path.{subst}
use pgexporter.Text.{Bytes, same}
use pgexporter.Art.Arrays.{Array, write}
use pgexporter.Art.{Kind, ArtNode, null, leaf, node, is_null, get_child, max_prefix_len, byte_at}
use pgexporter.Art.Slots.{slot_tree, child_at}
use pgexporter.Art.Children.{IsFine}
use pgexporter.Art.Indexed.{write_here, write_other}
use pgexporter.Art.Keys.{IsKey, Agree, same_sound}

-- A key that goes through `depth` along a path.
pub record Under (path : Array ℕ) (depth : ℕ) (key : Bytes) : Type 0 where
  pub key_ok : IsKey key
  pub agrees : Agree depth (byte_at key) path
  pub reaches : depth ≤ length key

-- A path along a byte.
abbrev pub step : Array ℕ → ℕ → ℕ → Array ℕ
step path n c = write path n c

pub Agree-step : (path : Array ℕ) (n c : ℕ) → Agree n (step path n c) path
Agree-step path n c j l = write_other path n c j (below j n l)
  where
    below : (j n : ℕ) → j < n → (j == n) ≡ false
    below j n l = ground arith

pub Under-step :
    (path : Array ℕ) (n c : ℕ) (key : Bytes) → Under (step path n c) (n + 1) key → Under path n key
Under-step path n c key u = record {
  key_ok = u.key_ok;
  agrees = λ j l. u.agrees j (omega arith) ∙ Agree-step path n c j l;
  reaches = omega (arith, u.reaches);
}

pub Under-extend :
    (path : Array ℕ) (n : ℕ) (key : Bytes)
    → Under path n key
    → n < length key
    → Under (step path n (byte_at key n)) (n + 1) key
Under-extend path n key u l = record {
  key_ok = u.key_ok;
  agrees = λ j m. at j m (Bool-cases (j == n));
  reaches = omega arith;
}
  where
    earlier : (j n : ℕ) → (j == n) ≡ false → j < n + 1 → j < n
    earlier j n e l = ground arith

    at :
        (j : ℕ)
        → j < n + 1
        → ((j == n) ≡ true) ⊎ ((j == n) ≡ false)
        → byte_at key j ≡ step path n (byte_at key n) j
    at j m (inl e) =
        ap (byte_at key) ((==_iff j n).0 e)
        ∙ sym (write_here path n (byte_at key n))
        ∙ sym (ap (step path n (byte_at key n)) ((==_iff j n).0 e))
    at j m (inr e) = u.agrees j (earlier j n e m) ∙ sym (write_other path n (byte_at key n) j e)

module _ {ℓ} {V : Type ℓ} where
  -- A tree whose keys go through `depth` along a path; a node has a child, and its prefix is the path's.
  pub data Holds : Array ℕ → ℕ → ArtNode V → Type ℓ where
    empty : {path : Array ℕ} {depth : ℕ} → Holds path depth null
    one_key :
        {path : Array ℕ} {depth : ℕ} {key : Bytes} {v : V}
        → Under path depth key
        → Holds path depth (leaf key v)
    branch :
        {path : Array ℕ} {depth : ℕ} {kind : Kind} {plen : ℕ} {prefix : Array ℕ} {num : ℕ}
        {keys : Array ℕ} {children : ℕ → ArtNode V}
        → (longer : Array ℕ) → Agree depth longer path
        → ((j : ℕ) → j < min plen max_prefix_len → prefix j ≡ longer (depth + j))
        → IsFine kind num keys children
        → ((c : ℕ) × (c < 256) × (is_null (child_at kind num keys children c) ≡ false))
        → ((c : ℕ)
            → c < 256
            → Holds
                (step longer (depth + plen) c)
                (depth + plen + 1)
                (child_at kind num keys children c))
        → Holds path depth (node kind plen prefix num keys children)

  pub Holds-path :
      (path path' : Array ℕ) (depth : ℕ) (t : ArtNode V)
      → Agree depth path path'
      → Holds path depth t
      → Holds path' depth t
  Holds-path path path' depth t e empty = empty
  Holds-path path path' depth t e (one_key u) =
      one_key
        record { key_ok = u.key_ok; agrees = λ j l. u.agrees j l ∙ e j l; reaches = u.reaches }
  Holds-path path path' depth t e (branch longer a p fine some_child below) =
      branch longer (λ j l. a j l ∙ e j l) p fine some_child below

  -- The value of a key where only the byte at each node is looked at.
  unfoldable pub find : ArtNode V → ℕ → Bytes → Option V
  unfolding same get_child
  find null depth key = none
  find (leaf k v) depth key = if same k key then some v else none
  find (node kind plen prefix num keys children) depth key =
      elim (get_child kind num keys (byte_at key (depth + plen))) [
        | none ↦ none
        | some i ↦ find (children i) (depth + plen + 1) key
      ]

  module _ (kind : Kind) (plen : ℕ) (prefix : Array ℕ) (num : ℕ) (keys : Array ℕ)
      (children : ℕ → ArtNode V) (depth : ℕ) (key : Bytes) where
    pub find-node :
        find (node kind plen prefix num keys children) depth key
        ≡ find (child_at kind num keys children (byte_at key (depth + plen))) (depth + plen + 1) key
    unfolding find
    find-node = through (get_child kind num keys (byte_at key (depth + plen)))
      where
        through :
            (o : Option ℕ)
            → (elim o [ none ↦ none | some i ↦ find (children i) (depth + plen + 1) key ])
              ≡ find (slot_tree children o) (depth + plen + 1) key
        through none = refl
        through (some i) = refl

  -- A key that is found goes through the path.
  pub find-Under :
      {path : Array ℕ} {depth : ℕ} {t : ArtNode V} (key : Bytes) (v : V)
      → IsKey key
      → Holds path depth t
      → find t depth key ≡ some v
      → Under path depth key
  unfolding find
  find-Under key v k empty e = cc e
  find-Under {path = path} {depth = depth} key v k (one_key {key = key₀} u) e =
      elim (Bool-cases (same key₀ key)) [
        | inl f ↦ at_leaf (same_sound key₀ key f)
        | inr f ↦ cc (rw f at e)
      ]
    where
      at_leaf : key₀ ≡ key → Under path depth key
      at_leaf p = subst (Under path depth) p u
  find-Under {path = path} {depth = depth} key v k
        (branch {kind = kind} {plen = plen} {prefix = prefix} {num = num} {keys = keys}
          {children = children} longer a p fine some_child below)
        e =
      let c = byte_at key (depth + plen) in
      let u = Under-step longer (depth + plen) c key (
        find-Under key v k (below c (k.bytes (depth + plen)))
          (sym (find-node kind plen prefix num keys children depth key) ∙ e)) in
      record {
        key_ok = k;
        agrees = λ j l. u.agrees j (omega arith) ∙ a j l;
        reaches = omega (arith, u.reaches);
      }
