-- ===== src/Art/Refines.antt =====
-- pgexporter_art_insert and art_search: the tree is a map from keys to values.
use mathlib.Core.Path.{subst}
use pgexporter.Prelude.{
  ℕ, ◌+◌, ◌≤◌, ◌<◌, ◌≡◌, inl, inr, refl, sym, ap, ◌∙◌, Bool, true, false, none, some, ltb,
  if◌then◌else◌, Bool-cases, lt→ltb, length, arith,
}
use pgexporter.Text.{Bytes, same}
use pgexporter.Art.Arrays.{Array}
use pgexporter.Art.{ArtNode, null, leaf, node, get_minimum, byte_at}
use pgexporter.Art.Insert.{node_insert, check_prefix, split_node}
use pgexporter.Art.Slots.{child_at}
use pgexporter.Art.Keys.{Agree, same_sound}
use pgexporter.Art.Paths.{Under, step, Under-extend, Holds, empty, one_key, branch, find}
use pgexporter.Art.Least.{least_key}
use pgexporter.Art.Prefixes.{Reach, whole, leaves, check_prefix-Reach}
use pgexporter.Art.Updated.{is_none, Updated}
use pgexporter.Art.Split.{split_leaf-Updated}
use pgexporter.Art.SplitNode.{split_node-Updated}
use pgexporter.Art.Down.{node_insert-null, node_insert_splits, down-Updated}

module _ {ℓ} {V : Type ℓ} where
  leaf-Updated :
      (path : Array ℕ) (depth : ℕ) (k : Bytes) (w : V) (key : Bytes) (v : V)
      → Under path depth k
      → Under path depth key
      → Updated path depth
          (leaf k w)
          key
          v
          (node_insert (leaf k w) depth key v).0
          (node_insert (leaf k w) depth key v).1
  unfolding node_insert find
  leaf-Updated path depth k w key v u u' = elim (Bool-cases (same k key)) [
    | inl e ↦
        rw (e, node_insert)
          record {
            holds = one_key u;
            solid = refl;
            found = λ k' ok. over k' (same k k') (ap (λ a. same a k') (same_sound k key e));
            fresh = sym (ap (λ b. is_none (if b then some w else none)) e);
          }
    | inr e ↦ rw (e, node_insert) (split_leaf-Updated path depth k w key v u u' e)
  ]
    where
      over :
          (k' : Bytes) (b : Bool)
          → same k k' ≡ same key k'
          → (if same k k' then some v else none)
            ≡ (if same key k' then some v else (if same k k' then some w else none))
      over k' b e = elim (Bool-cases (same k k')) [
        | inl f ↦ rw (f, sym e ∙ f) refl
        | inr f ↦ rw (f, sym e ∙ f) refl
      ]

  pub node_insert-Updated :
      {path : Array ℕ} {depth : ℕ} {t : ArtNode V} (key : Bytes) (v : V)
      → Holds path depth t
      → Under path depth key
      → Updated path depth t key v (node_insert t depth key v).0 (node_insert t depth key v).1
  unfolding find
  node_insert-Updated {path = path} {depth = depth} key v empty u =
      subst (λ r. Updated path depth null key v r.0 r.1) (sym (node_insert-null depth key v))
        record { holds = one_key u; solid = refl; found = λ k ok. refl; fresh = refl }
  node_insert-Updated {path = path} {depth = depth} key v (one_key {key = k} {v = w} u₀) u =
      leaf-Updated path depth k w key v u₀ u
  node_insert-Updated {path = path} {depth = depth} key v
        (branch {kind = kind} {plen = plen} {prefix = prefix} {num = num} {keys = keys}
          {children = children} longer a p fine some_child below)
        u =
      go
        (λ w.
          node_insert-Updated key v
            (below (byte_at key (depth + plen)) (u.key_ok.bytes (depth + plen))) w)
        (subst (λ o. Reach longer depth plen key (check_prefix plen prefix o key depth))
          (sym least.1)
          (check_prefix-Reach longer depth plen prefix least.0 key p least.2 least.3 u.key_ok
            start))
    where
      start : Agree depth (byte_at key) longer
      start j l = u.agrees j l ∙ sym (a j l)

      least :
          (k : Bytes) × (get_minimum (node kind plen prefix num keys children) ≡ some k)
          × Under longer (depth + plen) k
          × (depth + plen < length k)
      least = least_key depth kind plen prefix num keys children longer fine some_child below

      diff : ℕ
      diff =
          check_prefix plen prefix (get_minimum (node kind plen prefix num keys children)) key depth

      past : (x y : ℕ) → y ≤ x → ltb x y ≡ false
      past x y l = ground arith

      child : ArtNode V
      child = child_at kind num keys children (byte_at key (depth + plen))

      inserted : ArtNode V × Bool
      inserted = node_insert (node kind plen prefix num keys children) depth key v

      go :
          (Under (step longer (depth + plen) (byte_at key (depth + plen))) (depth + plen + 1) key
            → Updated
                (step longer (depth + plen) (byte_at key (depth + plen)))
                (depth + plen + 1)
                child
                key
                v
                (node_insert child (depth + plen + 1) key v).0
                (node_insert child (depth + plen + 1) key v).1)
          → Reach longer depth plen key diff
          → Updated path depth (node kind plen prefix num keys children) key v inserted.0 inserted.1
      go deeper (whole l all m) =
          down-Updated path depth kind plen prefix num keys children key v longer a p fine below
            u.key_ok (past diff plen l)
            (deeper (
              Under-extend longer (depth + plen) key
                record { key_ok = u.key_ok; agrees = all; reaches = omega arith } m))
      go deeper (leaves l along n m) =
          subst (λ r. Updated path depth (node kind plen prefix num keys children) key v r.0 r.1)
            (sym (
              node_insert_splits path depth kind plen prefix num keys children key v
                (lt→ltb diff plen l)))
            (subst
              (λ o.
                Updated path depth (node kind plen prefix num keys children) key v
                  (split_node kind plen prefix num keys children o diff depth key v) true)
              (sym least.1)
              (split_node-Updated path depth kind plen prefix num keys children longer a p fine
                some_child below diff l key v
                record { key_ok = u.key_ok; agrees = along; reaches = omega arith } m n
                (byte least.0 least.2) least.0 least.2.agrees))
        where
          byte : (k : Bytes) → Under longer (depth + plen) k → longer (depth + diff) < 256
          byte k w =
              omega (arith, w.agrees (depth + diff) (omega arith), w.key_ok.bytes (depth + diff))
