-- ===== src/Art/Search.antt =====
-- art_search on a well-formed tree: the prefixes that it compares rule out no key that is there.
use pgexporter.Prelude.{
  ℕ, ◌+◌, ◌-◌, ◌<◌, ◌≡◌, ◌⊎◌, inl, inr, refl, sym, ◌∙◌, Bool, true, false, ◌&&◌, Option, none, some,
  ltb, ◌==◌, Bool-cases, Option-cases, lt→ltb, length, min, arith,
}
use pgexporter.Text.{Bytes}
use pgexporter.Art.Arrays.{Array}
use pgexporter.Art.{
  Kind, ArtNode, node, get_child, max_prefix_len, byte_at, from, check_prefix_partial, search_from,
}
use pgexporter.Art.Slots.{slot_tree, child_at}
use pgexporter.Art.Keys.{IsKey, Agree, Agreement, all_agrees, differs, agree_loop-Agreement}
use pgexporter.Art.Paths.{
  step, Under-step, Holds, empty, one_key, branch, find, find-node, find-Under,
}

-- All of the stored prefix is compared where the key is long enough and has it.
check_prefix_partial_whole :
    (plen : ℕ) (prefix : Array ℕ) (key : Bytes) (depth : ℕ)
    → ((j : ℕ) → j < min plen max_prefix_len → byte_at key (depth + j) ≡ prefix j)
    → depth + plen < length key
    → check_prefix_partial plen prefix key depth ≡ min plen max_prefix_len
unfolding check_prefix_partial
check_prefix_partial_whole plen prefix key depth e l = whole (
    agree_loop-Agreement (min (min plen max_prefix_len) (length key - depth)) (from depth key)
      prefix 0)
  where
    whole :
        {r : ℕ}
        → Agreement
            (from depth key)
            prefix
            0
            (0 + min (min plen max_prefix_len) (length key - depth))
            r
        → r ≡ min plen max_prefix_len
    whole (all_agrees f s g) = omega (arith, f)
    whole (differs f s m g) = absurd (f (e _ (omega arith)))

module _ {ℓ} {V : Type ℓ} (path : Array ℕ) (depth : ℕ) (kind : Kind) (plen : ℕ) (prefix : Array ℕ)
    (num : ℕ) (keys : Array ℕ) (children : ℕ → ArtNode V) (key : Bytes) where
  -- A key that is found below a node goes through its prefix and a byte more.
  pub find-passes :
      (longer : Array ℕ)
      → ((c : ℕ)
          → c < 256
          → Holds
              (step longer (depth + plen) c)
              (depth + plen + 1)
              (child_at kind num keys children c))
      → IsKey key
      → (v : V) → find (node kind plen prefix num keys children) depth key ≡ some v
      → Agree (depth + plen) (byte_at key) longer × (depth + plen < length key)
  find-passes longer below k v e =
      let c = byte_at key (depth + plen) in
      let u =
        find-Under key v k (below c (k.bytes (depth + plen)))
          (sym (find-node kind plen prefix num keys children depth key) ∙ e) in
      ((Under-step longer (depth + plen) c key u).agrees, omega (arith, u.reaches))

  abbrev passes : Bool
  passes =
      (check_prefix_partial plen prefix key depth == min plen max_prefix_len)
      && ltb (depth + plen) (length key)

  search_down :
      passes ≡ true
      → search_from (node kind plen prefix num keys children) depth key
        ≡ search_from
            (child_at kind num keys children (byte_at key (depth + plen)))
            (depth + plen + 1)
            key
  unfolding search_from
  search_down e =
      rw (e, search_from) (through (get_child kind num keys (byte_at key (depth + plen))))
    where
      through :
          (o : Option ℕ)
          → (elim o [ none ↦ none | some i ↦ search_from (children i) (depth + plen + 1) key ])
            ≡ search_from (slot_tree children o) (depth + plen + 1) key
      through none = refl
      through (some i) = refl

  search_stops :
      passes ≡ false → search_from (node kind plen prefix num keys children) depth key ≡ none
  unfolding search_from
  search_stops e = rw (e, search_from) refl

  passes_there :
      (longer : Array ℕ)
      → ((j : ℕ) → j < min plen max_prefix_len → prefix j ≡ longer (depth + j))
      → Agree (depth + plen) (byte_at key) longer
      → depth + plen < length key
      → passes ≡ true
  passes_there longer p a l =
      rw
        (
          check_prefix_partial_whole plen prefix key depth
              (λ j m. a (depth + j) (omega arith) ∙ sym (p j m)) l,
          lt→ltb (depth + plen) (length key) l,
        )
        (self plen)
    where
      self : (n : ℕ) → ((min n 10 == min n 10) && true) ≡ true
      self n = ground arith

module _ {ℓ} {V : Type ℓ} where
  pub search_from-find :
      {path : Array ℕ} {depth : ℕ} {t : ArtNode V} (key : Bytes)
      → IsKey key
      → Holds path depth t
      → search_from t depth key ≡ find t depth key
  unfolding search_from find
  search_from-find key k empty = refl
  search_from-find key k (one_key u) = refl
  search_from-find {path = path} {depth = depth} key k
        (branch {kind = kind} {plen = plen} {prefix = prefix} {num = num} {keys = keys}
          {children = children} longer a p fine some_child below) =
      elim (Bool-cases (passes path depth kind plen prefix num keys children key)) [
        | inl e ↦
            search_down path depth kind plen prefix num keys children key e
            ∙ search_from-find key k (below (byte_at key (depth + plen)) (k.bytes (depth + plen)))
            ∙ sym (find-node kind plen prefix num keys children depth key)
        | inr e ↦
            search_stops path depth kind plen prefix num keys children key e
            ∙ nothing e (Option-cases (find (node kind plen prefix num keys children) depth key))
      ]
    where
      nothing :
          passes path depth kind plen prefix num keys children key ≡ false
          → (find (node kind plen prefix num keys children) depth key ≡ none)
            ⊎ ((v : V) × (find (node kind plen prefix num keys children) depth key ≡ some v))
          → none ≡ find (node kind plen prefix num keys children) depth key
      nothing e (inl f) = sym f
      nothing e (inr (v, f)) =
          let q =
            find-passes path depth kind plen prefix num keys children key longer below k v f in
          cc (e, passes_there path depth kind plen prefix num keys children key longer p q.0 q.1)
