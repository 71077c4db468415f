-- ===== src/Art/Prefixes.antt =====
-- check_prefix: how far a key goes along the prefix of a node, of which MAX_PREFIX_LEN bytes are
-- stored and the others are read from the least key.
use pgexporter.Prelude.{
  ℕ, ◌+◌, ◌-◌, ◌≤◌, ◌<◌, ◌≡◌, ◌≢◌, ◌⊎◌, inl, inr, refl, sym, ◌∙◌, true, false, some, ltb,
  Bool-cases, ltb→lt, lt→ltb, length, min, arith,
}
use mathlib.Core.Path.{subst}
use pgexporter.Text.{Bytes}
use pgexporter.Art.Arrays.{Array}
use pgexporter.Art.{max_prefix_len, byte_at, from, check_prefix_partial}
use pgexporter.Art.Insert.{check_prefix, check_further}
use pgexporter.Art.Keys.{
  IsKey, Agree, Agreement, all_agrees, differs, agree_loop-Agreement, longer, Agree-from,
}
use pgexporter.Art.Paths.{Under}

-- A key goes through the whole prefix, or leaves the path before its end.
pub data Reach (path : Array ℕ) (depth plen : ℕ) (key : Bytes) (r : ℕ) : Type 0 where
  whole :
      plen ≤ r
      → Agree (depth + plen) (byte_at key) path
      → depth + plen < length key
      → Reach path depth plen key r
  leaves :
      r < plen
      → Agree (depth + r) (byte_at key) path
      → byte_at key (depth + r) ≢ path (depth + r)
      → depth + r < length key
      → Reach path depth plen key r

module _ (path : Array ℕ) (depth plen : ℕ) (prefix : Array ℕ) (least key : Bytes)
    (stored : (j : ℕ) → j < min plen max_prefix_len → prefix j ≡ path (depth + j))
    (low : Under path (depth + plen) least) (long_one : depth + plen < length least)
    (ok : IsKey key) (start : Agree depth (byte_at key) path) where
  goes_on : (r : ℕ) → r ≤ plen → Agree (depth + r) (byte_at key) path → depth + r < length key
  goes_on r l a =
      longer key least (depth + r) ok low.key_ok (λ j m. a j m ∙ sym (low.agrees j (omega arith)))
        (omega arith)

  stored_Agree :
      (r : ℕ)
      → r ≤ min plen max_prefix_len
      → ((j : ℕ) → 0 ≤ j → j < r → from depth key j ≡ prefix j)
      → Agree (depth + r) (byte_at key) path
  stored_Agree r l e =
      Agree-from (byte_at key) path depth r start
        (λ j m. e j (omega arith) m ∙ stored j (omega arith))

  -- Where the stored bytes agree, all of them were compared.
  data StoredPart (r : ℕ) : Type 0 where
    all_stored : r ≡ min plen max_prefix_len → Agree (depth + r) (byte_at key) path → StoredPart r
    stored_differs :
        r < min plen max_prefix_len
        → Agree (depth + r) (byte_at key) path
        → byte_at key (depth + r) ≢ path (depth + r)
        → StoredPart r

  check_prefix_partial-Stored : StoredPart (check_prefix_partial plen prefix key depth)
  unfolding check_prefix_partial
  check_prefix_partial-Stored = part (
      agree_loop-Agreement (min (min plen max_prefix_len) (length key - depth)) (from depth key)
        prefix 0)
    where
      part :
          {r : ℕ}
          → Agreement
              (from depth key)
              prefix
              0
              (0 + min (min plen max_prefix_len) (length key - depth))
              r
          → StoredPart r
      part {r = r} (all_agrees f s g) =
          let a = stored_Agree r (omega (arith, f)) g in
          all_stored (omega (arith, f, goes_on r (omega (arith, f)) a)) a
      part {r = r} (differs f s m g) =
          stored_differs (omega arith) (stored_Agree r (omega arith) g)
            (λ e. f (e ∙ sym (stored r (omega arith))))

  check_further-Reach :
      max_prefix_len ≤ plen
      → Agree (depth + 10) (byte_at key) path
      → Reach path depth plen key (check_further 10 least key depth)
  check_further-Reach l a = part (
      agree_loop-Agreement (min (length least) (length key) - depth - 10) (from depth least)
        (from depth key) 10)
    where
      on_path :
          (r : ℕ)
          → r ≤ plen
          → ((j : ℕ) → 10 ≤ j → j < r → from depth least j ≡ from depth key j)
          → Agree (depth + r) (byte_at key) path
      on_path r m g =
          Agree-from (byte_at key) path depth r start (λ j n. along j n (Bool-cases (ltb j 10)))
        where
          not_less : (j : ℕ) → ltb j 10 ≡ false → 10 ≤ j
          not_less j e = ground arith

          along :
              (j : ℕ)
              → j < r
              → (ltb j 10 ≡ true) ⊎ (ltb j 10 ≡ false)
              → byte_at key (depth + j) ≡ path (depth + j)
          along j n (inl e) = a (depth + j) (omega (arith, ltb→lt j 10 e))
          along j n (inr e) = sym (g j (not_less j e) n) ∙ low.agrees (depth + j) (omega arith)

      past_end : (r : ℕ) → ltb r plen ≡ false → plen ≤ r
      past_end r e = ground arith

      through :
          (r : ℕ)
          → plen ≤ r
          → ((j : ℕ) → 10 ≤ j → j < r → from depth least j ≡ from depth key j)
          → Reach path depth plen key r
      through r m g =
          let all = on_path plen (omega arith) (λ j n o. g j n (omega arith)) in
          whole m all (goes_on plen (omega arith) all)

      part :
          {r : ℕ}
          → Agreement
              (from depth least)
              (from depth key)
              10
              (10 + (min (length least) (length key) - depth - 10))
              r
          → Reach path depth plen key r
      part {r = r} (all_agrees f s g) = elim (Bool-cases (ltb r plen)) [
        | inl e ↦
            let less = ltb→lt r plen e in
            absurd (
              omega
                (arith, f, s, goes_on r (omega (arith, less)) (on_path r (omega (arith, less)) g)))
        | inr e ↦ through r (past_end r e) g
      ]
      part {r = r} (differs f s m g) = elim (Bool-cases (ltb r plen)) [
        | inl e ↦
            let less = ltb→lt r plen e in
            let along = on_path r (omega (arith, less)) g in
            leaves less along (λ h. f (low.agrees (depth + r) (omega (arith, less)) ∙ sym h))
              (goes_on r (omega (arith, less)) along)
        | inr e ↦ through r (past_end r e) g
      ]

  short_one :
      ltb (check_prefix_partial plen prefix key depth) 10 ≡ true
      → check_prefix plen prefix (some least) key depth ≡ check_prefix_partial plen prefix key depth
  unfolding check_prefix
  short_one e = rw e refl

  further_one :
      ltb (check_prefix_partial plen prefix key depth) 10 ≡ false
      → check_prefix_partial plen prefix key depth ≡ 10
      → check_prefix plen prefix (some least) key depth ≡ check_further 10 least key depth
  unfolding check_prefix
  further_one e f = rw (e, f) refl

  -- Where the stored prefix and the least key lie on a path, check_prefix tells for a key that
  -- starts on it either that the key goes through the whole prefix and further, or the first
  -- byte at which it leaves it, also where the prefix is longer than what is stored.
  pub check_prefix-Reach :
      Reach path depth plen key (check_prefix plen prefix (some least) key depth)
  check_prefix-Reach = go check_prefix_partial-Stored
    where
      not_less : (a : ℕ) → ltb a 10 ≡ false → 10 ≤ a
      not_less a e = ground arith

      go :
          StoredPart (check_prefix_partial plen prefix key depth)
          → Reach path depth plen key (check_prefix plen prefix (some least) key depth)
      go (stored_differs l a n) =
          subst (Reach path depth plen key) (sym (short_one (lt→ltb _ 10 (omega arith))))
            (leaves (omega arith) a n (goes_on _ (omega arith) a))
      go (all_stored e a) =
          elim (Bool-cases (ltb (check_prefix_partial plen prefix key depth) 10)) [
            | inl f ↦
                let all : check_prefix_partial plen prefix key depth ≡ plen =
                  omega (arith, e, ltb→lt (check_prefix_partial plen prefix key depth) 10 f) in
                subst (Reach path depth plen key) (sym (short_one f)) (
                  whole (omega (arith, all)) (λ j m. a j (omega (arith, all)))
                    (goes_on plen (omega arith) (λ j m. a j (omega (arith, all)))))
            | inr f ↦
                let ten : check_prefix_partial plen prefix key depth ≡ 10 =
                  omega (arith, e, not_less (check_prefix_partial plen prefix key depth) f) in
                subst (Reach path depth plen key) (sym (further_one f ten)) (
                  check_further-Reach
                    (omega (arith, e, not_less (check_prefix_partial plen prefix key depth) f))
                    (λ j m. a j (omega (arith, ten))))
          ]
