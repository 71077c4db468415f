-- ===== src/Cache/Serve.antt =====
-- A response that is built in the cache and served until it expires.
use pgexporter.Prelude.{
  ℕ, ◌+◌, ◌/◌, ◌≤◌, ◌<◌, ◌≡◌, refl, ap, ◌∙◌, Bool, true, false, not, List, [], ◌∷◌, ◌++◌, Option,
  none, some, leb, ◌==◌, length, replicate, length-append, arith,
}
use pgexporter.Prelude.Int.{pos, sub_ℕ, ltb_ℤ, eqb_ℤ, ◌+ℤ◌}
use pgexporter.Text.{Bytes}
use pgexporter.Text.Tokens.{Free}
use pgexporter.Cache.{Cache, append, init, finalize, is_valid, strlen}
use pgexporter.Cache.Payload.{Holds, append-fits, replicate-Holds, strlen-Holds}
use mathlib.Core.Path.{subst}
use mathlib.Core.List.{append_assoc, append-nil}

-- The chunks of a response, one behind the other.
abbrev pub joined : List Bytes → Bytes
joined [] = []
joined (t ∷ ts) = t ++ joined ts

abbrev pub AllFree : List Bytes → Type 0
AllFree [] = Unit
AllFree (t ∷ ts) = Free 0 t × AllFree ts

-- The appends of all chunks; `none` if one of them fails.
abbrev pub kept : Option (Bool × Option Cache) → Option Cache
kept none = none
kept (some (true, c)) = c
kept (some (false, c)) = none

abbrev pub append_all : List Bytes → Option Cache → Option Cache
append_all [] c = c
append_all (t ∷ ts) c = append_all ts (kept (append c (some t)))

append_all-Holds :
    (ts : List Bytes) (c : Cache) (text : Bytes)
    → Holds c text
    → AllFree ts
    → length text + length (joined ts) < c.size
    → (c' : Cache) × (append_all ts (some c) ≡ some c') × Holds c' (text ++ joined ts)
append_all-Holds [] c text h f l = (c, refl, rw (append-nil text) h)
append_all-Holds (t ∷ ts) c text h f l =
    let one = append-fits c text t h f.0 (omega (arith, length-append t (joined ts))) in
    let all =
      append_all-Holds ts one.0 (text ++ t) one.2 f.1
        (omega (arith, length-append t (joined ts), length-append text t, one.3)) in
    (
      all.0,
      ap (λ r. append_all ts (kept r)) one.1 ∙ all.1,
      subst (Holds all.0) (append_assoc text t (joined ts)) all.2,
    )

-- A new cache of a positive size holds the empty text.
init-Holds :
    (struct_size size : ℕ)
    → 0 < size
    → (c : Cache) × ((init true struct_size size).1 ≡ some c) × Holds c [] × (c.size ≡ size)
unfolding init
init-Holds struct_size size h =
    let c : Cache = record { valid_until = pos 0; size = size; payload = replicate size 0 } in
    (c, refl, replicate-Holds c refl h, refl)

-- The cache after `finalize`, at a time and with an age that are not negative.
abbrev finalized : ℕ → ℕ → Cache → Cache
finalized now ms c = record {
  valid_until = pos (now + ms / 1000);
  size = c.size;
  payload = c.payload;
}

finalize_lem :
    (now ms : ℕ) (c : Cache)
    → 1000 ≤ ms
    → finalize (pos now) (pos ms) (some c) ≡ (true, some (finalized now ms c))
unfolding finalize ◌+ℤ◌
finalize_lem now ms c h = rw (plain (now + ms / 1000), later now (ms / 1000) (omega arith)) refl
  where
    plain : (n : ℕ) → sub_ℕ n 0 ≡ pos n
    plain n = ground arith

    later : (a k : ℕ) → 1 ≤ k → ltb_ℤ (pos a) (pos (a + k)) ≡ true
    later a k p = ground arith

finalized-Holds :
    (now ms : ℕ) (c : Cache) (text : Bytes) → Holds c text → Holds (finalized now ms c) text
finalized-Holds now ms c text h = record {
  no_nul = h.no_nul;
  behind = h.behind;
  block = h.block;
  sized = h.sized;
}

is_valid_lem :
    (now until : ℕ) (c : Cache) (n : ℕ)
    → c.valid_until ≡ pos until
    → strlen c.payload ≡ some n
    → 1 ≤ until
    → 1 ≤ n
    → is_valid (pos now) (some c) ≡ some (leb now until)
unfolding is_valid
is_valid_lem now until c n e s p q =
    rw (s, is_valid, e, no_zero until p, no_empty n q) (ap some (same_test now until))
  where
    no_zero : (k : ℕ) → 1 ≤ k → eqb_ℤ (pos k) (pos 0) ≡ false
    no_zero k h = ground arith

    no_empty : (k : ℕ) → 1 ≤ k → (k == 0) ≡ false
    no_empty k h = ground arith

    same_test : (a b : ℕ) → not (ltb_ℤ (pos b) (pos a)) ≡ leb a b
    same_test a b = ground arith

-- A response whose chunks together are not empty and are shorter than the cache, appended to a new
-- cache that is then finalized with an age of a second or more, is all in the cache, which is valid
-- exactly until the age in whole seconds has passed, the second in which it passes included.
pub serve_lem :
    (struct_size size : ℕ) (ts : List Bytes) (now ms later : ℕ)
    → AllFree ts
    → 1 ≤ length (joined ts)
    → length (joined ts) < size
    → 1000 ≤ ms
    → (c : Cache) × (finalize (pos now) (pos ms) (append_all ts (init true struct_size size).1)
        ≡ (true, some c))
      × Holds c (joined ts)
      × (is_valid (pos later) (some c) ≡ some (leb later (now + ms / 1000)))
serve_lem struct_size size ts now ms later f filled l age =
    let new = init-Holds struct_size size (omega arith) in
    let all = append_all-Holds ts new.0 [] new.2 f (omega (arith, new.3)) in
    let c = finalized now ms all.0 in
    let holds = finalized-Holds now ms all.0 (joined ts) all.2 in
    (
      c,
      ap (λ o. finalize (pos now) (pos ms) (append_all ts o)) new.1
          ∙ ap (finalize (pos now) (pos ms)) all.1
          ∙ finalize_lem now ms all.0 age,
      holds,
      is_valid_lem later (now + ms / 1000) c (length (joined ts)) refl
          (strlen-Holds c (joined ts) holds) (omega arith) filled,
    )
