-- ===== src/Cache/Payload.antt =====
-- What an append leaves in the payload.
use pgexporter.Prelude.{
  ℕ, suc, ◌+◌, ◌-◌, ◌≤◌, ◌<◌, ◌≡◌, refl, sym, ap, ◌∙◌, true, false, [], ◌∷◌, ◌++◌, some, leb,
  if◌then◌else◌, length, take, drop, replicate, length-append, length-drop, length-replicate, arith,
}
use pgexporter.Text.{Bytes}
use pgexporter.Text.Tokens.{Free, Free-append}
use pgexporter.Cache.{Cache, strlen, append, invalidate, write_at}
use mathlib.Core.List.{append_assoc}

-- The block of a cache holds `text`: the text, a NUL, and other bytes up to the size.
pub record Holds (c : Cache) (text : Bytes) : Type 0 where
  pub no_nul : Free 0 text
  pub behind : Bytes
  pub block : c.payload ≡ text ++ (0 ∷ behind)
  pub sized : length c.payload ≡ c.size

strlen_text :
    (text behind : Bytes) → Free 0 text → strlen (text ++ (0 ∷ behind)) ≡ some (length text)
unfolding strlen
strlen_text [] behind f = refl
strlen_text (x ∷ xs) behind f = rw (f.0, strlen_text xs behind f.1) refl

pub strlen-Holds : (c : Cache) (text : Bytes) → Holds c text → strlen c.payload ≡ some (length text)
strlen-Holds c text h = ap strlen h.block ∙ strlen_text text h.behind h.no_nul

take_text : (xs ys : Bytes) → take (length xs) (xs ++ ys) ≡ xs
take_text [] ys = refl
take_text (x ∷ xs) ys = ap (λ l. x ∷ l) (take_text xs ys)

append_step :
    (c : Cache) (text : Bytes) (origin : ℕ)
    → strlen c.payload ≡ some origin
    → append (some c) (some text)
      ≡ some (
          if leb c.size (origin + length text) then (false, some (invalidate c)) else (
            true,
            some (record {
              valid_until = c.valid_until;
              size = c.size;
              payload = write_at origin text c.payload;
            }),
          ))
unfolding append
append_step c text origin e = rw (e, append) refl

-- A cleared block with room holds the empty text.
pub replicate-Holds : (c : Cache) → c.payload ≡ replicate c.size 0 → 0 < c.size → Holds c []
replicate-Holds c e h =
    let k = c.size - 1 in
    let one_more : c.size ≡ suc k = omega arith in
    record {
      no_nul = tt;
      behind = replicate k 0;
      block = e ∙ ap (λ n. replicate n 0) one_more;
      sized = ap length e ∙ length-replicate c.size 0;
    }

invalidate-payload : (c : Cache) → (invalidate c).payload ≡ replicate (invalidate c).size 0
unfolding invalidate
invalidate-payload c = refl

invalidate-size : (c : Cache) → (invalidate c).size ≡ c.size
unfolding invalidate
invalidate-size c = refl

leb_no : (a b : ℕ) → a < b → leb b a ≡ false
leb_no a b h = ground arith

leb_yes : (a b : ℕ) → b ≤ a → leb b a ≡ true
leb_yes a b h = ground arith

length_after :
    (text more block : Bytes)
    → length text + length more < length block
    → length (text ++ (more ++ (0 ∷ drop (suc (length text + length more)) block))) ≡ length block
length_after text more block h = omega (
  arith,
  length-append text (more ++ (0 ∷ drop (suc (length text + length more)) block)),
  length-append more (0 ∷ drop (suc (length text + length more)) block),
  length-drop (suc (length text + length more)) block,
)

-- Text that fits is appended to the text in the cache; size and expiry stay.
pub append-fits :
    (c : Cache) (text more : Bytes)
    → Holds c text
    → Free 0 more
    → length text + length more < c.size
    → (c' : Cache) × (append (some c) (some more) ≡ some (true, some c'))
      × Holds c' (text ++ more)
      × (c'.size ≡ c.size)
      × (c'.valid_until ≡ c.valid_until)
append-fits c text more h f l =
    let rest = drop (suc (length text + length more)) c.payload in
    let start : take (length text) c.payload ≡ text =
      ap (take (length text)) h.block ∙ take_text text (0 ∷ h.behind) in
    let block : write_at (length text) more c.payload ≡ text ++ (more ++ (0 ∷ rest)) =
      ap (λ t. t ++ (more ++ (0 ∷ rest))) start in
    let c' : Cache = record {
      valid_until = c.valid_until;
      size = c.size;
      payload = write_at (length text) more c.payload;
    } in
    (
      c',
      append_step c more (length text) (strlen-Holds c text h)
          ∙ rw (leb_no (length text + length more) c.size l) refl,
      record {
        no_nul = Free-append 0 text more h.no_nul f;
        behind = rest;
        block = block ∙ sym (append_assoc text more (0 ∷ rest));
        sized =
            ap length block ∙ length_after text more c.payload (omega (arith, h.sized)) ∙ h.sized;
      },
      refl,
      refl,
    )

-- Text that does not fit with a NUL behind it empties the cache, and the append returns false.
pub append-overflow :
    (c : Cache) (text more : Bytes)
    → Holds c text
    → c.size ≤ length text + length more
    → (append (some c) (some more) ≡ some (false, some (invalidate c))) × Holds (invalidate c) []
append-overflow c text more h l = (
  append_step c more (length text) (strlen-Holds c text h)
      ∙ rw (leb_yes (length text + length more) c.size l) refl,
  replicate-Holds (invalidate c) (invalidate-payload c)
      (positive c text h (invalidate c).size (invalidate-size c)),
)
  where
    positive : (c : Cache) (text : Bytes) → Holds c text → (n : ℕ) → n ≡ c.size → 0 < n
    positive c text h n e =
        omega (arith, h.sized, ap length h.block, length-append text (0 ∷ h.behind))
