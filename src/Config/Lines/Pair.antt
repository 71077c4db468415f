-- ===== src/Config/Lines/Pair.antt =====
-- A line with a key and a value is read as that key and that value.
use pgexporter.Prelude.{
  ℕ, ◌<◌, ◌≡◌, refl, sym, ap, ◌∙◌, Bool, true, false, [], ◌∷◌, ◌++◌, some, lt→ltb, ◌==◌,
  if◌then◌else◌, length, arith,
}
use pgexporter.Text.{Bytes, before}
use pgexporter.Text.Tokens.{Free, Free-append}
use pgexporter.Config.{misc_length}
use pgexporter.Config.Lines.{
  pair, around_key, before_value, behind_value, split_equal, skip_start, strip_end, occurs,
  up_to_newline, buffered, extract_key_value,
}
use mathlib.Core.List.{reverse, reverse-append, reverse-reverse, append-nil}
use mathlib.Core.Path.{subst}

-- All characters pass a test.
abbrev pub Only : (ℕ → Bool) → Bytes → Type 0
Only test [] = Unit
Only test (c ∷ cs) = (test c ≡ true) × Only test cs

-- The text is not empty and does not start with a character that passes the test.
abbrev pub Begins : (ℕ → Bool) → Bytes → Type 0
Begins test [] = ⊥
Begins test (c ∷ cs) = test c ≡ false

skip-Only :
    (test : ℕ → Bool) (pad text : Bytes)
    → Only test pad
    → Begins test text
    → skip_start test (pad ++ text) ≡ text
unfolding skip_start
skip-Only test [] [] o b = absurd b
skip-Only test [] (c ∷ cs) o b = rw b refl
skip-Only test (p ∷ pad) text o b = rw o.0 (skip-Only test pad text o.1 b)

Only-append : (test : ℕ → Bool) (xs ys : Bytes) → Only test xs → Only test ys → Only test (xs ++ ys)
Only-append test [] ys o q = q
Only-append test (x ∷ xs) ys o q = (o.0, Only-append test xs ys o.1 q)

Only-reverse : (test : ℕ → Bool) (xs : Bytes) → Only test xs → Only test (reverse xs)
Only-reverse test [] o = tt
Only-reverse test (x ∷ xs) o =
    subst (Only test) (sym (reverse-append (x ∷ []) xs))
      (Only-append test (reverse xs) (x ∷ []) (Only-reverse test xs o.1) (o.0, tt))

strip_end-Only :
    (test : ℕ → Bool) (text pad : Bytes)
    → Only test pad
    → Begins test (reverse text)
    → strip_end test (text ++ pad) ≡ text
unfolding strip_end
strip_end-Only test text pad o b =
    ap (λ s. reverse (skip_start test s)) (reverse-append text pad)
    ∙ ap reverse (skip-Only test (reverse pad) (reverse text) (Only-reverse test pad o) b)
    ∙ reverse-reverse text

-- A newline or a comment, or nothing.
pub data Tail : Bytes → Type 0 where
  ended : Tail []
  newline : (t : Bytes) → Tail (10 ∷ t)
  comment : (t : Bytes) → Tail (b'#' ∷ t)

before-append : (d : ℕ) (xs ys : Bytes) → Free d xs → before d (xs ++ ys) ≡ xs ++ before d ys
unfolding before
before-append d [] ys f = refl
before-append d (x ∷ xs) ys f = rw (f.0, before-append d xs ys f.1) refl

-- No comment character is left before the newline but at the start.
Tail-cut : (tail : Bytes) → Tail tail → before b'#' (before 10 tail) ≡ []
unfolding before
Tail-cut tail ended = refl
Tail-cut tail (newline t) = refl
Tail-cut tail (comment t) = refl

split_equal-append :
    (left from : Bytes)
    → Free b'=' left
    → split_equal (left ++ (b'=' ∷ from)) ≡ some (left, b'=' ∷ from)
unfolding split_equal
split_equal-append [] from f = refl
split_equal-append (x ∷ xs) from f = rw (f.0, split_equal-append xs from f.1) refl

occurs-Free : (d : ℕ) (xs : Bytes) → Free d xs → occurs d xs ≡ false
unfolding occurs
occurs-Free d [] f = refl
occurs-Free d (x ∷ xs) f = rw f.0 (occurs-Free d xs f.1)

Only-Free :
    (d : ℕ) (test : ℕ → Bool) (xs : Bytes)
    → ((c : ℕ) → test c ≡ true → (c == d) ≡ false)
    → Only test xs
    → Free d xs
Only-Free d test [] k o = tt
Only-Free d test (x ∷ xs) k o = (k x o.0, Only-Free d test xs k o.1)

extract_step :
    (s left from : Bytes)
    → split_equal s ≡ some (left, from)
    → extract_key_value s
      ≡ buffered
          (skip_start around_key left)
          (before b'#' (skip_start before_value (up_to_newline left from)))
unfolding extract_key_value
extract_step s left from e = rw (e, extract_key_value) refl

around_key-ne : (c : ℕ) → around_key c ≡ true → ((c == b'=') ≡ false) × ((c == 10) ≡ false)
around_key-ne c h = ground arith

before_value-ne : (c : ℕ) → before_value c ≡ true → (c == 10) ≡ false
before_value-ne c h = ground arith

behind_value-ne : (c : ℕ) → behind_value c ≡ true → ((c == 10) ≡ false) × ((c == b'#') ≡ false)
behind_value-ne c h = ground arith

-- A key or a value as it is written bare: its ends are not skipped.
abbrev pub Bare : (ℕ → Bool) → (ℕ → Bool) → Bytes → Type 0
Bare skipped stripped text = Begins skipped text × Begins stripped (reverse text)

Begins-append : (test : ℕ → Bool) (xs ys : Bytes) → Begins test xs → Begins test (xs ++ ys)
Begins-append test [] ys b = absurd b
Begins-append test (x ∷ xs) ys b = b

-- A value with blanks behind it, after its pad, cut at the newline and at the comment.
value_kept :
    (pad value behind tail : Bytes)
    → Only before_value pad
    → Begins before_value value
    → Free 10 value
    → Free b'#' value
    → Only behind_value behind
    → Tail tail
    → before b'#'
        (skip_start before_value (before 10 (b'=' ∷ (pad ++ ((value ++ behind) ++ tail)))))
      ≡ value ++ behind
value_kept pad value behind tail o b f g w t =
    let kept = value ++ behind in
    let no_newline =
      Free-append 10 value behind f
        (Only-Free 10 behind_value behind (λ c e. (behind_value-ne c e).0) w) in
    let no_comment =
      Free-append b'#' value behind g
        (Only-Free b'#' behind_value behind (λ c e. (behind_value-ne c e).1) w) in
    let pad_line : Free 10 (b'=' ∷ pad) = (refl, Only-Free 10 before_value pad before_value-ne o) in
    let first : before 10 ((b'=' ∷ pad) ++ (kept ++ tail))
        ≡ (b'=' ∷ pad) ++ (kept ++ before 10 tail) =
      before-append 10 (b'=' ∷ pad) (kept ++ tail) pad_line
      ∙ ap (λ r. (b'=' ∷ pad) ++ r) (before-append 10 kept tail no_newline) in
    ap (λ r. before b'#' (skip_start before_value r)) first
    ∙ ap (before b'#') (
        skip-Only before_value (b'=' ∷ pad) (kept ++ before 10 tail) (refl, o)
          (Begins-append before_value kept (before 10 tail)
            (Begins-append before_value value behind b)))
    ∙ before-append b'#' kept (before 10 tail) no_comment
    ∙ ap (λ r. kept ++ r) (Tail-cut tail t)
    ∙ append-nil kept

fits :
    (left right : Bytes)
    → length left < misc_length
    → length right < misc_length
    → buffered left right ≡ pair (strip_end around_key left) (strip_end behind_value right)
fits left right l r =
    rw (lt→ltb (length left) misc_length l, lt→ltb (length right) misc_length r) refl

-- A line with a bare key, =, and a bare value, each with blanks and quotes around it, and a comment
-- behind the value, a newline or nothing behind it, gives the key and the value, if they are shorter
-- than the buffers with what stands behind them.
pub extract_key_value-pair :
    (pad1 key pad2 pad3 value pad4 tail : Bytes)
    → Only around_key pad1
    → Bare around_key around_key key
    → Free b'=' key
    → Free 10 key
    → Only around_key pad2
    → Only before_value pad3
    → Bare before_value behind_value value
    → Free 10 value
    → Free b'#' value
    → Only behind_value pad4
    → Tail tail
    → length (key ++ pad2) < misc_length
    → length (value ++ pad4) < misc_length
    → extract_key_value ((pad1 ++ (key ++ pad2)) ++ (b'=' ∷ (pad3 ++ ((value ++ pad4) ++ tail))))
      ≡ pair key value
extract_key_value-pair pad1 key pad2 pad3 value pad4 tail o1 bk fe fn o2 o3 bv gn gc o4 t lk lv =
    let left = pad1 ++ (key ++ pad2) in
    let from = pad3 ++ ((value ++ pad4) ++ tail) in
    let no_equal =
      Free-append b'=' pad1 (key ++ pad2)
        (Only-Free b'=' around_key pad1 (λ c e. (around_key-ne c e).0) o1)
        (Free-append b'=' key pad2 fe
          (Only-Free b'=' around_key pad2 (λ c e. (around_key-ne c e).0) o2)) in
    let no_newline =
      Free-append 10 pad1 (key ++ pad2)
        (Only-Free 10 around_key pad1 (λ c e. (around_key-ne c e).1) o1)
        (Free-append 10 key pad2 fn
          (Only-Free 10 around_key pad2 (λ c e. (around_key-ne c e).1) o2)) in
    let whole : up_to_newline left (b'=' ∷ from) ≡ before 10 (b'=' ∷ from) =
      ap (λ o. if o then b'=' ∷ from else before 10 (b'=' ∷ from))
        (occurs-Free 10 left no_newline) in
    extract_step (left ++ (b'=' ∷ from)) left (b'=' ∷ from) (split_equal-append left from no_equal)
    ∙ ap
        (λ l. buffered l (before b'#' (skip_start before_value (up_to_newline left (b'=' ∷ from)))))
        (skip-Only around_key pad1 (key ++ pad2) o1 (Begins-append around_key key pad2 bk.0))
    ∙ ap (buffered (key ++ pad2)) (
        ap (λ r. before b'#' (skip_start before_value r)) whole
        ∙ value_kept pad3 value pad4 tail o3 bv.0 gn gc o4 t)
    ∙ fits (key ++ pad2) (value ++ pad4) lk lv
    ∙ ap (λ k. pair k (strip_end behind_value (value ++ pad4)))
        (strip_end-Only around_key key pad2 o2 bk.1)
    ∙ ap (pair key) (strip_end-Only behind_value value pad4 o4 bv.1)
