-- ===== src/Version/Enabled.antt =====
-- src/libpgexporter/extension.c: whether an extension is in the configured list.
use pgexporter.Prelude.{
  ℕ, ◌≡◌, refl, Bool, true, false, ◌||◌, ◌&&◌, List, [], ◌∷◌, ◌++◌, ◌==◌, if◌then◌else◌, arith,
}
use pgexporter.Text.{Bytes, tokens, same}
use pgexporter.Text.Tokens.{Free, Free-append, tokens_word, tokens_last}

abbrev is_blank : ℕ → Bool
is_blank c = c == 32 || c == 9

-- `while (*token == ' ' || *token == '\t') token++`
trim_left : Bytes → Bytes
trim_left [] = []
trim_left (c ∷ cs) = if is_blank c then trim_left cs else c ∷ cs

abbrev is_nil : Bytes → Bool
is_nil [] = true
is_nil (c ∷ cs) = false

-- without the blanks at the end
unfoldable pub trim_end : Bytes → Bytes
trim_end [] = []
trim_end (c ∷ cs) = let rest = trim_end cs in if is_nil rest && is_blank c then [] else c ∷ rest

-- The scan back from the end stops at the first byte, whatever that is.
trim_right : Bytes → Bytes
unfolding trim_end
trim_right [] = []
trim_right (c ∷ cs) = c ∷ trim_end cs

any_token : Bytes → List Bytes → Bool
unfolding trim_left trim_right same
any_token name [] = false
any_token name (t ∷ ts) = same (trim_right (trim_left t)) name || any_token name ts

-- `extension_in_list`
pub extension_in_list : Bytes → Bytes → Bool
unfolding any_token tokens
extension_in_list name list = if is_nil list then false else any_token name (tokens b',' list)

-- `pgexporter_extension_is_enabled`: the server's own list, else the global one, else all.
pub extension_is_enabled : Bytes → Bytes → Bytes → Bool
unfolding extension_in_list
extension_is_enabled server_config global name =
    if is_nil server_config
    then (if is_nil global then true else extension_in_list name global)
    else extension_in_list name server_config

-- An entry of a list: a name and the blanks around it.
pub record Entry : Type 0 where
  pub left : Bytes
  pub first : ℕ
  pub others : Bytes
  pub right : Bytes

abbrev pub name_of : Entry → Bytes
name_of e = e.first ∷ e.others

abbrev pub text_of : Entry → Bytes
text_of e = e.left ++ (e.first ∷ (e.others ++ e.right))

abbrev Blank : Bytes → Type 0
Blank [] = Unit
Blank (c ∷ cs) = (is_blank c ≡ true) × Blank cs

-- The name has no comma, and no blank at its ends.
pub record IsEntry (e : Entry) : Type 0 where
  pub left_blank : Blank e.left
  pub right_blank : Blank e.right
  pub first_black : is_blank e.first ≡ false
  pub end_black : trim_end e.others ≡ e.others
  pub no_comma : Free b',' (name_of e)

abbrev pub AllEntries : List Entry → Type 0
AllEntries [] = Unit
AllEntries (e ∷ es) = IsEntry e × AllEntries es

-- the entries as one comma-separated text
abbrev pub join : Entry → List Entry → Bytes
join e [] = text_of e
join e (f ∷ es) = text_of e ++ (b',' ∷ join f es)

abbrev pub member : Bytes → List Entry → Bool
member name [] = false
member name (e ∷ es) = same (name_of e) name || member name es

trim_end-append : (xs pad : Bytes) → Blank pad → trim_end (xs ++ pad) ≡ trim_end xs
unfolding trim_end
trim_end-append [] [] b = refl
trim_end-append [] (c ∷ cs) b = ground (arith, trim_end-append [] cs b.1)
trim_end-append (x ∷ xs) pad b = rw (trim_end-append xs pad b) refl

trim_left-append :
    (pad : Bytes) (c : ℕ) (rest : Bytes)
    → Blank pad
    → is_blank c ≡ false
    → trim_left (pad ++ (c ∷ rest)) ≡ c ∷ rest
unfolding trim_left
trim_left-append [] c rest b n = rw n refl
trim_left-append (x ∷ xs) c rest b n = rw b.0 (trim_left-append xs c rest b.1 n)

trim-text_of : (e : Entry) → IsEntry e → trim_right (trim_left (text_of e)) ≡ name_of e
unfolding trim_right
trim-text_of e h =
    rw
      (
        trim_left-append e.left e.first (e.others ++ e.right) h.left_blank h.first_black,
        trim_end-append e.others e.right h.right_blank,
        h.end_black,
      )
      refl

Blank-Free : (pad : Bytes) → Blank pad → Free b',' pad
Blank-Free [] b = tt
Blank-Free (c ∷ cs) b = (blank-ne-comma c b.0, Blank-Free cs b.1)
  where
    blank-ne-comma : (c : ℕ) → is_blank c ≡ true → (c == b',') ≡ false
    blank-ne-comma c h = ground arith

text_of-Free : (e : Entry) → IsEntry e → Free b',' (text_of e)
text_of-Free e h =
    Free-append b',' e.left (e.first ∷ (e.others ++ e.right)) (Blank-Free e.left h.left_blank) (
      h.no_comma.0,
      Free-append b',' e.others e.right h.no_comma.1 (Blank-Free e.right h.right_blank),
    )

text_of-cons : (e : Entry) → (c : ℕ) × (cs : Bytes) × (text_of e ≡ c ∷ cs)
text_of-cons e = go e.left
  where
    go : (l : Bytes) → (c : ℕ) × (cs : Bytes) × (l ++ (e.first ∷ (e.others ++ e.right)) ≡ c ∷ cs)
    go [] = (e.first, e.others ++ e.right, refl)
    go (c ∷ cs) = (c, cs ++ (e.first ∷ (e.others ++ e.right)), refl)

entry_then :
    (e : Entry) (rest : Bytes)
    → IsEntry e
    → tokens b',' (text_of e ++ (b',' ∷ rest)) ≡ text_of e ∷ tokens b',' rest
entry_then e rest h =
    let start = text_of-cons e in
    let free = text_of-Free e h in
    rw start.2 (tokens_word b',' start.0 start.1 rest (rw start.2 at free))

entry_last : (e : Entry) → IsEntry e → tokens b',' (text_of e) ≡ text_of e ∷ []
entry_last e h =
    let start = text_of-cons e in
    let free = text_of-Free e h in
    rw start.2 (tokens_last b',' start.0 start.1 (rw start.2 at free))

any_token-join :
    (name : Bytes) (e : Entry) (es : List Entry)
    → AllEntries (e ∷ es)
    → any_token name (tokens b',' (join e es)) ≡ member name (e ∷ es)
unfolding any_token
any_token-join name e [] h = rw (entry_last e h.0, any_token) (rw (trim-text_of e h.0) refl)
any_token-join name e (f ∷ es) h =
    rw (entry_then e (join f es) h.0, any_token)
      (rw (trim-text_of e h.0, any_token-join name f es h.1) refl)

join-nonempty : (e : Entry) (es : List Entry) → is_nil (join e es) ≡ false
join-nonempty e [] = rw (text_of-cons e).2 refl
join-nonempty e (f ∷ es) = rw (text_of-cons e).2 refl

-- The search of a list text is membership among the names of its entries.
pub in_list-join :
    (name : Bytes) (e : Entry) (es : List Entry)
    → AllEntries (e ∷ es)
    → extension_in_list name (join e es) ≡ member name (e ∷ es)
unfolding extension_in_list
in_list-join name e es h = rw (join-nonempty e es) (any_token-join name e es h)

-- For a list text of names without commas, with blanks around them, an extension is enabled exactly
-- if the server's list names it; where the text of the server's list is empty, if the global list
-- names it; where both are empty, always.
pub enabled_lem :
    (name other : Bytes) (e : Entry) (es : List Entry)
    → AllEntries (e ∷ es)
    → (extension_is_enabled (join e es) other name ≡ member name (e ∷ es))
      × (extension_is_enabled [] (join e es) name ≡ member name (e ∷ es))
      × (extension_is_enabled [] [] name ≡ true)
unfolding extension_is_enabled
enabled_lem name other e es h =
    let listed = any_token-join name e es h in
    (rw (join-nonempty e es) listed, rw (join-nonempty e es) listed, refl)
