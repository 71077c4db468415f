-- ===== src/Art/Map.antt =====
-- pgexporter_art_create, pgexporter_art_insert and pgexporter_art_search as a map: what they promise
-- is an association list without a key twice, in which a value is replaced or appended.
use pgexporter.Prelude.{
  ℕ, suc, ◌+◌, ◌≡◌, inl, inr, refl, sym, ap, ◌∙◌, Bool, true, false, Option, none, some, List, [],
  ◌∷◌, if◌then◌else◌, Bool-cases, length, arith,
}
use pgexporter.Text.{Bytes, same}
use pgexporter.Art.Arrays.{fill}
use pgexporter.Art.{art_search}
use pgexporter.Art.Insert.{node_insert, Art, art_create, art_insert}
use pgexporter.Art.Keys.{IsKey, same_sound, same_self}
use pgexporter.Art.Paths.{Under, Holds, empty, find}
use pgexporter.Art.Search.{search_from-find}
use pgexporter.Art.Updated.{is_none, Updated}
use pgexporter.Art.Refines.{node_insert-Updated}

from_start : (key : Bytes) → IsKey key → Under (fill 0) 0 key
from_start key k = record {
  key_ok = k;
  agrees = λ j l. absurd (omega arith);
  reaches = omega arith;
}

module _ {ℓ} {V : Type ℓ} where
  -- A well-formed tree: its keys are strings, below a node they share its prefix, and each byte has
  -- one child at most.
  abbrev pub IsArt : Art V → Type ℓ
  IsArt t = Holds (fill 0) 0 t.root

  updated :
      (t : Art V) (key : Bytes) (v : V)
      → IsArt t
      → IsKey key
      → Updated
          (fill 0)
          0
          t.root
          key
          v
          (node_insert t.root 0 key v).0
          (node_insert t.root 0 key v).1
  updated t key v h k = node_insert-Updated key v h (from_start key k)

  pub search_find :
      (t : Art V) (k : Bytes) → IsArt t → IsKey k → art_search t.root k ≡ find t.root 0 k
  unfolding art_search
  search_find t k h ok = search_from-find k ok h

  -- Insertion keeps a radix tree well-formed: keys are strings, the keys below a node agree on
  -- its prefix and branch at the byte behind it, and the arrays of each node are in order.
  pub art_insert-IsArt :
      (t : Art V) (key : Bytes) (v : V) → IsArt t → IsKey key → IsArt (art_insert t key v)
  unfolding art_insert
  art_insert-IsArt t key v h k = (updated t key v h k).holds

  -- After an insertion into a well-formed radix tree, a search gives the new value for the key
  -- and what it gave before for every other key.
  pub art_search-art_insert :
      (t : Art V) (key : Bytes) (v : V) (k : Bytes)
      → IsArt t
      → IsKey key
      → IsKey k
      → art_search (art_insert t key v).root k
        ≡ (if same key k then some v else art_search t.root k)
  unfolding art_insert
  art_search-art_insert t key v k h ok ok' =
      search_find (art_insert t key v) k (art_insert-IsArt t key v h ok) ok'
      ∙ (updated t key v h ok).found k ok'
      ∙ ap (λ o. if same key k then some v else o) (sym (search_find t k h ok'))

  -- An insertion into a well-formed radix tree counts one more exactly if a search did not find
  -- the key.
  pub art_insert-size :
      (t : Art V) (key : Bytes) (v : V)
      → IsArt t
      → IsKey key
      → (art_insert t key v).size ≡ (if is_none (art_search t.root key) then t.size + 1 else t.size)
  unfolding art_insert
  art_insert-size t key v h k =
      ap (λ b. if b then t.size + 1 else t.size)
        ((updated t key v h k).fresh ∙ sym (ap is_none (search_find t key h k)))

  -- The specification.
  abbrev pub lookup : List (Bytes × V) → Bytes → Option V
  lookup [] k = none
  lookup ((key, v) ∷ m) k = if same key k then some v else lookup m k

  abbrev pub put : Bytes → V → List (Bytes × V) → List (Bytes × V)
  put key v [] = (key, v) ∷ []
  put key v ((key', w) ∷ m) = if same key' key then (key', v) ∷ m else (key', w) ∷ put key v m

  lookup-put :
      (key : Bytes) (v : V) (m : List (Bytes × V)) (k : Bytes)
      → lookup (put key v m) k ≡ (if same key k then some v else lookup m k)
  lookup-put key v [] k = refl
  lookup-put key v ((key', w) ∷ m) k = elim (Bool-cases (same key' key)) [
    | inl e ↦ rw (e, same_sound key' key e) (twice (same key k))
    | inr e ↦ elim (Bool-cases (same key' k)) [
      | inl f ↦ rw (e, f, other (same_sound key' k f) e) refl
      | inr f ↦ rw (e, f) (lookup-put key v m k)
    ]
  ]
    where
      twice :
          (b : Bool)
          → (if b then some v else lookup m k)
            ≡ (if b then some v else (if b then some w else lookup m k))
      twice true = refl
      twice false = refl

      other : key' ≡ k → same key' key ≡ false → same key k ≡ false
      other p e = elim (Bool-cases (same key k)) [
        | inl f ↦ cc (e, same_self key, ap (λ a. same a key) (p ∙ sym (same_sound key k f)))
        | inr f ↦ f
      ]

  length-put :
      (key : Bytes) (v : V) (m : List (Bytes × V))
      → length (put key v m) ≡ (if is_none (lookup m key) then length m + 1 else length m)
  length-put key v [] = refl
  length-put key v ((key', w) ∷ m) = elim (Bool-cases (same key' key)) [
    | inl e ↦ rw e refl
    | inr e ↦
        rw e
          (one_more (is_none (lookup m key)) (length (put key v m)) (length m) (length-put key v m))
  ]
    where
      one_more :
          (b : Bool) (n k : ℕ)
          → n ≡ (if b then k + 1 else k)
          → suc n ≡ (if b then suc k + 1 else suc k)
      one_more true n k e = omega (arith, e)
      one_more false n k e = omega (arith, e)

  pub record Refines (t : Art V) (m : List (Bytes × V)) : Type ℓ where
    pub well_formed : IsArt t
    pub same_values : (k : Bytes) → IsKey k → art_search t.root k ≡ lookup m k
    pub same_size : t.size ≡ length m

  pub art_insert-Refines :
      (t : Art V) (m : List (Bytes × V)) (key : Bytes) (v : V)
      → Refines t m
      → IsKey key
      → Refines (art_insert t key v) (put key v m)
  art_insert-Refines t m key v r k = record {
    well_formed = art_insert-IsArt t key v r.well_formed k;
    same_values = λ k' ok.
        art_search-art_insert t key v k' r.well_formed k ok
        ∙ ap (λ o. if same key k' then some v else o) (r.same_values k' ok)
        ∙ sym (lookup-put key v m k');
    same_size =
        art_insert-size t key v r.well_formed k
        ∙ sizes (art_search t.root key) (lookup m key) t.size (length m) (r.same_values key k)
            r.same_size
        ∙ sym (length-put key v m);
  }
    where
      sizes :
          (o o' : Option V) (a b : ℕ)
          → o ≡ o'
          → a ≡ b
          → (if is_none o then a + 1 else a) ≡ (if is_none o' then b + 1 else b)
      sizes o o' a b e f = rw (e, f) refl

  abbrev pub insert_all : List (Bytes × V) → Art V → Art V
  insert_all [] t = t
  insert_all ((key, v) ∷ entries) t = insert_all entries (art_insert t key v)

  abbrev pub put_all : List (Bytes × V) → List (Bytes × V) → List (Bytes × V)
  put_all [] m = m
  put_all ((key, v) ∷ entries) m = put_all entries (put key v m)

  abbrev pub AllKeys : List (Bytes × V) → Type 0
  AllKeys [] = Unit
  AllKeys ((key, v) ∷ entries) = IsKey key × AllKeys entries

  insert_all-Refines_from :
      (entries : List (Bytes × V)) (t : Art V) (m : List (Bytes × V))
      → AllKeys entries
      → Refines t m
      → Refines (insert_all entries t) (put_all entries m)
  insert_all-Refines_from [] t m k r = r
  insert_all-Refines_from ((key, v) ∷ entries) t m k r =
      insert_all-Refines_from entries (art_insert t key v) (put key v m) k.1
        (art_insert-Refines t m key v r k.0)

  create-Refines : Refines art_create []
  unfolding art_create art_search
  create-Refines = record { well_formed = empty; same_values = λ k ok. refl; same_size = refl }

  -- After any list of strings with values is inserted into the radix tree that was created
  -- empty, the tree is well-formed, a search gives for every string what the association list
  -- gives in which values are replaced or appended, and the size is the length of that list.
  pub insert_all-Refines :
      (entries : List (Bytes × V))
      → AllKeys entries
      → Refines (insert_all entries art_create) (put_all entries [])
  insert_all-Refines entries k = insert_all-Refines_from entries art_create [] k create-Refines
