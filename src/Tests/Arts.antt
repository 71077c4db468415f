-- ===== src/Tests/Arts.antt =====
-- src/libpgexporter/art.c with concrete keys.
use pgexporter.Prelude.{ℕ, ◌+◌, ◌≡◌, refl, ap, ◌∷◌, [], List, none, some, arith, if◌then◌else◌}
use pgexporter.Text.{Bytes, codes, same}
use pgexporter.Art.Arrays.{fill}
use pgexporter.Art.{ArtNode, leaf, node4, byte_at, art_search, get_minimum, get_child}
use pgexporter.Art.Insert.{Art, art_create, art_insert, node_insert, add_child, check_prefix}
use pgexporter.Art.Children.{IsSorted, fine4, IsNode, with_child}
use pgexporter.Art.Slots.{child_at}
use pgexporter.Art.AddChild.{add_child_lem}
use pgexporter.Art.Keys.{IsKey}
use pgexporter.Art.Paths.{Under, empty}
use pgexporter.Art.Prefixes.{Reach, check_prefix-Reach}
use pgexporter.Art.Lowest.{NotAfter, get_minimum_lem}
use pgexporter.Art.Updated.{is_none}
use pgexporter.Art.Strings.{c_string, c_string-IsKey}
use pgexporter.Art.Map.{
  IsArt, art_insert-IsArt, art_search-art_insert, art_insert-size, Refines, insert_all, put_all,
  insert_all-Refines,
}

abbrev filled : List Bytes → ℕ → Art ℕ → Art ℕ
filled [] n t = t
filled (k ∷ ks) n t = filled ks (n + 1) (art_insert t (c_string k) n)

abbrev words : List Bytes
words =
    codes "configuration_file_a"
    ∷ codes "configuration_file_b"
    ∷ codes "configuration_dir"
    ∷ codes "conf"
    ∷ codes "a"
    ∷ codes "b"
    ∷ codes "d"
    ∷ codes "e"
    ∷ codes "f"
    ∷ []

found_dir :
    art_search (filled words 0 art_create).root (c_string (codes "configuration_dir")) ≡ some 2
unfolding art_search art_insert node_insert art_create
found_dir = refl

found_b :
    art_search (filled words 0 art_create).root (c_string (codes "configuration_file_b")) ≡ some 1
unfolding art_search art_insert node_insert art_create
found_b = refl

found_f : art_search (filled words 0 art_create).root (c_string (codes "f")) ≡ some 8
unfolding art_search art_insert node_insert art_create
found_f = refl

not_found : art_search (filled words 0 art_create).root (c_string (codes "configuration")) ≡ none
unfolding art_search art_insert node_insert art_create
not_found = refl

abbrev file_a : Bytes
file_a = c_string (codes "configuration_file_a")

abbrev file_b : Bytes
file_b = c_string (codes "configuration_file_b")

file_a-IsKey : IsKey file_a
file_a-IsKey = c_string-IsKey (codes "configuration_file_a") refl

file_b-IsKey : IsKey file_b
file_b-IsKey = c_string-IsKey (codes "configuration_file_b") refl

abbrev entries : List (Bytes × ℕ)
entries = (file_a, 1) ∷ (file_b, 2) ∷ (file_a, 3) ∷ []

insert_all-Refines_example : Refines (insert_all entries art_create) (put_all entries [])
insert_all-Refines_example =
    insert_all-Refines entries (file_a-IsKey, (file_b-IsKey, (file_a-IsKey, tt)))

one_file : Art ℕ
one_file = art_insert art_create file_a 1

empty-IsArt : IsArt {V = ℕ} art_create
unfolding art_create
empty-IsArt = empty

one_file-IsArt : IsArt one_file
unfolding one_file
one_file-IsArt = art_insert-IsArt art_create file_a 1 empty-IsArt file_a-IsKey

art_insert-IsArt_example : IsArt (art_insert one_file file_b 2)
art_insert-IsArt_example = art_insert-IsArt one_file file_b 2 one_file-IsArt file_b-IsKey

art_search-art_insert_example :
    art_search (art_insert one_file file_b 2).root file_a
    ≡ (if same file_b file_a then some 2 else art_search one_file.root file_a)
art_search-art_insert_example =
    art_search-art_insert one_file file_b 2 file_a one_file-IsArt file_b-IsKey file_a-IsKey

art_insert-size_example :
    (art_insert one_file file_b 2).size
    ≡ (if is_none (art_search one_file.root file_b) then one_file.size + 1 else one_file.size)
art_insert-size_example = art_insert-size one_file file_b 2 one_file-IsArt file_b-IsKey

abbrev dir : Bytes
dir = c_string (codes "configuration_dir")

abbrev three_files : Art ℕ
three_files = art_insert (art_insert one_file file_b 2) dir 3

three_files-IsArt : IsArt three_files
three_files-IsArt =
    art_insert-IsArt (art_insert one_file file_b 2) dir 3
      (art_insert-IsArt one_file file_b 2 one_file-IsArt file_b-IsKey)
      (c_string-IsKey (codes "configuration_dir") refl)

three_files_found : art_search three_files.root file_a ≡ some 1
unfolding one_file art_search art_insert node_insert art_create
three_files_found = refl

-- The last key put in is the first in byte order.
three_files_least : get_minimum three_files.root ≡ some dir
unfolding one_file get_minimum art_insert node_insert art_create
three_files_least = refl

get_minimum_lem_example :
    (least : Bytes) × (get_minimum three_files.root ≡ some least)
    × IsKey least
    × ((w : ℕ) × (art_search three_files.root least ≡ some w))
    × NotAfter least file_a
get_minimum_lem_example =
    get_minimum_lem three_files file_a 1 three_files-IsArt file_a-IsKey three_files_found

-- A key that leaves a prefix of 19 bytes, of which 10 are stored, at the last of them.
file_a-Under : Under (byte_at file_a) 19 file_a
file_a-Under = record { key_ok = file_a-IsKey; agrees = λ j l. refl; reaches = omega arith }

start_at : (j : ℕ) → j ≡ 0 + j
start_at j = omega arith

check_prefix-Reach_example :
    Reach
      (byte_at file_a)
      0
      19
      (c_string (codes "configuration_dir"))
      (check_prefix 19 (byte_at file_a) (some file_a) (c_string (codes "configuration_dir")) 0)
check_prefix-Reach_example =
    check_prefix-Reach (byte_at file_a) 0 19 (byte_at file_a) file_a
      (c_string (codes "configuration_dir")) (λ j l. ap (byte_at file_a) (start_at j)) file_a-Under
      (omega arith) (c_string-IsKey (codes "configuration_dir") refl) (λ j l. absurd (omega arith))

-- A full node4, which grows.
abbrev four_keys : ℕ → ℕ
four_keys i = i

abbrev four_children : ℕ → ArtNode ℕ
four_children i = leaf [] i

four-IsSorted : IsSorted 4 4 four_keys four_children
four-IsSorted = record {
  room = omega arith;
  ascending = λ i j l m. l;
  bytes = λ i l. omega arith;
  solid = λ i l. refl;
}

nine_absent : get_child node4 4 four_keys 9 ≡ none
unfolding get_child
nine_absent = refl

add_child_example :
    IsNode
      (add_child node4 0 (fill 0) 4 four_keys four_children 9 (leaf [] 7))
      0
      (fill 0)
      (with_child 9 (leaf [] 7) (child_at node4 4 four_keys four_children))
add_child_example =
    add_child_lem 0 9 (leaf [] 7) (omega arith) refl node4 (fill 0) 4 four_keys four_children
      (fine4 four-IsSorted) nine_absent
