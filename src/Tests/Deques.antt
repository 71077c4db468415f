-- ===== src/Tests/Deques.antt =====
-- src/libpgexporter/deque.c with concrete nodes.
use pgexporter.Prelude.{ℕ, ◌≡◌, refl, List, ◌∷◌, [], Option, none, some, arith}
use pgexporter.Prelude.Int.{pos}
use pgexporter.Text.{Bytes, codes, strcmp}
use pgexporter.Deque.{Node, create, poll, remove, compare_string}
use pgexporter.Deque.Queue.{holding, offers, polls, all_some, poll-offers}
use pgexporter.Deque.Remove.{spared, count_if, remove_lem}
use pgexporter.Deque.Sort.{
  sort, goes_first, deque_sort, deque_merge, split_walk, merge_loop, tag_compare,
}
use pgexporter.Deque.Sort.Merge.{InOrder}
use pgexporter.Deque.Sort.Order.{sort_lem}
use pgexporter.Deque.Sort.Tags.{goes_first-Consistent}
use mathlib.Core.List.{Perm}

abbrev n : Option Bytes → ℕ → Node ℕ
n tag value = record { tag = tag; data_of = value }

abbrev three : List (Node ℕ)
three = n (some (codes "b")) 1 ∷ n none 2 ∷ n (some (codes "a")) 3 ∷ []

sorted_three :
    (sort none (holding three)).nodes
    ≡ n (some (codes "a")) 3 ∷ n (some (codes "b")) 1 ∷ n none 2 ∷ []
unfolding sort deque_sort deque_merge split_walk merge_loop goes_first tag_compare strcmp
sorted_three = refl

poll-offers_example : polls poll 3 (offers three create) ≡ (all_some three, create)
poll-offers_example = poll-offers three (omega arith)

remove_example : remove (some (codes "b")) (holding three) ≡ (
  pos (count_if (λ x. compare_string x.tag (some (codes "b"))) three),
  holding (spared (λ x. compare_string x.tag (some (codes "b"))) three),
)
remove_example = remove_lem (codes "b") three (omega arith)

sort_example :
    Perm (sort none (holding three)).nodes three
    × InOrder (goes_first none) (sort none (holding three)).nodes
    × ((sort none (holding three)).size ≡ 3)
sort_example = sort_lem none (holding three) refl goes_first-Consistent
