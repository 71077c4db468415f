-- ===== src/QueryAlts/Leaves.antt =====
-- What the height 0 of a new node means for the true shape of a version tree.
use pgexporter.Prelude.{ℕ, ◌≡◌, ◌<◌, arith}
use pgexporter.Order.{nat_order}
use pgexporter.QueryAlts.{leaf, node, insert, rebalance}

-- Three ascending versions stand in one line: the root's right subtree is deeper by two than its
-- left one, which an AVL tree does not allow.
pub ascending_unbalanced :
    {V : Type 0} (a b c : ℕ) (u v w : V)
    → a < b
    → b < c
    → let t = (insert (insert (insert leaf a u).0 b v).0 c w).0 in
      t ≡ node leaf a u 2 (node leaf b v 1 (node leaf c w 0 leaf))
unfolding insert rebalance nat_order
ascending_unbalanced a b c u v w h k = ground arith
