-- ===== src/RbTree/Tests.antt =====
-- Runs of ngx_rbtree.c on a tree of two nodes with the sentinel 1.
use inside_nginx.Base.{ℕ, ◌≡◌, refl, inl, none, some, ◌∷◌, arith, ◌==◌, if◌then◌else◌}
use inside_nginx.Base.{occurrences}
use inside_nginx.RbTree.{RedBlack}
use inside_nginx.RbTree.Order.{left_rotate-IsShape}
use inside_nginx.RbTree.{left_rotate}
use inside_nginx.RbTree.Shape.{Shape, leaf, fork, IsShape, inorder}
use inside_nginx.RbTree.Insert.{insert_value, value_less}
use inside_nginx.RbTree.Insert.Ordered.{IsOrdered, insert_value-IsOrdered}
use inside_nginx.RbTree.Delete.{tree_delete}
use inside_nginx.RbTree.Rotated.{tree_delete-root}

-- The nodes 16 and 32 with the keys 5 and 9, and a node 48 with the key 7 that is in no tree.
abbrev two_nodes : RedBlack
two_nodes = record {
  root = 16;
  sentinel = 1;
  key = λ a. if a == 16 then 5 else if a == 32 then 9 else 7;
  left = λ a. 1;
  right = λ a. if a == 16 then 32 else 1;
  parent = λ a. if a == 32 then 16 else 0;
  red = λ a. a == 32;
}

abbrev two_shape : Shape
two_shape = fork leaf 16 (fork leaf 32 leaf)

two_nodes-IsShape : IsShape two_nodes 16 two_shape
two_nodes-IsShape =
    (refl, ground arith, ground arith, refl, (refl, ground arith, ground arith, refl, refl))

insert_value-IsOrdered_example :
    (t' : RedBlack) × (sh : Shape) × (insert_value value_less 2 16 48 two_nodes ≡ some t')
    × IsShape t' t'.root sh
    × IsOrdered t'.key (inorder sh)
    × ((y : ℕ) → occurrences y (inorder sh) ≡ occurrences y (48 ∷ inorder two_shape))
insert_value-IsOrdered_example =
    insert_value-IsOrdered 2 48 two_nodes leaf 16 (fork leaf 32 leaf) (omega arith)
      two_nodes-IsShape (ground arith) (ground arith) (ground arith, (ground arith, tt))
      ((ground arith, tt), (tt, tt)) ((omega arith, tt), (tt, tt))

-- The tree of one node.
abbrev one_node : RedBlack
one_node = record two_nodes { right = λ a. 1 }

tree_delete-root_example : tree_delete 1 16 one_node ≡ none
tree_delete-root_example = tree_delete-root 1 one_node (ground arith) (ground arith) refl (inl refl)

left_rotate-IsShape_example :
    (t' : RedBlack) × (left_rotate 16 two_nodes ≡ some t')
    × IsShape t' t'.root (fork (fork leaf 16 leaf) 32 leaf)
    × (inorder (fork (fork leaf 16 leaf) 32 leaf) ≡ inorder two_shape)
    × (t'.parent 16 ≡ 32)
left_rotate-IsShape_example =
    left_rotate-IsShape two_nodes leaf 16 leaf 32 leaf two_nodes-IsShape
      ((ground arith, tt), (tt, tt))
