-- ===== src/RbTree/Delete.antt =====
-- ngx_rbtree_delete and ngx_rbtree_transplant.
--
-- The two branches of the loop are mirror images of each other and are one definition for a side. The
-- loops run on fuel; running out is none, as is a fault.
use inside_nginx.Base.{
  ℕ, zero, suc, Bool, true, false, not, ◌&&◌, ◌||◌, Option, none, some, ◌==◌, if◌then◌else◌,
}
use inside_nginx.RbTree.{
  RedBlack, read, ◌>>=◌, update_at, set_left, set_right, set_parent, set_red, side_child, rotate,
}
use inside_nginx.RbTree.Walk.{tree_min}

-- ngx_rbtree_transplant
unfoldable pub transplant : ℕ → ℕ → RedBlack → Option RedBlack
transplant u v t = do
  up ← read t.parent u
  t1 ←
      if up == t.sentinel
      then some (record t { root = v })
      else do below ← read t.left up; if u == below then set_left up v t else set_right up v t
  above ← read t1.parent u
  set_parent v above t1

-- The case of a node with two children, y is the least node on its right: x, whether y was red, and
-- the tree.
unfoldable pub replace : ℕ → ℕ → RedBlack → Option (ℕ × (Bool × RedBlack))
replace node y t = do
  hot ← read t.red y
  x ← read t.right y
  right ← read t.right node
  t1 ← if y == right then set_parent x y t else do
    a ← transplant y x t
    r ← read a.right node
    b ← set_right y r a
    r' ← read b.right node
    set_parent r' y b
  t2 ← transplant node y t1
  l ← read t2.left node
  t3 ← set_left y l t2
  l' ← read t3.left node
  t4 ← set_parent l' y t3
  color ← read t4.red node
  t5 ← set_red y color t4
  some (x, (hot, t5))

-- The node leaves the tree.
unfoldable pub take_out : ℕ → ℕ → RedBlack → Option (ℕ × (Bool × RedBlack))
take_out fuel node t = do
  hot ← read t.red node
  left ← read t.left node
  right ← read t.right node
  if left == t.sentinel
      then (do t1 ← transplant node right t; some (right, (hot, t1)))
      else if right == t.sentinel
      then (do t1 ← transplant node left t; some (left, (hot, t1)))
      else (do y ← tree_min fuel right t; replace node y t)

-- `DEBUG stuff`
unfoldable pub clear_node : ℕ → RedBlack → RedBlack
clear_node node t = record t {
  key = update_at node 0 t.key;
  left = update_at node 0 t.left;
  right = update_at node 0 t.right;
  parent = update_at node 0 t.parent;
}

-- The cases 2 to 4, for the sibling of x on the other side than `side`.
unfoldable pub fix_sibling : Bool → ℕ → ℕ → RedBlack → Option (ℕ × RedBlack)
fix_sibling side x sibling t = do
  near ← side_child side sibling t
  far ← side_child (not side) sibling t
  near_red ← read t.red near
  far_red ← read t.red far
  parent ← read t.parent x
  if not near_red && not far_red then (do t1 ← set_red sibling true t; some (parent, t1)) else (do
    t1 ←
        if far_red
        then some t
        else do a ← set_red near false t; b ← set_red sibling true a; rotate (not side) sibling b
    up ← read t1.parent x
    sibling' ← if far_red then some sibling else side_child (not side) up t1
    color ← read t1.red up
    t2 ← set_red sibling' color t1
    t3 ← set_red up false t2
    far' ← side_child (not side) sibling' t3
    t4 ← set_red far' false t3
    t5 ← rotate side up t4
    some (t5.root, t5))

-- One round of the loop, with case 1.
unfoldable pub fix_round : Bool → ℕ → RedBlack → Option (ℕ × RedBlack)
fix_round side x t = do
  parent ← read t.parent x
  sibling ← side_child (not side) parent t
  hot ← read t.red sibling
  if not hot then fix_sibling side x sibling t else (do
    t1 ← set_red sibling false t
    t2 ← set_red parent true t1
    t3 ← rotate side parent t2
    up ← read t3.parent x
    sibling' ← side_child (not side) up t3
    fix_sibling side x sibling' t3)

-- `a delete fixup`
unfoldable pub fix_all : ℕ → ℕ → RedBlack → Option RedBlack
fix_all zero x t = none
fix_all (suc fuel) x t = do
  hot ← read t.red x
  if x == t.root || hot then set_red x false t else (do
    parent ← read t.parent x
    first ← read t.left parent
    (x', t') ← fix_round (x == first) x t
    fix_all fuel x' t')

-- ngx_rbtree_delete
unfoldable pub tree_delete : ℕ → ℕ → RedBlack → Option RedBlack
tree_delete fuel node t = do
  (x, (hot, t1)) ← take_out fuel node t
  let t2 = clear_node node t1
  if hot then some t2 else fix_all fuel x t2
