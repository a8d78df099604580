-- ===== src/RbTree/Insert.antt =====
-- ngx_rbtree_insert, ngx_rbtree_insert_value and ngx_rbtree_insert_timer_value.
--
-- The two branches of the loop of ngx_rbtree_insert are mirror images of each other and are one
-- definition for a side. The loops run on fuel; running out is none, as is a fault.
pub mod Attach
pub mod Sides
pub mod Placed
pub mod Ordered
use inside_nginx.Base.{
  ℕ, zero, suc, ◌^◌, Bool, true, false, not, Option, none, some, ltb, leb, ◌==◌, if◌then◌else◌,
}
use inside_nginx.Base.Words.{sub64}
use inside_nginx.RbTree.{
  RedBlack, read, ◌>>=◌, set_left, set_right, set_parent, set_red, side_child, rotate,
}

-- `node->key < temp->key`
abbrev pub value_less : ℕ → ℕ → Bool
value_less a b = ltb a b

-- `(ngx_rbtree_key_int_t)(node->key - temp->key) < 0`
abbrev pub timer_less : ℕ → ℕ → Bool
timer_less a b = leb (2 ^ 63) (sub64 a b)

-- The loop: the node below which the new one belongs, and whether on the left.
unfoldable pub find_parent : (ℕ → ℕ → Bool) → ℕ → ℕ → ℕ → RedBlack → Option (ℕ × Bool)
find_parent less zero temp node t = none
find_parent less (suc fuel) temp node t = do
  k ← read t.key node
  l ← read t.key temp
  let goes_left = less k l
  below ← side_child goes_left temp t
  if below == t.sentinel then some (temp, goes_left) else find_parent less fuel below node t

-- ngx_rbtree_insert_value and ngx_rbtree_insert_timer_value
unfoldable pub insert_value : (ℕ → ℕ → Bool) → ℕ → ℕ → ℕ → RedBlack → Option RedBlack
insert_value less fuel temp node t = do
  (place, goes_left) ← find_parent less fuel temp node t
  t1 ← if goes_left then set_left place node t else set_right place node t
  t2 ← set_parent node place t1
  t3 ← set_left node t.sentinel t2
  t4 ← set_right node t.sentinel t3
  set_red node true t4

-- One round of the loop, where the parent is the left child of its parent if `side`.
unfoldable pub rebalance : Bool → ℕ → RedBlack → Option (ℕ × RedBlack)
rebalance side node t = do
  parent ← read t.parent node
  grand ← read t.parent parent
  uncle ← side_child (not side) grand t
  hot ← read t.red uncle
  if hot
      then (do
        t1 ← set_red parent false t
        t2 ← set_red uncle false t1
        t3 ← set_red grand true t2
        some (grand, t3))
      else (do
        far ← side_child (not side) parent t
        t1 ← if node == far then rotate side parent t else some t
        let node' = if node == far then parent else node
        above ← read t1.parent node'
        t2 ← set_red above false t1
        top ← read t2.parent above
        t3 ← set_red top true t2
        t4 ← rotate (not side) top t3
        some (node', t4))

-- `re-balance tree`
unfoldable pub rebalance_all : ℕ → ℕ → RedBlack → Option RedBlack
rebalance_all zero node t = none
rebalance_all (suc fuel) node t = if node == t.root then some t else do
  parent ← read t.parent node
  hot ← read t.red parent
  if not hot then some t else (do
    grand ← read t.parent parent
    first ← read t.left grand
    (node', t') ← rebalance (parent == first) node t
    rebalance_all fuel node' t')

-- ngx_rbtree_insert
unfoldable pub tree_insert : (ℕ → ℕ → Bool) → ℕ → ℕ → RedBlack → Option RedBlack
tree_insert less fuel node t =
    if t.root == t.sentinel
    then (do
      t1 ← set_parent node 0 t
      t2 ← set_left node t.sentinel t1
      t3 ← set_right node t.sentinel t2
      t4 ← set_red node false t3
      some (record t4 { root = node }))
    else (do
      t1 ← insert_value less fuel t.root node t
      t2 ← rebalance_all fuel node t1
      set_red t2.root false t2)
