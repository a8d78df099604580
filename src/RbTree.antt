-- ===== src/RbTree.antt =====
-- ngx_rbtree.h and ngx_rbtree.c: red-black trees of nodes in memory.
--
-- The tree is its root, its sentinel and the fields of the node at every address, with NULL as 0.
-- Reading or writing a field through NULL is a fault, none. The field `p` that two places of the code
-- name is read as `parent`, and `ngx_rbt_is_red(y->color)` as `ngx_rbt_is_red(y)`.
pub mod Shape
pub mod Walk
pub mod Insert
pub mod Delete
pub mod Order
pub mod Rotated
pub mod Minimal
mod Tests
use inside_nginx.Base.{
  ℕ, zero, suc, ◌+◌, ◌-◌, ◌*◌, ◌/◌, ◌%◌, ◌^◌, ◌≤◌, ◌<◌, ◌≡◌, refl, sym, ap, ap₂, ◌∙◌, ◌≢◌, ◌↔◌, ◌⊎◌,
  inl, inr, Bool, true, false, not, ◌&&◌, ◌||◌, Option, none, some, List, [], ◌∷◌, ◌++◌, arith, ltb,
  leb, ◌==◌, if◌then◌else◌, Bool-cases, Option-cases, Rc, length, get_elem?, get_or, set, modify,
  replicate, All,
}
use inside_nginx.Base.Int.{
  ℤ, pos, negsuc, ◌+ℤ◌, ◌-ℤ◌, ◌≤ℤ◌, ◌<ℤ◌, int_laws, parts_of_eq, ltb_ℤ, leb_ℤ, pos_part, neg_part,
}
use inside_nginx.Base.Words.{add64, mul64, sub64, to_u64}

infixl 5 ◌>>=◌
abbrev pub ◌>>=◌ : {A B : Type 0} → Option A → (A → Option B) → Option B
none >>= f = none
some a >>= f = f a

-- ngx_rbtree_t, and the fields of the ngx_rbtree_node_t at every address.
pub record RedBlack : Type 0 where
  pub root : ℕ
  pub sentinel : ℕ
  pub key : ℕ → ℕ
  pub left : ℕ → ℕ
  pub right : ℕ → ℕ
  pub parent : ℕ → ℕ
  pub red : ℕ → Bool

-- A field is read.
abbrev pub read : {A : Type 0} → (ℕ → A) → ℕ → Option A
read f p = if p == 0 then none else some (f p)

abbrev pub update_at : {A : Type 0} → ℕ → A → (ℕ → A) → ℕ → A
update_at p v f a = if p == a then v else f a

abbrev pub set_left : ℕ → ℕ → RedBlack → Option RedBlack
set_left p v t = if p == 0 then none else some (record t { left = update_at p v t.left })

abbrev pub set_right : ℕ → ℕ → RedBlack → Option RedBlack
set_right p v t = if p == 0 then none else some (record t { right = update_at p v t.right })

abbrev pub set_parent : ℕ → ℕ → RedBlack → Option RedBlack
set_parent p v t = if p == 0 then none else some (record t { parent = update_at p v t.parent })

-- ngx_rbt_red, ngx_rbt_black and ngx_rbt_copy_color
abbrev pub set_red : ℕ → Bool → RedBlack → Option RedBlack
set_red p c t = if p == 0 then none else some (record t { red = update_at p c t.red })

-- The place of a node below its parent, or the root, is given to another node.
unfoldable pub relink : ℕ → ℕ → RedBlack → Option RedBlack
relink node temp t = if node == t.root then some (record t { root = temp }) else do
  up ← read t.parent node
  below ← read t.left up
  if node == below then set_left up temp t else set_right up temp t

-- ngx_rbtree_left_rotate
unfoldable pub left_rotate : ℕ → RedBlack → Option RedBlack
left_rotate node t = do
  temp ← read t.right node
  inner ← read t.left temp
  t1 ← set_right node inner t
  t2 ← if inner == t.sentinel then some t1 else set_parent inner node t1
  above ← read t2.parent node
  t3 ← set_parent temp above t2
  t4 ← relink node temp t3
  t5 ← set_left temp node t4
  set_parent node temp t5

-- ngx_rbtree_right_rotate
unfoldable pub right_rotate : ℕ → RedBlack → Option RedBlack
right_rotate node t = do
  x ← read t.left node
  inner ← read t.right x
  t1 ← set_left node inner t
  t2 ← if inner == t.sentinel then some t1 else set_parent inner node t1
  t3 ← relink node x t2
  t4 ← set_right x node t3
  set_parent node x t4

-- The left child, or the right one.
abbrev pub side_child : Bool → ℕ → RedBlack → Option ℕ
side_child true p t = read t.left p
side_child false p t = read t.right p

abbrev pub rotate : Bool → ℕ → RedBlack → Option RedBlack
rotate true p t = left_rotate p t
rotate false p t = right_rotate p t

-- ngx_rbtree_init
unfoldable pub init_tree : ℕ → RedBlack → Option RedBlack
init_tree s t = do t1 ← set_red s false t; some (record t1 { root = s; sentinel = s })
