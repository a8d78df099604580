-- ===== src/RbTree/Walk.antt =====
-- ngx_rbtree_min and ngx_rbtree_next.
--
-- The loops run on fuel; running out is none, as is a fault.
use inside_nginx.Base.{ℕ, zero, suc, Option, none, some, ◌==◌, if◌then◌else◌}
use inside_nginx.RbTree.{RedBlack, read, ◌>>=◌}

-- ngx_rbtree_min
unfoldable pub tree_min : ℕ → ℕ → RedBlack → Option ℕ
tree_min zero node t = none
tree_min (suc fuel) node t = do
  below ← read t.left node
  if below == t.sentinel then some node else tree_min fuel below t

-- The while loop of ngx_rbtree_next.
unfoldable pub climb : ℕ → ℕ → ℕ → RedBlack → Option ℕ
climb zero node parent t = none
climb (suc fuel) node parent t = if parent == 0 then some parent else do
  below ← read t.left parent
  above ← read t.parent parent
  if node == below then some parent else climb fuel parent above t

-- ngx_rbtree_next
unfoldable pub tree_next : ℕ → ℕ → RedBlack → Option ℕ
tree_next fuel node t = do
  below ← read t.right node
  above ← read t.parent node
  if below == t.sentinel then climb fuel node above t else tree_min fuel below t
