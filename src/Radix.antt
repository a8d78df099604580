-- ===== src/Radix.antt =====
-- ngx_radix_tree.c: a binary tree over the leading bits of 32-bit keys.
--
-- A node is its value and its two subtrees, so a `parent` pointer is the node that holds a subtree.
-- The bit 0x80000000 >> i of the loops is 2 ^ k with k = 31 - i, and the loops recur on the k + 1 bits
-- that are left; with none left `bit` is 0.
pub mod Entry
pub mod Insert
pub mod Find
pub mod Depth
pub mod Delete
pub mod Fault
pub mod Create
mod Tests
use inside_nginx.Base.{
  busy, ok, error, ℕ, zero, suc, ◌+◌, ◌-◌, ◌*◌, ◌/◌, ◌%◌, ◌^◌, ◌≤◌, ◌<◌, ◌≡◌, refl, sym, ap, ap₂,
  ◌∙◌, ◌≢◌, ◌↔◌, ◌⊎◌, inl, inr, Bool, true, false, not, ◌&&◌, ◌||◌, Option, none, some, List, [],
  ◌∷◌, ◌++◌, arith, ltb, leb, ◌==◌, if◌then◌else◌, Bool-cases, Option-cases, Rc, length, get_elem?,
  get_or, set, modify, replicate, All,
}
use inside_nginx.Base.Int.{
  ℤ, pos, negsuc, ◌+ℤ◌, ◌-ℤ◌, ◌≤ℤ◌, ◌<ℤ◌, int_laws, parts_of_eq, ltb_ℤ, leb_ℤ, pos_part, neg_part,
}
use inside_nginx.Base.Words.{add64, mul64, sub64, to_u64}
use inside_nginx.Base.Bits.{test_bit}

-- NGX_RADIX_NO_VALUE
abbrev pub no_value : ℕ
no_value = 2 ^ 64 - 1

pub data Tree : Type 0 where
  nil : Tree
  node : (value : ℕ) → (left right : Tree) → Tree

-- The memory of ngx_radix_tree_t: the length of `free_list`, the bytes `size` left at `start`, and
-- the pages asked for so far.
pub record Memory : Type 0 where
  pub free_nodes : ℕ
  pub size : ℕ
  pub pages : ℕ

-- `bit & word`, with k bits left.
unfoldable pub bit_of : ℕ → ℕ → Bool
bit_of word zero = false
bit_of word (suc k) = test_bit word k

-- `node->right == NULL && node->left == NULL`
unfoldable pub is_leaf : Tree → Tree → Bool
is_leaf nil nil = true
is_leaf l r = false

-- The child of the key's bit, and the node with this child exchanged.
unfoldable pub child : Bool → Tree → Tree → Tree
child b l r = if b then r else l

unfoldable pub with_child : Bool → ℕ → Tree → Tree → Tree → Tree
with_child b v l r t = if b then node v l t else node v t r

-- ngx_pagesize, the size of a node, and whether the n-th page can be had from ngx_pmemalign.
module _ (page_size node_size : ℕ) (page : ℕ → Bool) where
  -- ngx_radix_alloc: whether there is a node, and the memory left.
  unfoldable pub alloc : Memory → Bool × Memory
  alloc m =
      if not (m.free_nodes == 0)
      then (true, record m { free_nodes = m.free_nodes - 1 })
      else if leb node_size m.size
      then (true, record m { size = sub64 m.size node_size })
      else if page m.pages
      then (true, record m { size = sub64 page_size node_size; pages = m.pages + 1 })
      else (false, record m { pages = m.pages + 1 })

  -- The second loop of ngx_radix32tree_insert below a node whose child is NULL, with k bits left
  -- after the child's: the new child. On a failure the nodes made so far stay, with no value.
  unfoldable pub sprout : ℕ → ℕ → ℕ → ℕ → Memory → Rc × Tree × Memory
  sprout zero key mask value m =
      let (got, m') = alloc m in if got then (ok, node value nil nil, m') else (error, nil, m')
  sprout (suc k) key mask value m =
      let (got, m') = alloc m in
      let (rc, t, m'') = sprout k key mask value m' in
      if not got
      then (error, nil, m')
      else if bit_of mask (suc k)
      then (rc, with_child (bit_of key (suc k)) no_value nil nil t, m'')
      else (ok, node value nil nil, m')

  -- ngx_radix32tree_insert from a node on, with k bits left. The node is not NULL; `nil` stands for
  -- the NULL child that its parent's case has handled.
  unfoldable pub insert_at : ℕ → ℕ → ℕ → ℕ → Tree → Memory → Rc × Tree × Memory
  insert_at k key mask value nil m = sprout k key mask value m
  insert_at zero key mask value (node v l r) m =
      if v == no_value then (ok, node value l r, m) else (busy, node v l r, m)
  insert_at (suc k) key mask value (node v l r) m =
      let b = bit_of key (suc k) in
      let (rc, t, m') = insert_at k key mask value (child b l r) m in
      if bit_of mask (suc k)
      then (rc, with_child b v l r t, m')
      else if v == no_value
      then (ok, node value l r, m)
      else (busy, node v l r, m)

  -- ngx_radix32tree_insert
  unfoldable pub insert : ℕ → ℕ → ℕ → Tree → Memory → Rc × Tree × Memory
  insert key mask value root m = insert_at 32 key mask value root m

-- ngx_radix32tree_find from a node on.
unfoldable pub find_from : ℕ → ℕ → Tree → ℕ → ℕ
find_from k key nil value = value
find_from k key (node v l r) value =
    let value' = if v == no_value then value else v in
    let right = find_from (k - 1) key r value' in
    let left = find_from (k - 1) key l value' in if bit_of key k then right else left

-- ngx_radix32tree_find
unfoldable pub find : ℕ → Tree → ℕ
find key root = find_from 32 key root no_value

-- How a removal ends: with NGX_ERROR, at the parent of the root, which is NULL, or with NGX_OK, the
-- tree that is left and the number of nodes given to `free_list`.
pub data Removal : Type 0 where
  missing : Removal
  fault : Removal
  removed : Tree → ℕ → Removal

-- The end of the loop at a node whose child was cut off: it is cut off too if it has no child, no
-- value and a parent.
unfoldable pub prune : Bool → ℕ → Tree → Tree → ℕ → Removal
prune root v l r n =
    if not (is_leaf l r)
    then removed (node v l r) n
    else if not (v == no_value)
    then removed (node v l r) n
    else if root
    then removed (node v l r) n
    else removed nil (n + 1)

-- The node that was searched for.
unfoldable pub remove_here : Bool → ℕ → Tree → Tree → Removal
remove_here root v l r =
    if not (is_leaf l r)
    then (if v == no_value then missing else removed (node no_value l r) 0)
    else if root
    then fault
    else removed nil 1

-- The way back to a node from its child on the side b, after the child's removal. Only a child that
-- was cut off leads on.
unfoldable pub rejoin : Bool → Bool → ℕ → Tree → Tree → Removal → Removal
rejoin root b v l r missing = missing
rejoin root b v l r fault = fault
rejoin root b v l r (removed nil n) = if b then prune root v l nil n else prune root v nil r n
rejoin root b v l r (removed (node v' l' r') n) = removed (with_child b v l r (node v' l' r')) n

-- ngx_radix32tree_delete from a node on, with k bits left.
unfoldable pub delete_at : Bool → ℕ → ℕ → ℕ → Tree → Removal
delete_at root k key mask nil = missing
delete_at root zero key mask (node v l r) = remove_here root v l r
delete_at root (suc k) key mask (node v l r) =
    let b = bit_of key (suc k) in
    let deeper = rejoin root b v l r (delete_at false k key mask (child b l r)) in
    if bit_of mask (suc k) then deeper else remove_here root v l r

-- The code, the tree and the memory after a removal; `none` is the read through the NULL parent of
-- the root.
unfoldable pub end_delete : Tree → Memory → Removal → Option (Rc × Tree × Memory)
end_delete root m missing = some (error, root, m)
end_delete root m fault = none
end_delete root m (removed t n) = some (ok, t, record m { free_nodes = m.free_nodes + n })

-- ngx_radix32tree_delete
unfoldable pub delete : ℕ → ℕ → Tree → Memory → Option (Rc × Tree × Memory)
delete key mask root m = end_delete root m (delete_at true 32 key mask root)
