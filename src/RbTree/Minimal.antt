-- ===== src/RbTree/Minimal.antt =====
-- ngx_rbtree_min returns the first node.
use inside_nginx.Base.{
  subst, ℕ, zero, suc, ◌≤◌, ◌≡◌, refl, sym, ap, ◌≢◌, some, List, ◌∷◌, ◌++◌, arith,
}
use inside_nginx.RbTree.{RedBlack}
use inside_nginx.RbTree.Shape.{Shape, leaf, fork, IsShape, inorder, size}
use inside_nginx.RbTree.Walk.{tree_min}
use inside_nginx.RbTree.Insert.Ordered.{IsLow, IsOrdered}
use inside_nginx.Queue.Ring.{ne_test, eq_test}

pub tree_min-first :
    (fuel p : ℕ) (t : RedBlack) (l : Shape) (x : ℕ) (r : Shape)
    → size (fork l x r) ≤ fuel
    → IsShape t p (fork l x r)
    → (m : ℕ) × (rest : List ℕ) × (tree_min fuel p t ≡ some m) × (inorder (fork l x r) ≡ m ∷ rest)
unfolding tree_min
tree_min-first zero p t l x r bound h = absurd (omega (arith, bound))
tree_min-first (suc fuel) p t leaf x r bound (e, xz, xs, hl, hr) =
    (x, inorder r, rw (e, ne_test x 0 xz, hl, eq_test t.sentinel) refl, refl)
tree_min-first (suc fuel) p t (fork l1 y r1) x r bound (e, xz, xs, hl, hr) =
    let (m, rest, found, order) =
      tree_min-first fuel (t.left x) t l1 y r1 (omega (arith, bound)) hl in
    (
      m,
      rest ++ x ∷ inorder r,
      rw
          (
            e,
            ne_test x 0 xz,
            ne_test (t.left x) t.sentinel (subst (λ z. z ≢ t.sentinel) (sym hl.0) hl.2),
          )
          found,
      ap (λ ys. ys ++ x ∷ inorder r) order,
    )

-- In a tree whose keys are in order, ngx_rbtree_min returns a node whose key is at most every other
-- one, when there are no more nodes than its rounds.
pub tree_min-IsLow :
    (fuel p : ℕ) (t : RedBlack) (l : Shape) (x : ℕ) (r : Shape)
    → size (fork l x r) ≤ fuel
    → IsShape t p (fork l x r)
    → IsOrdered t.key (inorder (fork l x r))
    → (m : ℕ) × (tree_min fuel p t ≡ some m) × IsLow t.key m (inorder (fork l x r))
tree_min-IsLow fuel p t l x r bound h ordered =
    let (m, rest, found, order) = tree_min-first fuel p t l x r bound h in
    let low : IsOrdered t.key (m ∷ rest) = subst (λ ys. IsOrdered t.key ys) order ordered in
    (m, found, subst (λ ys. IsLow t.key m ys) (sym order) (omega arith, low.0))
