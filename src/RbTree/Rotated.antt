-- ===== src/RbTree/Rotated.antt =====
-- The parents of the nodes that a rotation at the root exchanges, and the removal of the root.
use inside_nginx.Base.{
  ℕ, ◌≡◌, refl, sym, ap, ◌∙◌, ◌≢◌, ◌⊎◌, inl, inr, true, false, none, some, ◌==◌, Bool-cases,
}
use inside_nginx.RbTree.{RedBlack, update_at, relink, right_rotate}
use inside_nginx.RbTree.Delete.{transplant, take_out, tree_delete}
use inside_nginx.Queue.Ring.{ne_test, eq_test}

-- After ngx_rbtree_right_rotate at the root, whose left child x has it as its parent and has a right
-- child other than x and NULL, x is the new root, and x and the old root are each other's parents.
pub right_rotate-parents :
    (t : RedBlack) (node x inner : ℕ)
    → t.root ≡ node
    → t.left node ≡ x
    → t.right x ≡ inner
    → t.parent x ≡ node
    → node ≢ 0
    → x ≢ 0
    → node ≢ x
    → inner ≢ 0
    → inner ≢ x
    → (t' : RedBlack) × (right_rotate node t ≡ some t')
      × (t'.root ≡ x)
      × (t'.parent node ≡ x)
      × (t'.parent x ≡ node)
unfolding right_rotate relink
right_rotate-parents t node x inner a b c d nz xz nx iz ix =
    elim (Bool-cases (inner == t.sentinel)) [
      | inl e ↦ (
        record t {
          root = x;
          left = update_at node inner t.left;
          right = update_at x node t.right;
          parent = update_at node x t.parent;
        },
        rw (ne_test node 0 nz, b, ne_test x 0 xz, c, e, a, eq_test node) refl,
        refl,
        rw (eq_test node) refl,
        rw (ne_test node x nx) d,
      )
      | inr e ↦ (
        record t {
          root = x;
          left = update_at node inner t.left;
          right = update_at x node t.right;
          parent = update_at node x (update_at inner node t.parent);
        },
        rw (ne_test node 0 nz, b, ne_test x 0 xz, c, e, ne_test inner 0 iz, a, eq_test node) refl,
        refl,
        rw (eq_test node) refl,
        rw (ne_test node x nx, ne_test inner x ix) d,
      )
    ]

-- ngx_rbtree_delete of the root of a tree, whose parent is NULL, faults when the root has at most one
-- child.
pub tree_delete-root :
    (fuel : ℕ) (t : RedBlack)
    → t.root ≢ 0
    → t.sentinel ≢ 0
    → t.parent t.root ≡ 0
    → (t.left t.root ≡ t.sentinel) ⊎ (t.right t.root ≡ t.sentinel)
    → tree_delete fuel t.root t ≡ none
unfolding tree_delete take_out transplant
tree_delete-root fuel t rz sz p side =
    let null = ne_test 0 t.sentinel (λ e. sz (sym e)) in
    elim (Bool-cases (t.left t.root == t.sentinel)) [
      | inl e ↦ rw (ne_test t.root 0 rz, e, p, null) refl
      | inr e ↦ elim side [
        | inl f ↦ absurd (
            let clash : true ≡ false = sym (ap (λ z. z == t.sentinel) f ∙ eq_test t.sentinel) ∙ e in
            cc)
        | inr f ↦ rw (ne_test t.root 0 rz, e, f, eq_test t.sentinel, p, null) refl
      ]
    ]
