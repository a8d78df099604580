-- ===== src/RbTree/Order.antt =====
-- ngx_rbtree_left_rotate at the root keeps the order of the nodes.
use mathlib.Core.List.{append_assoc}
use inside_nginx.RbTree.Insert.Attach.{cross-sym}
use inside_nginx.Base.{◌++◌, subst, ℕ, ◌≡◌, refl, sym, ◌∙◌, ◌≢◌, true, some, ◌∷◌, ◌==◌}
use inside_nginx.RbTree.{RedBlack, update_at, relink, left_rotate}
use inside_nginx.RbTree.Shape.{Shape, leaf, fork, IsShape, inorder}
use inside_nginx.Queue.Ring.{IsApart, IsOut, ne_test, eq_test}
use inside_nginx.Queue.Splice.{IsApart-cut, All-cut}
use inside_nginx.Queue.Sort.Place.{ne_sym}

-- A part of the tree whose nodes have the same children in t' stays.
IsShape-keep :
    (t t' : RedBlack) (u v p : ℕ) (sh : Shape)
    → t'.sentinel ≡ t.sentinel
    → ((y : ℕ) → u ≢ y → t'.left y ≡ t.left y)
    → ((y : ℕ) → v ≢ y → t'.right y ≡ t.right y)
    → IsOut u (inorder sh)
    → IsOut v (inorder sh)
    → IsShape t p sh
    → IsShape t' p sh
IsShape-keep t t' u v p leaf e f g a b h = h ∙ sym e
IsShape-keep t t' u v p (fork l x r) e f g a b (here, nz, ns, hl, hr) =
    let (al, ar) = All-cut (λ y. y ≢ u) (inorder l) (x ∷ inorder r) a in
    let (bl, br) = All-cut (λ y. y ≢ v) (inorder l) (x ∷ inorder r) b in
    (
      here,
      nz,
      subst (λ z. x ≢ z) (sym e) ns,
      subst (λ z. IsShape t' z l) (sym (f x (ne_sym ar.0)))
          (IsShape-keep t t' u v (t.left x) l e f g al bl hl),
      subst (λ z. IsShape t' z r) (sym (g x (ne_sym br.0)))
          (IsShape-keep t t' u v (t.right x) r e f g ar.1 br.1 hr),
    )

-- The tree after the rotation, where the parents are changed by f.
abbrev rotated : ℕ → ℕ → ((ℕ → ℕ) → ℕ → ℕ) → RedBlack → RedBlack
rotated node y f t = record t {
  root = y;
  left = update_at y node t.left;
  right = update_at node (t.left y) t.right;
  parent = update_at node y (update_at y (f t.parent node) (f t.parent));
}

left_rotate-run :
    (t : RedBlack) (node y : ℕ) (b : Shape)
    → t.root ≡ node
    → node ≢ 0
    → t.right node ≡ y
    → y ≢ 0
    → IsShape t (t.left y) b
    → (f : (ℕ → ℕ) → ℕ → ℕ) × (left_rotate node t ≡ some (rotated node y f t))
unfolding left_rotate relink
left_rotate-run t node y leaf e nz r yz h = (
  λ p. p,
  (let same : (t.left y == t.sentinel) ≡ true = rw h (eq_test t.sentinel) in
      rw (ne_test node 0 nz, r, ne_test y 0 yz, same, e, eq_test node) refl),
)
left_rotate-run t node y (fork b1 z b2) e nz r yz (here, zz, zs, hl, hr) = (
  update_at z node,
  rw
      (
        ne_test node 0 nz,
        r,
        ne_test y 0 yz,
        here,
        ne_test z t.sentinel zs,
        ne_test z 0 zz,
        e,
        eq_test node,
      )
      refl,
)

-- ngx_rbtree_left_rotate at the root, whose right child is y, makes y the root with the old root as its
-- left child and keeps the order of the nodes.
pub left_rotate-IsShape :
    (t : RedBlack) (a : Shape) (node : ℕ) (b : Shape) (y : ℕ) (c : Shape)
    → IsShape t t.root (fork a node (fork b y c))
    → IsApart (inorder (fork a node (fork b y c)))
    → (t' : RedBlack) × (left_rotate node t ≡ some t')
      × IsShape t' t'.root (fork (fork a node b) y c)
      × (inorder (fork (fork a node b) y c) ≡ inorder (fork a node (fork b y c)))
      × (t'.parent node ≡ y)
left_rotate-IsShape t a node b y c (e, nz, ns, ha, (r, yz, ys, hb, hc)) apart =
    let (apart_a, apart_r, cross) =
      IsApart-cut (inorder a) (node ∷ inorder b ++ y ∷ inorder c) apart in
    let (apart_b, apart_c, cross_b) = IsApart-cut (inorder b) (y ∷ inorder c) apart_r.1 in
    let (node_b, node_c) = All-cut (λ z. z ≢ node) (inorder b) (y ∷ inorder c) apart_r.0 in
    let from_a = cross-sym (inorder a) (node ∷ inorder b ++ y ∷ inorder c) cross in
    let (b_a, c_a) = All-cut (λ z. IsOut z (inorder a)) (inorder b) (y ∷ inorder c) from_a.1 in
    let y_b = (cross-sym (inorder b) (y ∷ inorder c) cross_b).0 in
    let (f, runs) = left_rotate-run t node y b e nz r yz hb in
    let t' = rotated node y f t in
    let keep =
      λ (p : ℕ) (sh : Shape) (i : IsOut y (inorder sh)) (j : IsOut node (inorder sh))
          (h : IsShape t p sh).
        IsShape-keep t t' y node p sh refl (λ z k. rw (ne_test y z k) refl)
          (λ z k. rw (ne_test node z k) refl) i j h in
    (
      t',
      runs,
      (
        refl,
        yz,
        ys,
        subst (λ z. IsShape t' z (fork a node b)) (sym (rw (eq_test y) refl))
            (
              refl,
              nz,
              ns,
              subst (λ z. IsShape t' z a) (sym (rw (ne_test y node node_c.0) refl))
                  (keep (t.left node) a c_a.0 from_a.0 ha),
              subst (λ z. IsShape t' z b) (sym (rw (eq_test node) refl))
                  (keep (t.left y) b y_b node_b hb),
            ),
        subst (λ z. IsShape t' z c) (sym (rw (ne_test node y (ne_sym node_c.0)) refl))
            (keep (t.right y) c apart_c.0 node_c.1 hc),
      ),
      append_assoc (inorder a) (node ∷ inorder b) (y ∷ inorder c),
      rw (eq_test node) refl,
    )
