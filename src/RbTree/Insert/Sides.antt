-- ===== src/RbTree/Insert/Sides.antt =====
-- ngx_rbtree_insert_value: a node of the tree and the two sides below it.
use inside_nginx.Base.{
  subst, ℕ, ◌≡◌, refl, sym, ◌≢◌, ◌⊎◌, inl, inr, Bool, true, false, some, ◌∷◌, All,
}
use inside_nginx.RbTree.{RedBlack}
use inside_nginx.RbTree.Shape.{Shape, fork, IsShape, inorder}
use inside_nginx.RbTree.Insert.{find_parent}
use inside_nginx.Queue.Ring.{IsOut, IsApart, ne_test}
use inside_nginx.Queue.Splice.{All-cut, IsApart-cut}
use inside_nginx.Queue.Sort.Place.{ne_sym}
use inside_nginx.RbTree.Insert.Attach.{
  attach, attach-sentinel, attach-left, attach-right, attach-other, insert_shape,
}

module _ (less : ℕ → ℕ → Bool) (n : ℕ) (t : RedBlack) (nz : n ≢ 0) (ns : n ≢ t.sentinel) where
  -- What the search gives for a tree at x.
  abbrev pub IsFound : ℕ → ℕ → Shape → ℕ × Bool → Type 0
  IsFound fuel x sh (place, dir) =
      (find_parent less fuel x n t ≡ some (place, dir))
      × IsShape (attach dir place n t) x (insert_shape less t.key n sh)
      × (place ≢ 0)
      × ((y : ℕ) → IsOut y (inorder sh) → place ≢ y)

  -- The facts about a node x with its two trees.
  abbrev pub IsReady : Shape → ℕ → Shape → Type 0
  IsReady l x r =
      (x ≢ 0)
      × (x ≢ t.sentinel)
      × IsShape t (t.left x) l
      × IsShape t (t.right x) r
      × IsOut n (inorder l)
      × IsOut n (x ∷ inorder r)
      × IsApart (inorder l)
      × IsApart (x ∷ inorder r)
      × All (λ u. IsOut u (x ∷ inorder r)) (inorder l)

  pub ready :
      (p : ℕ) (l : Shape) (x : ℕ) (r : Shape)
      → IsShape t p (fork l x r)
      → IsOut n (inorder (fork l x r))
      → IsApart (inorder (fork l x r))
      → IsReady l x r
  ready p l x r (e, xz, xs, hl, hr) out apart =
      let (out_l, out_r) = All-cut (λ y. y ≢ n) (inorder l) (x ∷ inorder r) out in
      let (apart_l, apart_r, cross) = IsApart-cut (inorder l) (x ∷ inorder r) apart in
      (xz, xs, hl, hr, out_l, out_r, apart_l, apart_r, cross)

  -- The tree on one side gets the node, and the other side stays.
  pub fork-left :
      (l l' : Shape) (x : ℕ) (r : Shape) (dir : Bool) (place : ℕ)
      → IsReady l x r
      → IsShape (attach dir place n t) ((attach dir place n t).left x) l'
      → place ≢ x ⊎ (dir ≡ true)
      → IsOut place (inorder r)
      → IsShape (attach dir place n t) x (fork l' x r)
  fork-left l l' x r dir place (xz, xs, hl, hr, out_l, out_r, apart_l, apart_r, cross) h side away =
      let same : (attach dir place n t).right x ≡ t.right x = elim side [
        | inl k ↦ attach-right dir place n x t (ne_sym out_r.0) k
        | inr d ↦ rw (d, ne_test n x (ne_sym out_r.0)) refl
      ] in
      (
        refl,
        xz,
        subst (λ z. x ≢ z) (sym (attach-sentinel dir place n t)) xs,
        h,
        subst (λ z. IsShape (attach dir place n t) z r) (sym same)
            (attach-other dir place n t (t.right x) r out_r.1 away hr),
      )

  pub fork-right :
      (l : Shape) (x : ℕ) (r r' : Shape) (dir : Bool) (place : ℕ)
      → IsReady l x r
      → IsShape (attach dir place n t) ((attach dir place n t).right x) r'
      → place ≢ x ⊎ (dir ≡ false)
      → IsOut place (inorder l)
      → IsShape (attach dir place n t) x (fork l x r')
  fork-right l x r r' dir place (xz, xs, hl, hr, out_l, out_r, apart_l, apart_r, cross) h side
        away =
      let same : (attach dir place n t).left x ≡ t.left x = elim side [
        | inl k ↦ attach-left dir place n x t (ne_sym out_r.0) k
        | inr d ↦ rw (d, ne_test n x (ne_sym out_r.0)) refl
      ] in
      (
        refl,
        xz,
        subst (λ z. x ≢ z) (sym (attach-sentinel dir place n t)) xs,
        subst (λ z. IsShape (attach dir place n t) z l) (sym same)
            (attach-other dir place n t (t.left x) l out_l away hl),
        h,
      )

  pub IsOut-cut :
      (y : ℕ) (l : Shape) (x : ℕ) (r : Shape)
      → IsOut y (inorder (fork l x r))
      → IsOut y (inorder l) × IsOut y (x ∷ inorder r)
  IsOut-cut y l x r h = All-cut (λ z. z ≢ y) (inorder l) (x ∷ inorder r) h
