-- ===== src/RbTree/Insert/Placed.antt =====
-- ngx_rbtree_insert_value puts the node where a search tree has it.
use inside_nginx.Base.{
  subst, ℕ, zero, suc, ◌≤◌, ◌≡◌, refl, sym, ◌∙◌, ◌≢◌, inl, inr, Bool, true, false, [], ◌∷◌, arith,
  ◌==◌, Bool-cases,
}
use inside_nginx.RbTree.{RedBlack}
use inside_nginx.RbTree.Shape.{Shape, leaf, fork, IsShape, inorder, size}
use inside_nginx.RbTree.Insert.{find_parent}
use inside_nginx.Queue.Ring.{IsOut, IsApart, ne_test, eq_test}
use inside_nginx.Queue.Sort.Place.{ne_sym}
use inside_nginx.RbTree.Insert.Attach.{
  attach, attach-left, attach-right, attach-node, insert_shape, cross-sym, All-away, All-tails,
}
use inside_nginx.RbTree.Insert.Sides.{IsFound, IsReady, ready, fork-left, fork-right, IsOut-cut}

module _ (less : ℕ → ℕ → Bool) (n : ℕ) (t : RedBlack) (nz : n ≢ 0) (ns : n ≢ t.sentinel) where
  -- The search ends at x when the tree on its side is empty.
  left-leaf :
      (fuel x : ℕ) (r : Shape)
      → IsReady less n t nz ns leaf x r
      → less (t.key n) (t.key x) ≡ true
      → IsFound less n t nz ns (suc fuel) x (fork leaf x r) (x, true)
  unfolding find_parent
  left-leaf fuel x r facts b =
      let nx = ne_sym facts.5.0 in
      (
        (let same : (t.left x == t.sentinel) ≡ true = rw facts.2 (eq_test t.sentinel) in
            rw (ne_test n 0 nz, ne_test x 0 facts.0, b, ne_test x 0 facts.0, same) refl),
        rw b (
            fork-left less n t nz ns leaf (fork leaf n leaf) x r true x facts
              (subst (λ z. IsShape (attach true x n t) z (fork leaf n leaf))
                (rw (ne_test n x nx, eq_test x) refl) (attach-node true x n t nz ns))
              (inr refl) facts.7.0),
        facts.0,
        λ y o. o.0,
      )

  right-leaf :
      (fuel : ℕ) (l : Shape) (x : ℕ)
      → IsReady less n t nz ns l x leaf
      → less (t.key n) (t.key x) ≡ false
      → IsFound less n t nz ns (suc fuel) x (fork l x leaf) (x, false)
  unfolding find_parent
  right-leaf fuel l x facts b =
      let nx = ne_sym facts.5.0 in
      (
        (let same : (t.right x == t.sentinel) ≡ true = rw facts.3 (eq_test t.sentinel) in
            rw (ne_test n 0 nz, ne_test x 0 facts.0, b, ne_test x 0 facts.0, same) refl),
        rw b (
            fork-right less n t nz ns l x leaf (fork leaf n leaf) false x facts
              (subst (λ z. IsShape (attach false x n t) z (fork leaf n leaf))
                (rw (ne_test n x nx, eq_test x) refl) (attach-node false x n t nz ns))
              (inr refl) ((cross-sym (inorder l) (x ∷ []) facts.8).0)),
        facts.0,
        λ y o. (IsOut-cut less n t nz ns y l x leaf o).1.0,
      )

  -- It goes on below x otherwise.
  left-fork :
      (fuel x : ℕ) (l1 : Shape) (y : ℕ) (r1 r : Shape) (at : ℕ × Bool)
      → IsReady less n t nz ns (fork l1 y r1) x r
      → less (t.key n) (t.key x) ≡ true
      → IsFound less n t nz ns fuel y (fork l1 y r1) at
      → IsFound less n t nz ns (suc fuel) x (fork (fork l1 y r1) x r) at
  unfolding find_parent
  left-fork fuel x l1 y r1 r (place, dir) facts b (found, shape, pz, away) =
      let l = fork l1 y r1 in
      let nx = ne_sym facts.5.0 in
      let here : t.left x ≡ y = facts.2.0 in
      let other : (y == t.sentinel) ≡ false = ne_test y t.sentinel facts.2.2 in
      let apart = cross-sym (inorder l) (x ∷ inorder r) facts.8 in
      let px = away x apart.0 in
      (
        rw (ne_test n 0 nz, ne_test x 0 facts.0, b, here, ne_test x 0 facts.0, other) found,
        rw b (
            fork-left less n t nz ns l (insert_shape less t.key n l) x r dir place facts
              (subst (λ z. IsShape (attach dir place n t) z (insert_shape less t.key n l))
                (sym (attach-left dir place n x t nx px ∙ here)) shape)
              (inl px) (All-away place (inorder l) (inorder r) away apart.1)),
        pz,
        λ z o. away z (IsOut-cut less n t nz ns z l x r o).0,
      )

  right-fork :
      (fuel x : ℕ) (l l1 : Shape) (y : ℕ) (r1 : Shape) (at : ℕ × Bool)
      → IsReady less n t nz ns l x (fork l1 y r1)
      → less (t.key n) (t.key x) ≡ false
      → IsFound less n t nz ns fuel y (fork l1 y r1) at
      → IsFound less n t nz ns (suc fuel) x (fork l x (fork l1 y r1)) at
  unfolding find_parent
  right-fork fuel x l l1 y r1 (place, dir) facts b (found, shape, pz, away) =
      let r = fork l1 y r1 in
      let nx = ne_sym facts.5.0 in
      let here : t.right x ≡ y = facts.3.0 in
      let other : (y == t.sentinel) ≡ false = ne_test y t.sentinel facts.3.2 in
      let px = away x facts.7.0 in
      (
        rw (ne_test n 0 nz, ne_test x 0 facts.0, b, here, ne_test x 0 facts.0, other) found,
        rw b (
            fork-right less n t nz ns l x r (insert_shape less t.key n r) dir place facts
              (subst (λ z. IsShape (attach dir place n t) z (insert_shape less t.key n r))
                (sym (attach-right dir place n x t nx px ∙ here)) shape)
              (inl px)
              (All-away place (inorder r) (inorder l) away
                (All-tails x (inorder l) (inorder r) facts.8))),
        pz,
        λ z o. away z (IsOut-cut less n t nz ns z l x r o).1.1,
      )

  pub find_parent-IsFound :
      (fuel p : ℕ) (l : Shape) (x : ℕ) (r : Shape)
      → size (fork l x r) ≤ fuel
      → IsShape t p (fork l x r)
      → IsOut n (inorder (fork l x r))
      → IsApart (inorder (fork l x r))
      → (at : ℕ × Bool) × IsFound less n t nz ns fuel x (fork l x r) at
  find_parent-IsFound zero p l x r bound h out apart = absurd (omega (arith, bound))
  find_parent-IsFound (suc fuel) p leaf x leaf bound h out apart =
      let facts = ready less n t nz ns p leaf x leaf h out apart in
      elim (Bool-cases (less (t.key n) (t.key x))) [
        | inl b ↦ ((x, true), left-leaf fuel x leaf facts b)
        | inr b ↦ ((x, false), right-leaf fuel leaf x facts b)
      ]
  find_parent-IsFound (suc fuel) p leaf x (fork l1 y r1) bound h out apart =
      let facts = ready less n t nz ns p leaf x (fork l1 y r1) h out apart in
      let (at, found) =
        find_parent-IsFound fuel (t.right x) l1 y r1 (omega (arith, bound)) facts.3 facts.5.1
          facts.7.1 in
      elim (Bool-cases (less (t.key n) (t.key x))) [
        | inl b ↦ ((x, true), left-leaf fuel x (fork l1 y r1) facts b)
        | inr b ↦ (at, right-fork fuel x leaf l1 y r1 at facts b found)
      ]
  find_parent-IsFound (suc fuel) p (fork l1 y r1) x leaf bound h out apart =
      let facts = ready less n t nz ns p (fork l1 y r1) x leaf h out apart in
      let (at, found) =
        find_parent-IsFound fuel (t.left x) l1 y r1 (omega (arith, bound)) facts.2 facts.4
          facts.6 in
      elim (Bool-cases (less (t.key n) (t.key x))) [
        | inl b ↦ (at, left-fork fuel x l1 y r1 leaf at facts b found)
        | inr b ↦ ((x, false), right-leaf fuel (fork l1 y r1) x facts b)
      ]
  find_parent-IsFound (suc fuel) p (fork l1 y r1) x (fork l2 z r2) bound h out apart =
      let facts = ready less n t nz ns p (fork l1 y r1) x (fork l2 z r2) h out apart in
      elim (Bool-cases (less (t.key n) (t.key x))) [
        | inl b ↦
            (let (at, found) =
                find_parent-IsFound fuel (t.left x) l1 y r1 (omega (arith, bound)) facts.2 facts.4
                  facts.6 in
              (at, left-fork fuel x l1 y r1 (fork l2 z r2) at facts b found))
        | inr b ↦
            (let (at, found) =
                find_parent-IsFound fuel (t.right x) l2 z r2 (omega (arith, bound)) facts.3
                  facts.5.1 facts.7.1 in
              (at, right-fork fuel x (fork l1 y r1) l2 z r2 at facts b found))
      ]
