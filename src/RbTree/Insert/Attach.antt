-- ===== src/RbTree/Insert/Attach.antt =====
-- ngx_rbtree_insert_value: what the writes of a new node do to a tree.
use inside_nginx.Base.{
  subst, ℕ, ◌≡◌, refl, sym, ◌∙◌, ◌≢◌, Bool, true, false, some, List, [], ◌∷◌, if◌then◌else◌, All,
}
use inside_nginx.RbTree.{RedBlack, update_at}
use inside_nginx.RbTree.Shape.{Shape, leaf, fork, IsShape, inorder}
use inside_nginx.RbTree.Insert.{find_parent, insert_value}
use inside_nginx.Queue.Ring.{IsOut, ne_test, eq_test}
use inside_nginx.Queue.Splice.{All-cut}
use inside_nginx.Queue.Sort.Place.{ne_sym}

-- The tree with the node n below the place.
abbrev pub attach : Bool → ℕ → ℕ → RedBlack → RedBlack
attach true place n t = record t {
  left = update_at n t.sentinel (update_at place n t.left);
  right = update_at n t.sentinel t.right;
  parent = update_at n place t.parent;
  red = update_at n true t.red;
}
attach false place n t = record t {
  left = update_at n t.sentinel t.left;
  right = update_at n t.sentinel (update_at place n t.right);
  parent = update_at n place t.parent;
  red = update_at n true t.red;
}

pub attach-root : (dir : Bool) (place n : ℕ) (t : RedBlack) → (attach dir place n t).root ≡ t.root
attach-root true place n t = refl
attach-root false place n t = refl

pub attach-key : (dir : Bool) (place n : ℕ) (t : RedBlack) → (attach dir place n t).key ≡ t.key
attach-key true place n t = refl
attach-key false place n t = refl

pub attach-sentinel :
    (dir : Bool) (place n : ℕ) (t : RedBlack) → (attach dir place n t).sentinel ≡ t.sentinel
attach-sentinel true place n t = refl
attach-sentinel false place n t = refl

pub insert_value-attach :
    (less : ℕ → ℕ → Bool) (fuel temp n place : ℕ) (dir : Bool) (t : RedBlack)
    → find_parent less fuel temp n t ≡ some (place, dir)
    → place ≢ 0
    → n ≢ 0
    → insert_value less fuel temp n t ≡ some (attach dir place n t)
unfolding insert_value
insert_value-attach less fuel temp n place true t e h k =
    rw (e, ne_test place 0 h, ne_test n 0 k) refl
insert_value-attach less fuel temp n place false t e h k =
    rw (e, ne_test place 0 h, ne_test n 0 k) refl

pub attach-left :
    (dir : Bool) (place n y : ℕ) (t : RedBlack)
    → n ≢ y
    → place ≢ y
    → (attach dir place n t).left y ≡ t.left y
attach-left true place n y t h k = rw (ne_test n y h, ne_test place y k) refl
attach-left false place n y t h k = rw (ne_test n y h) refl

pub attach-right :
    (dir : Bool) (place n y : ℕ) (t : RedBlack)
    → n ≢ y
    → place ≢ y
    → (attach dir place n t).right y ≡ t.right y
attach-right true place n y t h k = rw (ne_test n y h) refl
attach-right false place n y t h k = rw (ne_test n y h, ne_test place y k) refl

-- A part of the tree that has neither the place nor the node stays.
pub attach-other :
    (dir : Bool) (place n : ℕ) (t : RedBlack) (p : ℕ) (sh : Shape)
    → IsOut n (inorder sh)
    → IsOut place (inorder sh)
    → IsShape t p sh
    → IsShape (attach dir place n t) p sh
attach-other dir place n t p leaf a b h = h ∙ sym (attach-sentinel dir place n t)
attach-other dir place n t p (fork l x r) a b (e, nz, ns, hl, hr) =
    let (al, ar) = All-cut (λ y. y ≢ n) (inorder l) (x ∷ inorder r) a in
    let (bl, br) = All-cut (λ y. y ≢ place) (inorder l) (x ∷ inorder r) b in
    (
      e,
      nz,
      subst (λ z. x ≢ z) (sym (attach-sentinel dir place n t)) ns,
      subst (λ z. IsShape (attach dir place n t) z l)
          (sym (attach-left dir place n x t (ne_sym ar.0) (ne_sym br.0)))
          (attach-other dir place n t (t.left x) l al bl hl),
      subst (λ z. IsShape (attach dir place n t) z r)
          (sym (attach-right dir place n x t (ne_sym ar.0) (ne_sym br.0)))
          (attach-other dir place n t (t.right x) r ar.1 br.1 hr),
    )

-- The new node is a tree of its own.
pub attach-node :
    (dir : Bool) (place n : ℕ) (t : RedBlack)
    → n ≢ 0
    → n ≢ t.sentinel
    → IsShape (attach dir place n t) n (fork leaf n leaf)
attach-node true place n t h k = (refl, h, k, rw (eq_test n) refl, rw (eq_test n) refl)
attach-node false place n t h k = (refl, h, k, rw (eq_test n) refl, rw (eq_test n) refl)

-- Insertion into a search tree.
abbrev pub insert_shape : (ℕ → ℕ → Bool) → (ℕ → ℕ) → ℕ → Shape → Shape
insert_shape less key n leaf = fork leaf n leaf
insert_shape less key n (fork l x r) =
    let l' = insert_shape less key n l in
    let r' = insert_shape less key n r in if less (key n) (key x) then fork l' x r else fork l x r'

cross-step :
    (u : ℕ) (us vs : List ℕ)
    → IsOut u vs
    → All (λ v. IsOut v us) vs
    → All (λ v. IsOut v (u ∷ us)) vs
cross-step u us [] h k = tt
cross-step u us (v ∷ vs) h k = ((ne_sym h.0, k.0), cross-step u us vs h.1 k.1)

All-nil : (vs : List ℕ) → All (λ v. IsOut v []) vs
All-nil [] = tt
All-nil (v ∷ vs) = (tt, All-nil vs)

pub cross-sym : (us vs : List ℕ) → All (λ u. IsOut u vs) us → All (λ v. IsOut v us) vs
cross-sym [] vs h = All-nil vs
cross-sym (u ∷ us) vs h = cross-step u us vs h.0 (cross-sym us vs h.1)

pub All-away :
    (place : ℕ) (us vs : List ℕ)
    → ((y : ℕ) → IsOut y us → place ≢ y)
    → All (λ v. IsOut v us) vs
    → IsOut place vs
All-away place us [] f h = tt
All-away place us (v ∷ vs) f h = (ne_sym (f v h.0), All-away place us vs f h.1)

pub All-tails : (x : ℕ) (us vs : List ℕ) → All (λ u. IsOut u (x ∷ vs)) us → All (λ u. IsOut u vs) us
All-tails x [] vs h = tt
All-tails x (u ∷ us) vs h = (h.0.1, All-tails x us vs h.1)
