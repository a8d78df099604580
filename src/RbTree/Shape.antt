-- ===== src/RbTree/Shape.antt =====
-- The nodes that a red-black tree consists of.
use inside_nginx.Base.{ℕ, suc, ◌+◌, ◌≡◌, ◌≢◌, List, [], ◌∷◌, ◌++◌}
use inside_nginx.RbTree.{RedBlack}

pub data Shape : Type 0 where
  leaf : Shape
  fork : Shape → ℕ → Shape → Shape

-- The address p stands for a tree of these nodes; a leaf is the sentinel.
abbrev pub IsShape : RedBlack → ℕ → Shape → Type 0
IsShape t p leaf = p ≡ t.sentinel
IsShape t p (fork l x r) =
    (p ≡ x) × (x ≢ 0) × (x ≢ t.sentinel) × IsShape t (t.left x) l × IsShape t (t.right x) r

-- The nodes from the left to the right.
abbrev pub inorder : Shape → List ℕ
inorder leaf = []
inorder (fork l x r) = inorder l ++ x ∷ inorder r

abbrev pub size : Shape → ℕ
size leaf = 0
size (fork l x r) = suc (size l + size r)
