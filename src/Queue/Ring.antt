-- ===== src/Queue/Ring.antt =====
-- The nodes that a queue consists of, and what an insertion and a removal do to them.
use inside_nginx.Base.{
  ℕ, ◌≡◌, refl, sym, ◌∙◌, ◌≢◌, true, false, List, [], ◌∷◌, arith, ◌==◌, if◌then◌else◌, All,
}
use inside_nginx.Queue.{Nodes, insert_head, remove}

-- Two nodes that follow each other.
abbrev pub IsLink : Nodes → ℕ → ℕ → Type 0
IsLink s a b = (s.next a ≡ b) × (s.prev b ≡ a)

-- From a along the nodes xs to b.
abbrev pub IsChain : Nodes → ℕ → List ℕ → ℕ → Type 0
IsChain s a [] b = IsLink s a b
IsChain s a (x ∷ xs) b = IsLink s a x × IsChain s x xs b

-- The address differs from all of these.
abbrev pub IsOut : ℕ → List ℕ → Type 0
IsOut a xs = All (λ x. x ≢ a) xs

abbrev pub IsApart : List ℕ → Type 0
IsApart [] = Unit
IsApart (x ∷ xs) = IsOut x xs × IsApart xs

-- The queue with the sentinel h consists of the nodes xs in their order.
abbrev pub IsQueue : Nodes → ℕ → List ℕ → Type 0
IsQueue s h xs = IsChain s h xs h × IsApart (h ∷ xs)

pub ne_test : (x y : ℕ) → x ≢ y → (x == y) ≡ false
ne_test x y h = ground (arith, h)

pub eq_test : (x : ℕ) → (x == x) ≡ true
eq_test x = ground arith

pub insert_head-next :
    (h x y : ℕ) (s : Nodes)
    → (insert_head h x s).next y ≡ (if h == y then x else if x == y then s.next h else s.next y)
unfolding insert_head
insert_head-next h x y s = refl

pub insert_head-prev :
    (h x y : ℕ) (s : Nodes)
    → (insert_head h x s).prev y ≡ (if x == y then h else if s.next h == y then x else s.prev y)
unfolding insert_head
insert_head-prev h x y s = rw (eq_test x) refl

-- A link that does not use the places of an insertion stays.
pub insert_head-other :
    (h x a b : ℕ) (s : Nodes)
    → h ≢ a
    → x ≢ a
    → x ≢ b
    → s.next h ≢ b
    → IsLink s a b
    → IsLink (insert_head h x s) a b
insert_head-other h x a b s e f g k l = (
  insert_head-next h x a s ∙ rw (ne_test h a e, ne_test x a f) l.0,
  insert_head-prev h x b s ∙ rw (ne_test x b g, ne_test (s.next h) b k) l.1,
)

-- The links of a node that is inserted after h.
pub insert_head-IsLink :
    (h x b : ℕ) (s : Nodes)
    → h ≢ x
    → x ≢ b
    → IsLink s h b
    → IsLink (insert_head h x s) h x × IsLink (insert_head h x s) x b
insert_head-IsLink h x b s e f l = (
  (insert_head-next h x h s ∙ rw (eq_test h) refl, insert_head-prev h x x s ∙ rw (eq_test x) refl),
  (
    insert_head-next h x x s ∙ rw (ne_test h x e, eq_test x) l.0,
    insert_head-prev h x b s ∙ rw (ne_test x b f, l.0, eq_test b) refl,
  ),
)

-- A link that does not use the places of a removal stays.
pub remove-other :
    (x a b : ℕ) (s : Nodes)
    → x ≢ a
    → x ≢ b
    → s.prev x ≢ a
    → s.next x ≢ b
    → s.next x ≢ x
    → IsLink s a b
    → IsLink (remove x s) a b
unfolding remove
remove-other x a b s e f g k m l =
    rw
      (
        ne_test (s.next x) x m,
        ne_test x a e,
        ne_test x b f,
        ne_test (s.prev x) a g,
        ne_test (s.next x) b k,
      )
      l

-- The neighbours of a node that is removed follow each other.
pub remove-IsLink :
    (x a b : ℕ) (s : Nodes) → x ≢ a → x ≢ b → IsLink s a x → IsLink s x b → IsLink (remove x s) a b
unfolding remove
remove-IsLink x a b s e f l k =
    rw (l.1, k.0, ne_test b x (λ q. f (sym q)), ne_test x a e, ne_test x b f, eq_test a, eq_test b)
      (refl, refl)
