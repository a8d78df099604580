-- ===== src/Queue/Splice.antt =====
-- ngx_queue_split and ngx_queue_merge on the nodes of queues.
use inside_nginx.Base.{
  ℕ, ◌≡◌, refl, sym, ap, ◌∙◌, ◌≢◌, List, [], ◌∷◌, ◌++◌, ◌==◌, if◌then◌else◌, All,
}
use inside_nginx.Queue.{Nodes, split, merge}
use inside_nginx.Queue.Ring.{IsLink, IsChain, IsOut, IsApart, ne_test, eq_test}

-- A change of the nodes that keeps all links of a chain but the last, which gets a new end.
pub IsChain-redirect :
    (s s' : Nodes) (N P : ℕ → Type 0) (a : ℕ) (xs : List ℕ) (b b' : ℕ)
    → ((u v : ℕ) → N u → P v → IsLink s u v → IsLink s' u v)
    → ((u : ℕ) → N u → IsLink s u b → IsLink s' u b')
    → N a
    → All N xs
    → All P xs
    → IsChain s a xs b
    → IsChain s' a xs b'
IsChain-redirect s s' N P a [] b b' keep turn n ns ps c = turn a n c
IsChain-redirect s s' N P a (x ∷ xs) b b' keep turn n ns ps (l, c) =
    (keep a x n ps.0 l, IsChain-redirect s s' N P x xs b b' keep turn ns.0 ns.1 ps.1 c)

-- The end of a chain follows the node before it.
pub IsChain-end :
    (s : Nodes) (a : ℕ) (xs : List ℕ) (b : ℕ) → IsChain s a xs b → s.next (s.prev b) ≡ b
IsChain-end s a [] b l = ap s.next l.1 ∙ l.0
IsChain-end s a (x ∷ xs) b (l, c) = IsChain-end s x xs b c

pub IsChain-cut :
    (s : Nodes) (a : ℕ) (us : List ℕ) (q : ℕ) (vs : List ℕ) (b : ℕ)
    → IsChain s a (us ++ q ∷ vs) b
    → IsChain s a us q × IsChain s q vs b
IsChain-cut s a [] q vs b c = c
IsChain-cut s a (u ∷ us) q vs b (l, c) = let (d, e) = IsChain-cut s u us q vs b c in ((l, d), e)

pub IsChain-join :
    (s : Nodes) (a : ℕ) (us : List ℕ) (q : ℕ) (vs : List ℕ) (b : ℕ)
    → IsChain s a us q
    → IsChain s q vs b
    → IsChain s a (us ++ q ∷ vs) b
IsChain-join s a [] q vs b c d = (c, d)
IsChain-join s a (u ∷ us) q vs b (l, c) d = (l, IsChain-join s u us q vs b c d)

pub All-cut : (P : ℕ → Type 0) (us vs : List ℕ) → All P (us ++ vs) → All P us × All P vs
All-cut P [] vs h = (tt, h)
All-cut P (u ∷ us) vs h = let (k, l) = All-cut P us vs h.1 in ((h.0, k), l)

pub All-join : (P : ℕ → Type 0) (us vs : List ℕ) → All P us → All P vs → All P (us ++ vs)
All-join P [] vs h k = k
All-join P (u ∷ us) vs h k = (h.0, All-join P us vs h.1 k)

-- The nodes of two parts are apart.
pub IsApart-cut :
    (us vs : List ℕ) → IsApart (us ++ vs) → IsApart us × IsApart vs × All (λ u. IsOut u vs) us
IsApart-cut [] vs h = (tt, h, tt)
IsApart-cut (u ∷ us) vs h =
    let (k, l, m) = IsApart-cut us vs h.1 in
    let (o, p) = All-cut (λ x. x ≢ u) us vs h.0 in ((o, k), l, (p, m))

pub IsApart-join :
    (us vs : List ℕ) → IsApart us → IsApart vs → All (λ u. IsOut u vs) us → IsApart (us ++ vs)
IsApart-join [] vs h k m = k
IsApart-join (u ∷ us) vs h k m = (All-join (λ x. x ≢ u) us vs h.0 m.0, IsApart-join us vs h.1 k m.1)

-- A link that is not one from p or from r.
pub from_other : (s : Nodes) (p q u v : ℕ) → s.next p ≡ q → s.next u ≡ v → q ≢ v → p ≢ u
from_other s p q u v e f h same = h (sym e ∙ ap s.next same ∙ f)

pub split-next :
    (h q n y : ℕ) (s : Nodes)
    → n ≢ q
    → (split h q n s).next y
      ≡ (if s.prev q == y then h else if n == y then q else if s.prev h == y then n else s.next y)
unfolding split
split-next h q n y s e = rw (ne_test n q e, eq_test h, eq_test n) refl

pub split-prev :
    (h q n y : ℕ) (s : Nodes)
    → n ≢ q
    → (split h q n s).prev y
      ≡ (if q == y then n else if h == y then s.prev q else if n == y then s.prev h else s.prev y)
unfolding split
split-prev h q n y s e = rw (ne_test n q e) refl

pub merge-next :
    (h n y : ℕ) (s : Nodes)
    → s.prev h ≢ n
    → s.next n ≢ n
    → (merge h n s).next y
      ≡ (if s.prev n == y then h else if s.prev h == y then s.next n else s.next y)
unfolding merge
merge-next h n y s e f = rw (ne_test (s.prev h) n e, ne_test (s.next n) n f, eq_test h) refl

pub merge-prev :
    (h n y : ℕ) (s : Nodes)
    → s.prev h ≢ n
    → s.next n ≢ n
    → (merge h n s).prev y
      ≡ (if h == y then s.prev n else if s.next n == y then s.prev h else s.prev y)
unfolding merge
merge-prev h n y s e f = rw (ne_test (s.prev h) n e, ne_test (s.next n) n f) refl
