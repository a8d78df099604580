-- ===== src/Upstream/LeastConn/Ratio.antt =====
-- The comparison of connections per weight in ngx_http_upstream_get_least_conn_peer.
use native.Mathlib.Nat.{mul-le-mul, mul-le-mul_right, le_of_mul-le-mul_right, le_refl}
use inside_nginx.Base.{
  ℕ, zero, suc, ◌+◌, ◌*◌, ◌^◌, ◌≤◌, ◌<◌, ◌≡◌, inl, inr, Bool, false, none, some, List, [], ◌∷◌,
  arith, ltb, Bool-cases, get_elem?, All,
}
use inside_nginx.Base.Int.{ℤ, pos, negsuc, pos_part}
use inside_nginx.Base.Words.{to_u64}
use inside_nginx.Upstream.Peer.{Peer}
use inside_nginx.Upstream.RoundRobin.{Best, is_skipped}
use inside_nginx.Upstream.LeastConn.{load, lighter, scan_least}

-- A positive weight, and connections whose products with the weights of others fit a word: both
-- stay below 2 ^ 31.
pub record IsSmall (p : Peer) : Type 0 where
  pub positive : 0 < pos_part p.weight
  pub weight_small : pos_part p.weight < 2 ^ 31
  pub conns_small : p.conns < 2 ^ 31

-- a has no more connections per weight than b.
infix 50 ◌≼◌
abbrev pub ◌≼◌ : Peer → Peer → Type 0
◌≼◌ a b = a.conns * pos_part b.weight ≤ b.conns * pos_part a.weight

mul-lt : (a b : ℕ) → a < 2 ^ 31 → b < 2 ^ 31 → a * b < 2 ^ 64
mul-lt a b h k =
    omega
      (arith, mul-le-mul {n₁ = a} {m₁ = b} {n₂ = 2 ^ 31} {m₂ = 2 ^ 31} (omega arith) (omega arith))

to_u64-small : (w : ℤ) → 0 < pos_part w → pos_part w < 2 ^ 31 → to_u64 w ≡ pos_part w
to_u64-small (pos n) h k = omega arith
to_u64-small (negsuc n) h k = absurd (omega arith)

pub load-small : (a b : Peer) → IsSmall a → IsSmall b → load a b ≡ a.conns * pos_part b.weight
unfolding load
load-small a b u v =
    rw (to_u64-small b.weight v.positive v.weight_small)
      (omega (arith, mul-lt a.conns (pos_part b.weight) u.conns_small v.weight_small))

pub ≼-trans : (a b c : Peer) → 0 < pos_part b.weight → a ≼ b → b ≼ c → a ≼ c
≼-trans a b c h k l =
    le_of_mul-le-mul_right {k = pos_part b.weight}
      (omega
        (arith, mul-le-mul_right (pos_part c.weight) k, mul-le-mul_right (pos_part a.weight) l))
      h

-- The best peer so far has no more connections per weight than x.
abbrev pub Below : Peer → Best → Type 0
Below x none = ⊥
Below x (some (k, b)) = b ≼ x

abbrev pub SmallBest : Best → Type 0
SmallBest none = Unit {0}
SmallBest (some (k, b)) = IsSmall b

module _ (i : ℕ) (p : Peer) (u : IsSmall p) where
  lighter-keeps :
      (x : Peer) (found : Best × Bool)
      → SmallBest found.0
      → Below x found.0
      → Below x (lighter i p found).0
  unfolding lighter
  lighter-keeps x (none, many) s h = absurd h
  lighter-keeps x (some (k, b), many) s h = elim (Bool-cases (ltb (load p b) (load b p))) [
    | inl e ↦
        rw e (≼-trans p b x s.positive (ground (arith, load-small p b u s, load-small b p s u)) h)
    | inr e ↦ rw e (ground arith)
  ]

  lighter-Below : (found : Best × Bool) → SmallBest found.0 → Below p (lighter i p found).0
  unfolding lighter
  lighter-Below (none, many) s = le_refl _
  lighter-Below (some (k, b), many) s = elim (Bool-cases (ltb (load p b) (load b p))) [
    | inl e ↦ rw e (le_refl _)
    | inr e ↦ rw e (ground (arith, load-small p b u s, load-small b p s u))
  ]

  lighter-Small : (found : Best × Bool) → SmallBest found.0 → SmallBest (lighter i p found).0
  unfolding lighter
  lighter-Small (none, many) s = u
  lighter-Small (some (k, b), many) s = elim (Bool-cases (ltb (load p b) (load b p))) [
    | inl e ↦ rw e u
    | inr e ↦ rw e (ground arith)
  ]

module _ (now : ℤ) (tried : List ℕ) where
  scan_least-keeps :
      (i : ℕ) (ps : List Peer) (x : Peer) (found : Best × Bool)
      → All IsSmall ps
      → SmallBest found.0
      → Below x found.0
      → Below x (scan_least now tried i ps found).0
  unfolding scan_least
  scan_least-keeps i [] x found u s h = h
  scan_least-keeps i (p ∷ ps) x found u s h = elim (Bool-cases (is_skipped now tried i p)) [
    | inl e ↦ rw (e, scan_least) (scan_least-keeps (i + 1) ps x found u.1 s h)
    | inr e ↦
        rw (e, scan_least)
          (scan_least-keeps (i + 1) ps x (lighter i p found) u.1 (lighter-Small i p u.0 found s)
            (lighter-keeps i p u.0 x found s h))
  ]

  pub scan_least-Below :
      (i j : ℕ) (ps : List Peer) (q : Peer) (found : Best × Bool)
      → All IsSmall ps
      → SmallBest found.0
      → get_elem? ps j ≡ some q
      → is_skipped now tried (i + j) q ≡ false
      → Below q (scan_least now tried i ps found).0
  unfolding scan_least
  scan_least-Below i j [] q found u s at free = cc
  scan_least-Below i zero (p ∷ ps) q found u s at free =
      let here : i + 0 ≡ i = omega arith in
      let same : p ≡ q = cc in
      let e : is_skipped now tried i p ≡ false = rw (same, ← here) free in
      rw (e, scan_least)
        (scan_least-keeps (i + 1) ps q (lighter i p found) u.1 (lighter-Small i p u.0 found s)
          (rw (← same) (lighter-Below i p u.0 found s)))
  scan_least-Below i (suc j) (p ∷ ps) q found u s at free =
      let there : i + suc j ≡ i + 1 + j = omega arith in
      let free' = rw there at free in
      elim (Bool-cases (is_skipped now tried i p)) [
        | inl e ↦ rw (e, scan_least) (scan_least-Below (i + 1) j ps q found u.1 s at free')
        | inr e ↦
            rw (e, scan_least)
              (scan_least-Below (i + 1) j ps q (lighter i p found) u.1
                (lighter-Small i p u.0 found s) at free')
      ]
