-- ===== src/Upstream/IpHash/Slot.antt =====
-- The hash of an address, and the slots of the weights that it is looked up in.
use inside_nginx.Base.{
  ap, ℕ, zero, suc, ◌+◌, ◌-◌, ◌*◌, ◌%◌, ◌≤◌, ◌<◌, ◌≡◌, refl, inl, inr, some, List, [], ◌∷◌, arith,
  Bool-cases, get_elem?, All,
}
use inside_nginx.Base.Int.{pos, ◌-ℤ◌, ◌≤ℤ◌, leb_ℤ, pos_part}
use inside_nginx.Base.Words.{add64, mul64}
use inside_nginx.Upstream.Peer.{Peer}
use inside_nginx.Upstream.Init.Groups.{weight_sum}
use inside_nginx.Upstream.IpHash.{hash_bytes, pick}

-- The weights are not negative.
abbrev pub IsWeighted : Peer → Type 0
IsWeighted p = pos 0 ≤ℤ p.weight

-- The weights of the first n peers.
unfoldable pub weight_before : ℕ → List Peer → ℕ
weight_before zero ps = 0
weight_before (suc n) [] = 0
weight_before (suc n) (p ∷ ps) = pos_part p.weight + weight_before n ps

-- Position k is that of the peer q, whose slot, of the width of its weight, w lies in.
pub record IsSlot (w : ℕ) (ps : List Peer) (start k : ℕ) (q : Peer) : Type 0 where
  pub offset : ℕ
  pub place : k ≡ start + offset
  pub found : get_elem? ps offset ≡ some q
  pub low : weight_before offset ps ≤ w
  pub high : w < weight_before offset ps + pos_part q.weight

sub_weight :
    (n : ℕ) (p : Peer)
    → IsWeighted p
    → pos_part p.weight ≤ n
    → pos n -ℤ p.weight ≡ pos (n - pos_part p.weight)
unfolding ◌-ℤ◌
sub_weight n p h k = ground arith

-- For a number below the sum of the weights, none of them negative, the loop over the weights finds
-- the peer in whose slot the number lies.
pub pick-IsSlot :
    (w : ℕ) (ps : List Peer) (start : ℕ)
    → All IsWeighted ps
    → w < weight_sum ps
    → (k : ℕ) × (q : Peer) × (pick (pos w) ps start ≡ some (k, q)) × IsSlot w ps start k q
unfolding pick weight_sum weight_before
pick-IsSlot w [] start v h = absurd (omega arith)
pick-IsSlot w (p ∷ ps) start v h = elim (Bool-cases (leb_ℤ p.weight (pos w))) [
  | inr e ↦ (
    start,
    p,
    rw e,
    record {
      offset = 0;
      place = omega arith;
      found = refl;
      low = omega arith;
      high = ground (arith, v.0);
    },
  )
  | inl e ↦
      let le : pos_part p.weight ≤ w = ground (arith, v.0) in
      let (k, q, at, s) = pick-IsSlot (w - pos_part p.weight) ps (start + 1) v.1 (omega arith) in
      (
        k,
        q,
        rw (e, sub_weight w p v.0 le) at,
        record {
          offset = suc s.offset;
          place = omega (arith, s.place);
          found = s.found;
          low = omega (arith, s.low);
          high = omega (arith, s.high);
        },
      )
]

-- No other peer has the number in its slot.
IsSlot-tail :
    (w : ℕ) (p : Peer) (ps : List Peer) (start k : ℕ) (q : Peer)
    → pos_part p.weight ≤ w
    → IsSlot w (p ∷ ps) start k q
    → IsSlot (w - pos_part p.weight) ps (start + 1) k q
unfolding weight_before
IsSlot-tail w p ps start k q le s = go s.offset s.place s.found s.low s.high
  where
    go :
        (n : ℕ)
        → k ≡ start + n
        → get_elem? (p ∷ ps) n ≡ some q
        → weight_before n (p ∷ ps) ≤ w
        → w < weight_before n (p ∷ ps) + pos_part q.weight
        → IsSlot (w - pos_part p.weight) ps (start + 1) k q
    go zero at found low high =
        let same : p ≡ q = cc in
        absurd (omega (arith, high, le, ap (λ (x : Peer). pos_part x.weight) same))
    go (suc n) at found low high = record {
      offset = n;
      place = omega (arith, at);
      found = found;
      low = omega (arith, low);
      high = omega (arith, high);
    }

IsSlot-head :
    (w : ℕ) (p : Peer) (ps : List Peer) (start k : ℕ) (q : Peer)
    → w < pos_part p.weight
    → IsSlot w (p ∷ ps) start k q
    → (k ≡ start) × (p ≡ q)
unfolding weight_before
IsSlot-head w p ps start k q less s = go s.offset s.place s.found s.low
  where
    go :
        (n : ℕ)
        → k ≡ start + n
        → get_elem? (p ∷ ps) n ≡ some q
        → weight_before n (p ∷ ps) ≤ w
        → (k ≡ start) × (p ≡ q)
    go zero at found low = (omega (arith, at), cc)
    go (suc n) at found low = absurd (omega (arith, low, less))

pub pick-of_IsSlot :
    (w : ℕ) (ps : List Peer) (start k : ℕ) (q : Peer)
    → All IsWeighted ps
    → IsSlot w ps start k q
    → pick (pos w) ps start ≡ some (k, q)
unfolding pick weight_before
pick-of_IsSlot w [] start k q v s = absurd (none_found s.offset s.found)
  where
    none_found : (n : ℕ) → get_elem? {A = Peer} [] n ≡ some q → ⊥
    none_found n h = cc
pick-of_IsSlot w (p ∷ ps) start k q v s = elim (Bool-cases (leb_ℤ p.weight (pos w))) [
  | inl e ↦
      let le : pos_part p.weight ≤ w = ground (arith, v.0) in
      rw (e, sub_weight w p v.0 le)
        (pick-of_IsSlot (w - pos_part p.weight) ps (start + 1) k q v.1
          (IsSlot-tail w p ps start k q le s))
  | inr e ↦
      let (at, same) = IsSlot-head w p ps start k q (ground (arith, v.0)) s in rw (e, at, same)
]

abbrev pub IsByte : ℕ → Type 0
IsByte b = b < 256

-- The hash in numbers that do not wrap.
unfoldable pub hash_spec : List ℕ → ℕ → ℕ
hash_spec [] h = h
hash_spec (b ∷ bs) h = hash_spec bs ((h * 113 + b) % 6271)

-- On the bytes of an address and from a hash below 6271 no word of the loop wraps, and the hash stays
-- below 6271.
pub hash_bytes_lem :
    (bs : List ℕ) (h : ℕ)
    → All IsByte bs
    → h < 6271
    → (hash_bytes bs h ≡ hash_spec bs h) × (hash_bytes bs h < 6271)
unfolding hash_bytes hash_spec
hash_bytes_lem [] h v k = (refl, k)
hash_bytes_lem (b ∷ bs) h v k =
    let same : add64 (mul64 h 113) b % 6271 ≡ (h * 113 + b) % 6271 = omega (arith, v.0) in
    rw same (hash_bytes_lem bs ((h * 113 + b) % 6271) v.1 (omega arith))
