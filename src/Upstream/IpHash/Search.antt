-- ===== src/Upstream/IpHash/Search.antt =====
-- The loop of ngx_http_upstream_get_ip_hash_peer.
use inside_nginx.Base.{
  ok, ◌*◌, length, ℕ, zero, suc, ◌+◌, ◌%◌, ◌≤◌, ◌<◌, ◌≡◌, refl, ap, ◌∙◌, ◌≢◌, inl, inr, true, false,
  ◌||◌, some, List, [], ◌∷◌, arith, ltb, ◌==◌, Bool-cases, Rc, get_elem?, All,
}
use inside_nginx.Base.Int.{ℤ, pos}
use inside_nginx.Upstream.Peer.{reset, Peer, Peers, PeerConnection}
use inside_nginx.Upstream.RoundRobin.{is_skipped}
use inside_nginx.Upstream.Init.Groups.{IsGroup, weight_sum}
use inside_nginx.Upstream.IpHash.{
  finish, IpHashPeerData, Outcome, chosen, fall_back, fault, search, max_rounds, hash_bytes, pick,
  get_ip_hash_peer, take_hashed, by_round_robin,
}
use inside_nginx.Upstream.IpHash.Slot.{IsWeighted, IsSlot, pick-IsSlot, pick-of_IsSlot}
use inside_nginx.Upstream.Tried.{word_bits}
use inside_nginx.Upstream.IpHash.Taken.{IsTaken, take_hashed-IsTaken}
use inside_nginx.Upstream.RoundRobin.Invariant.{IsPeer}

-- A group whose slots the hash can be looked up in.
pub record IsSlotted (g : Peers) : Type 0 where
  pub weights : g.total_weight ≡ weight_sum g.peer
  pub some_weight : 0 < g.total_weight
  pub weighted : All IsWeighted g.peer

IsPeer-IsWeighted : (p : Peer) → IsPeer p → IsWeighted p
IsPeer-IsWeighted p v = omega (arith, v.low, v.high)

All-IsWeighted : (ps : List Peer) → All IsPeer ps → All IsWeighted ps
All-IsWeighted [] v = tt
All-IsWeighted (p ∷ ps) v = (IsPeer-IsWeighted p v.0, All-IsWeighted ps v.1)

-- A group from the configuration is one, unless all its weights are zero.
pub IsGroup-IsSlotted : (g : Peers) → IsGroup g → 0 < g.total_weight → IsSlotted g
IsGroup-IsSlotted g v h = record {
  weights = v.weights;
  some_weight = h;
  weighted = All-IsWeighted g.peer v.peers_valid;
}

module _ (now : ℤ) (tried : List ℕ) (g : Peers) (addr : List ℕ) (s : IsSlotted g) where
  IsSlot-of :
      (h : ℕ)
      → (k : ℕ) × (q : Peer) × (pick (pos (h % g.total_weight)) g.peer 0 ≡ some (k, q))
        × IsSlot (h % g.total_weight) g.peer 0 k q
  IsSlot-of h =
      pick-IsSlot (h % g.total_weight) g.peer 0 s.weighted (omega (arith, s.weights, s.some_weight))

  weight_ne_zero : (g.total_weight == 0) ≡ false
  weight_ne_zero = ground (arith, s.some_weight)

  -- With 21 rounds less those that were tried, the loop ends without a fault.
  search-ne-fault :
      (fuel hash tries : ℕ)
      → 21 ≤ fuel + tries
      → tries ≤ 20
      → search fuel now tried g addr hash tries ≢ fault
  unfolding search
  search-ne-fault zero hash tries h k = absurd (omega arith)
  search-ne-fault (suc fuel) hash tries h k =
      let (p, q, at, _) = IsSlot-of (hash_bytes addr hash) in
      rw (weight_ne_zero, at)
        (elim (Bool-cases (is_skipped now tried p q)) [
          | inr e ↦ rw e (λ c. cc)
          | inl e ↦ rw e (elim (Bool-cases (ltb 20 (tries + 1))) [
            | inl t ↦ rw t (λ c. cc)
            | inr t ↦ rw t (
                search-ne-fault fuel (hash_bytes addr hash) (tries + 1) (omega arith)
                  (ground arith))
          ])
        ])

  -- Where the peer of the slot can be handed out, the first round chooses it.
  search-first :
      (fuel hash tries k : ℕ) (q : Peer)
      → IsSlot (hash_bytes addr hash % g.total_weight) g.peer 0 k q
      → is_skipped now tried k q ≡ false
      → search (suc fuel) now tried g addr hash tries ≡ chosen k (hash_bytes addr hash) tries
  unfolding search
  search-first fuel hash tries k q slot free =
      rw (weight_ne_zero, pick-of_IsSlot _ g.peer 0 k q s.weighted slot, free)

module _ (now : ℤ) (groups : List Peers) (pc : PeerConnection) (iphp : IpHashPeerData)
    (g : Peers) where
  by_rules :
      get_elem? groups iphp.rrp.peers ≡ some g
      → (ltb 20 iphp.tries || g.single) ≡ true
      → get_ip_hash_peer now groups pc iphp ≡ some (by_round_robin now groups pc iphp)
  unfolding get_ip_hash_peer
  by_rules at e = rw (at, get_ip_hash_peer, e)

  by_hash :
      get_elem? groups iphp.rrp.peers ≡ some g
      → (ltb 20 iphp.tries || g.single) ≡ false
      → get_ip_hash_peer now groups pc iphp
        ≡ finish now groups pc iphp g
            (search max_rounds now iphp.rrp.tried g iphp.addr iphp.hash iphp.tries)
  unfolding get_ip_hash_peer
  by_hash at e = rw (at, get_ip_hash_peer, e)

  finish-total :
      (o : Outcome)
      → o ≢ fault
      → (r : Rc × List Peers × PeerConnection × IpHashPeerData) × (finish now groups pc iphp g o
          ≡ some r)
  unfolding finish
  finish-total (chosen p hash tries) ne = (take_hashed now groups pc iphp g p hash tries, refl)
  finish-total (fall_back tries) ne =
      (by_round_robin now groups (reset pc) (record iphp { tries = tries }), refl)
  finish-total fault ne = absurd (ne refl)

-- On a group of the configuration whose total weight is not zero, ngx_http_upstream_get_ip_hash_peer
-- returns: it follows no NULL, does not divide by zero and ends within 21 rounds.
pub get_ip_hash_peer-total :
    (now : ℤ) (groups : List Peers) (pc : PeerConnection) (iphp : IpHashPeerData) (g : Peers)
    → get_elem? groups iphp.rrp.peers ≡ some g
    → IsGroup g
    → 0 < g.total_weight
    → (r : Rc × List Peers × PeerConnection × IpHashPeerData) × (get_ip_hash_peer now groups pc iphp
        ≡ some r)
get_ip_hash_peer-total now groups pc iphp g at v h =
    elim (Bool-cases (ltb 20 iphp.tries || g.single)) [
      | inl e ↦ (by_round_robin now groups pc iphp, by_rules now groups pc iphp g at e)
      | inr e ↦
          let ends =
            search-ne-fault now iphp.rrp.tried g iphp.addr (IsGroup-IsSlotted g v h) max_rounds
              iphp.hash iphp.tries (omega arith) (ground arith) in
          let (r, done) = finish-total now groups pc iphp g _ ends in
          (r, by_hash now groups pc iphp g at e ∙ done)
    ]

-- A client gets the peer of the slot that the hash of its address falls into, as long as it has not
-- passed its tries, the group has several peers, and that peer is not marked in the bitmap, not
-- down, not failed out and not full. This peer becomes the current one, with its address in the
-- connection, its bit set in the bitmap, for which the bitmap must have room, and one connection
-- more; the other bits, peers and groups stay. No second address is tried: the hash is that of one
-- round, and no try is added.
pub get_ip_hash_peer-slot :
    (now : ℤ) (groups : List Peers) (pc : PeerConnection) (iphp : IpHashPeerData) (g : Peers)
    (k : ℕ) (q : Peer)
    → get_elem? groups iphp.rrp.peers ≡ some g
    → IsGroup g
    → 0 < g.total_weight
    → iphp.tries ≤ 20
    → g.single ≡ false
    → IsSlot (hash_bytes iphp.addr iphp.hash % g.total_weight) g.peer 0 k q
    → is_skipped now iphp.rrp.tried k q ≡ false
    → k < length iphp.rrp.tried * word_bits
    → (groups' : List Peers) × (pc' : PeerConnection) × (iphp' : IpHashPeerData) × (get_ip_hash_peer
          now groups pc iphp
        ≡ some (ok, groups', pc', iphp'))
      × IsTaken groups iphp g k q groups' pc' iphp'
      × (iphp'.hash ≡ hash_bytes iphp.addr iphp.hash)
      × (iphp'.tries ≡ iphp.tries)
unfolding finish take_hashed
get_ip_hash_peer-slot now groups pc iphp g k q at v h few several slot free room =
    let more : (ltb 20 iphp.tries || g.single) ≡ false = ground arith in
    let hash = hash_bytes iphp.addr iphp.hash in
    let place : k ≡ slot.offset = omega (arith, slot.place) in
    let found : get_elem? g.peer k ≡ some q = rw place slot.found in
    let r = take_hashed now groups pc iphp g k hash iphp.tries in
    (
      r.1,
      r.2,
      r.3,
      by_hash now groups pc iphp g at more
          ∙ ap (finish now groups pc iphp g) (
              search-first now iphp.rrp.tried g iphp.addr (IsGroup-IsSlotted g v h) 20 iphp.hash
                iphp.tries k q slot free),
      take_hashed-IsTaken now groups pc iphp g k hash iphp.tries q at found room,
      refl,
      refl,
    )
