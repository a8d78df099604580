-- ===== src/Upstream/RoundRobin/Request.antt =====
-- The answer of ngx_http_upstream_get_round_robin_peer: the peer it takes and the connections.
use inside_nginx.Base.{
  subst, error, again, declined, busy, ok, All-modify, get_elem?-modify_self, ℕ, zero, suc, ◌+◌,
  ◌^◌, ◌≤◌, ◌<◌, ◌≡◌, refl, inl, inr, none, some, List, [], ◌∷◌, arith, Option-cases, Rc, get_elem?,
  All,
}
use inside_nginx.Base.Int.{ℤ}
use inside_nginx.Upstream.Peer.{Peer, Peers, RrPeerData, PeerConnection, connect, address, reset}
use inside_nginx.Upstream.RoundRobin.{
  name_if_busy, choose, take_peer, next_group, get_from, walk_to, get_round_robin_peer,
}
use inside_nginx.Upstream.RoundRobin.Invariant.{
  IsPeer, conns_of, conns_of-modify, choose-IsRoom, connect-IsPeer,
}

-- The connections that a chain of groups counts.
unfoldable pub total_conns : List Peers → ℕ
total_conns [] = 0
total_conns (g ∷ gs) = conns_of g.peer + total_conns gs

pub conns-le-of :
    (ps : List Peer) (i : ℕ) {p : Peer} → get_elem? ps i ≡ some p → p.conns ≤ conns_of ps
unfolding conns_of
conns-le-of [] i h = cc
conns-le-of (q ∷ ps) zero {p} h = let same : q ≡ p = cc in rw (← same) (omega arith)
conns-le-of (q ∷ ps) (suc i) h = omega (arith, conns-le-of ps i h)

-- What a choice leaves in the group, in the request and in the connection.
pub record Taken (now : ℤ) (g g' : Peers) (pc' : PeerConnection) (rrp rrp' : RrPeerData)
    : Type 0 where
  pub index : ℕ
  pub peer : Peer
  pub current : rrp'.current ≡ some (rrp.peers, index)
  pub same_group : rrp'.peers ≡ rrp.peers
  pub found : get_elem? g'.peer index ≡ some peer
  pub leased : 0 < peer.conns
  pub addressed :
      (pc'.sockaddr ≡ peer.sockaddr) × (pc'.socklen ≡ peer.socklen) × (pc'.name ≡ peer.name)
  pub counted : conns_of g'.peer ≡ conns_of g.peer + 1
  pub valid : All IsPeer g.peer → All IsPeer g'.peer

take_peer-Taken :
    (now : ℤ) (g : Peers) (pc : PeerConnection) (rrp : RrPeerData) (i : ℕ) (ps' : List Peer)
    (tried' : List ℕ)
    → conns_of g.peer + 1 < 2 ^ 64
    → choose now rrp.tried g ≡ some (i, ps', tried')
    → (let r = take_peer g (reset pc) rrp (i, ps', tried') in Taken now g r.0 r.1 rrp r.2)
unfolding take_peer address connect
take_peer-Taken now g pc rrp i ps' tried' fits h =
    let r = choose-IsRoom now rrp.tried g h in
    let le = conns-le-of ps' i r.found in
    let count : (connect r.peer).conns ≡ r.peer.conns + 1 = omega (arith, r.counted) in
    record {
      index = i;
      peer = connect r.peer;
      current = refl;
      same_group = refl;
      found = get_elem?-modify_self ps' i connect r.found;
      leased = omega (arith, count);
      addressed = rw (r.found, take_peer) (refl, refl, refl);
      counted = omega (arith, conns_of-modify ps' i connect r.found, r.counted);
      valid = λ v.
          All-modify IsPeer ps' i connect
            (λ p at w. connect-IsPeer p (ground (arith, r.room, r.found)) w) (r.valid v);
    }

-- A request that was answered: `current` is a peer of the group that `rrp->peers` points to, the
-- connection has its address, and it counts one connection more.
pub record Leased (groups groups' : List Peers) (pc' : PeerConnection) (from : ℕ)
    (rrp' : RrPeerData) : Type 0 where
  pub offset : ℕ
  pub place : rrp'.peers ≡ from + offset
  pub group : Peers
  pub at : get_elem? groups' offset ≡ some group
  pub index : ℕ
  pub peer : Peer
  pub current : rrp'.current ≡ some (rrp'.peers, index)
  pub found : get_elem? group.peer index ≡ some peer
  pub leased : 0 < peer.conns
  pub addressed :
      (pc'.sockaddr ≡ peer.sockaddr) × (pc'.socklen ≡ peer.socklen) × (pc'.name ≡ peer.name)
  pub counted : total_conns groups' ≡ total_conns groups + 1
  pub valid : All (λ g. All IsPeer g.peer) groups → All (λ g. All IsPeer g.peer) groups'

Taken-Leased :
    (now : ℤ) (g g' : Peers) (gs : List Peers) (pc' : PeerConnection) (rrp rrp' : RrPeerData)
    → Taken now g g' pc' rrp rrp'
    → Leased (g ∷ gs) (g' ∷ gs) pc' rrp.peers rrp'
unfolding total_conns
Taken-Leased now g g' gs pc' rrp rrp' t = record {
  offset = 0;
  place = omega (arith, t.same_group);
  group = g';
  at = refl;
  index = t.index;
  peer = t.peer;
  current = rw t.same_group t.current;
  found = t.found;
  leased = t.leased;
  addressed = t.addressed;
  counted = omega (arith, t.counted);
  valid = λ v. (t.valid v.0, v.1);
}

Leased-cons :
    (g : Peers) (groups groups' : List Peers) (pc' : PeerConnection) (from : ℕ) (rrp' : RrPeerData)
    → Leased groups groups' pc' (from + 1) rrp'
    → Leased (g ∷ groups) (g ∷ groups') pc' from rrp'
unfolding total_conns
Leased-cons g groups groups' pc' from rrp' l = record {
  offset = suc l.offset;
  place = omega (arith, l.place);
  group = l.group;
  at = l.at;
  index = l.index;
  peer = l.peer;
  current = l.current;
  found = l.found;
  leased = l.leased;
  addressed = l.addressed;
  counted = omega (arith, l.counted);
  valid = λ v. (v.0, l.valid v.1);
}

-- The three ways through one group.
module _ (now : ℤ) (g : Peers) (pc : PeerConnection) (rrp : RrPeerData) where
  get_from-taken :
      (gs : List Peers) (c : ℕ × List Peer × List ℕ)
      → choose now rrp.tried g ≡ some c
      → get_from now (g ∷ gs) pc rrp
        ≡ (let r = take_peer g (reset pc) rrp c in (ok, r.0 ∷ gs, r.1, r.2))
  unfolding get_from
  get_from-taken [] c e = rw (e, get_from)
  get_from-taken (n ∷ gs) c e = rw (e, get_from)

  get_from-last :
      choose now rrp.tried g ≡ none
      → get_from now (g ∷ []) pc rrp ≡ (busy, g ∷ [], name_if_busy busy g (reset pc), rrp)
  unfolding get_from
  get_from-last e = rw (e, get_from)

  get_from-next :
      (next : Peers) (rest : List Peers)
      → choose now rrp.tried g ≡ none
      → get_from now (g ∷ next ∷ rest) pc rrp ≡ (
          let r = get_from now (next ∷ rest) (reset pc) (next_group rrp next) in
          (r.0, g ∷ r.1, name_if_busy r.0 g r.2, r.3))
  unfolding get_from
  get_from-next next rest e = rw (e, get_from)

name_if_busy-ok : (rc : Rc) (g : Peers) (pc : PeerConnection) → rc ≡ ok → name_if_busy rc g pc ≡ pc
unfolding name_if_busy
name_if_busy-ok ok g pc h = refl
name_if_busy-ok error g pc h = refl
name_if_busy-ok again g pc h = refl
name_if_busy-ok busy g pc h = cc
name_if_busy-ok declined g pc h = refl

get_from-nil :
    (now : ℤ) (pc : PeerConnection) (rrp : RrPeerData)
    → get_from now [] pc rrp ≡ (busy, [], pc, rrp)
unfolding get_from
get_from-nil now pc rrp = refl

-- A reply that leases a peer, if it is NGX_OK.
abbrev IsAnswer : List Peers → ℕ → Rc × List Peers × PeerConnection × RrPeerData → Type 0
IsAnswer groups from (rc, groups', pc', rrp') = rc ≡ ok → Leased groups groups' pc' from rrp'

module _ (now : ℤ) where
  taken-IsAnswer :
      (g : Peers) (gs : List Peers) (pc : PeerConnection) (rrp : RrPeerData)
      (c : ℕ × List Peer × List ℕ)
      → conns_of g.peer + 1 < 2 ^ 64
      → choose now rrp.tried g ≡ some c
      → IsAnswer (g ∷ gs) rrp.peers (get_from now (g ∷ gs) pc rrp)
  taken-IsAnswer g gs pc rrp (i, ps', tried') fits e =
      rw (get_from-taken now g pc rrp gs (i, ps', tried') e)
        (λ _. Taken-Leased now g _ gs _ rrp _ (take_peer-Taken now g pc rrp i ps' tried' fits e))

  pub get_from-IsAnswer :
      (groups : List Peers) (pc : PeerConnection) (rrp : RrPeerData)
      → total_conns groups + 1 < 2 ^ 64
      → IsAnswer groups rrp.peers (get_from now groups pc rrp)
  unfolding total_conns next_group
  get_from-IsAnswer [] pc rrp fits = rw (get_from-nil now pc rrp) (λ h. cc)
  get_from-IsAnswer (g ∷ []) pc rrp fits = elim (Option-cases (choose now rrp.tried g)) [
    | inl e ↦ rw (get_from-last now g pc rrp e) (λ h. cc)
    | inr (c, e) ↦ taken-IsAnswer g [] pc rrp c (omega arith) e
  ]
  get_from-IsAnswer (g ∷ next ∷ rest) pc rrp fits = elim (Option-cases (choose now rrp.tried g)) [
    | inl e ↦
        let later =
          get_from-IsAnswer (next ∷ rest) (reset pc) (next_group rrp next) (omega arith) in
        rw (get_from-next now g pc rrp next rest e) (λ h.
          rw (name_if_busy-ok _ g _ h) (Leased-cons g (next ∷ rest) _ _ rrp.peers _ (later h)))
    | inr (c, e) ↦ taken-IsAnswer g (next ∷ rest) pc rrp c (omega arith) e
  ]

  walk_to-IsAnswer :
      (n base : ℕ) (groups : List Peers) (pc : PeerConnection) (rrp : RrPeerData)
      → rrp.peers ≡ base + n
      → total_conns groups + 1 < 2 ^ 64
      → IsAnswer groups base (walk_to (get_from now) n groups pc rrp)
  unfolding walk_to total_conns
  walk_to-IsAnswer zero base groups pc rrp at fits =
      let start : rrp.peers ≡ base = omega (arith, at) in
      subst (λ b. IsAnswer groups b (get_from now groups pc rrp)) start
        (get_from-IsAnswer groups pc rrp fits)
  walk_to-IsAnswer (suc n) base [] pc rrp at fits = λ h. cc
  walk_to-IsAnswer (suc n) base (g ∷ gs) pc rrp at fits = λ h.
      Leased-cons g gs _ _ base _
        (walk_to-IsAnswer n (base + 1) gs pc rrp (omega (arith, at)) (omega arith) h)

  pub get_round_robin_peer-Leased :
      (groups : List Peers) (pc : PeerConnection) (rrp : RrPeerData)
      → total_conns groups + 1 < 2 ^ 64
      → (get_round_robin_peer now groups pc rrp).0 ≡ ok
      → (let r = get_round_robin_peer now groups pc rrp in Leased groups r.1 r.2 0 r.3)
  unfolding get_round_robin_peer
  get_round_robin_peer-Leased groups pc rrp fits h =
      walk_to-IsAnswer rrp.peers 0 groups pc rrp (omega arith) fits h

-- Every peer of every group is valid.
abbrev pub AreValid : List Peers → Type 0
AreValid groups = All (λ g. All IsPeer g.peer) groups

-- A request that was answered: `current` is a peer of the group that `rrp->peers` points to, the
-- connection has its address, the peers count one connection more, and they are valid.
pub record IsLease (groups groups' : List Peers) (pc' : PeerConnection) (rrp' : RrPeerData)
    : Type 0 where
  pub group : Peers
  pub at : get_elem? groups' rrp'.peers ≡ some group
  pub index : ℕ
  pub peer : Peer
  pub current : rrp'.current ≡ some (rrp'.peers, index)
  pub found : get_elem? group.peer index ≡ some peer
  pub leased : 0 < peer.conns
  pub addressed :
      (pc'.sockaddr ≡ peer.sockaddr) × (pc'.socklen ≡ peer.socklen) × (pc'.name ≡ peer.name)
  pub counted : total_conns groups' ≡ total_conns groups + 1
  pub peers_valid : AreValid groups'

-- When ngx_http_upstream_get_round_robin_peer returns NGX_OK on groups of valid peers, `current` is
-- a peer of the group that `rrp->peers` now points to, the connection has the address and the name
-- of this peer, the peers together count one connection more, and they are still valid. The
-- connections counted before must leave room for one more in a word.
pub get_round_robin_peer-IsLease :
    (now : ℤ) (groups : List Peers) (pc : PeerConnection) (rrp : RrPeerData)
    → total_conns groups + 1 < 2 ^ 64
    → AreValid groups
    → (get_round_robin_peer now groups pc rrp).0 ≡ ok
    → (let r = get_round_robin_peer now groups pc rrp in IsLease groups r.1 r.2 r.3)
get_round_robin_peer-IsLease now groups pc rrp fits v h =
    let r = get_round_robin_peer now groups pc rrp in
    let l = get_round_robin_peer-Leased now groups pc rrp fits h in
    let start : r.3.peers ≡ l.offset = omega (arith, l.place) in
    record {
      group = l.group;
      at = rw start l.at;
      index = l.index;
      peer = l.peer;
      current = l.current;
      found = l.found;
      leased = l.leased;
      addressed = l.addressed;
      counted = l.counted;
      peers_valid = l.valid v;
    }
