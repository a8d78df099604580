-- ===== src/Upstream/IpHash/Taken.antt =====
-- What ngx_http_upstream_get_ip_hash_peer leaves behind when it hands out a peer.
use inside_nginx.Base.{
  modify, ap, get_elem?-modify_self, get_elem?-modify_ne, ℕ, ◌*◌, ◌<◌, ◌≡◌, refl, ◌≢◌, true, false,
  none, some, List, ◌==◌, if◌then◌else◌, length, get_elem?,
}
use inside_nginx.Base.Int.{ℤ}
use inside_nginx.Base.Words.{add64}
use inside_nginx.Upstream.Peer.{Peer, Peers, PeerConnection, refresh, connect, address, reset}
use inside_nginx.Upstream.Tried.{is_tried, word_bits, is_tried-mark_tried}
use inside_nginx.Upstream.IpHash.{IpHashPeerData, take_hashed}

-- The client has got the peer q at the position k of the group g: it is the current one, the
-- connection has its address and forgets an older one, its bit alone is set, it counts one
-- connection more, and only its time of the last check may change besides; all other peers are as
-- they were.
pub record IsTaken (groups : List Peers) (iphp : IpHashPeerData) (g : Peers) (k : ℕ) (q : Peer)
    (groups' : List Peers) (pc' : PeerConnection) (iphp' : IpHashPeerData) : Type 0 where
  pub peers : iphp'.rrp.peers ≡ iphp.rrp.peers
  pub current : iphp'.rrp.current ≡ some (iphp.rrp.peers, k)
  pub marked :
      (j : ℕ) → is_tried iphp'.rrp.tried j ≡ (if j == k then true else is_tried iphp.rrp.tried j)
  pub addressed : (pc'.sockaddr ≡ q.sockaddr) × (pc'.socklen ≡ q.socklen) × (pc'.name ≡ q.name)
  pub forgotten : (pc'.cached ≡ false) × (pc'.connection ≡ none)
  pub group : Peers
  pub at : get_elem? groups' iphp.rrp.peers ≡ some group
  pub peer : Peer
  pub found : get_elem? group.peer k ≡ some peer
  pub counted : peer ≡ record q { conns = add64 q.conns 1; checked = peer.checked }
  pub other_peers : (j : ℕ) → j ≢ k → get_elem? group.peer j ≡ get_elem? g.peer j
  pub other_groups : (j : ℕ) → j ≢ iphp.rrp.peers → get_elem? groups' j ≡ get_elem? groups j

module _ (now : ℤ) (groups : List Peers) (pc : PeerConnection) (iphp : IpHashPeerData)
    (g : Peers) where
  address-taken :
      (k hash tries : ℕ) (q : Peer)
      → get_elem? g.peer k ≡ some q
      → (take_hashed now groups pc iphp g k hash tries).2 ≡ address (reset pc) q
  unfolding take_hashed
  address-taken k hash tries q found = rw (found, take_hashed)

  pub take_hashed-IsTaken :
      (k hash tries : ℕ) (q : Peer)
      → get_elem? groups iphp.rrp.peers ≡ some g
      → get_elem? g.peer k ≡ some q
      → k < length iphp.rrp.tried * word_bits
      → let r = take_hashed now groups pc iphp g k hash tries in
        IsTaken groups iphp g k q r.1 r.2 r.3
  unfolding take_hashed address reset refresh connect
  take_hashed-IsTaken k hash tries q at found room =
      let update = λ (p : Peer). refresh now (connect p) in
      record {
        peers = refl;
        current = refl;
        marked = λ j. is_tried-mark_tried iphp.rrp.tried k j room;
        addressed = (
          ap (λ (c : PeerConnection). c.sockaddr) (address-taken k hash tries q found),
          ap (λ (c : PeerConnection). c.socklen) (address-taken k hash tries q found),
          ap (λ (c : PeerConnection). c.name) (address-taken k hash tries q found),
        );
        forgotten = (
          ap (λ (c : PeerConnection). c.cached) (address-taken k hash tries q found),
          ap (λ (c : PeerConnection). c.connection) (address-taken k hash tries q found),
        );
        group = record g { peer = modify g.peer k update };
        at =
            get_elem?-modify_self groups iphp.rrp.peers
              (λ gr. record gr { peer = modify gr.peer k update }) at;
        peer = update q;
        found = get_elem?-modify_self g.peer k update found;
        counted = refl;
        other_peers = λ j ne. get_elem?-modify_ne g.peer k j update ne;
        other_groups = λ j ne. get_elem?-modify_ne groups iphp.rrp.peers j _ ne;
      }
