-- ===== src/Upstream/Init/Divided.antt =====
-- Which servers of the configuration the peers of a group come from.
use mathlib.Core.List.{map-append}
use inside_nginx.Base.{ap}
use inside_nginx.Base.{
  map, length, ℕ, ◌^◌, ◌<◌, ◌≡◌, refl, ap₂, ◌∙◌, inl, inr, true, false, Option, none, some, List,
  [], ◌∷◌, ◌++◌, arith, ltb, if◌then◌else◌, Bool-cases, All,
}
use inside_nginx.Base.Int.{ℤ, pos}
use inside_nginx.Base.Words.{to_s64}
use inside_nginx.Upstream.Peer.{Peer, Peers}
use inside_nginx.Upstream.Init.{Addr, Server, is_kind, peer_of, peers_of, peer_of_host}

-- A server whose weight is not negative as a signed word, and whose limit on connections is a word.
abbrev pub IsServer : Server → Type 0
IsServer s = (s.weight < 2 ^ 63) × (s.max_conns < 2 ^ 64)

pub to_s64-small : (n : ℕ) → n < 2 ^ 63 → to_s64 n ≡ pos n
to_s64-small n h = let small : ltb n (2 ^ 63) ≡ true = ground (arith, h) in rw small

-- The servers that are no backup.
unfoldable pub mains : List Server → List Server
mains [] = []
mains (s ∷ ss) = let rest = mains ss in if s.backup then rest else s ∷ rest

-- The backup servers.
unfoldable pub backups : List Server → List Server
backups [] = []
backups (s ∷ ss) = let rest = backups ss in if s.backup then s ∷ rest else rest

-- The server, the address and the weight of a peer.
abbrev pub Origin : Type 0
Origin = ℕ × ℕ × ℤ

abbrev pub origin : Peer → Origin
origin p = (p.server, p.sockaddr, p.weight)

-- One for each address of each server.
unfoldable pub origins : List Server → List Origin
origins [] = []
origins (s ∷ ss) = map (λ (a : Addr). (s.name, a.sockaddr, pos s.weight)) s.addrs ++ origins ss

-- The first group has the addresses of the servers that are no backup, and at least one; the second
-- has those of the backup servers, and exists if and only if there are any.
abbrev pub IsDivided : List Server → List Peers → Type 0
IsDivided ss [] = ◌≡◌ {A = ℕ} 0 1
IsDivided ss (main ∷ []) =
    (0 < length main.peer)
    × (map origin main.peer ≡ origins (mains ss))
    × (origins (backups ss) ≡ [])
IsDivided ss (main ∷ spare ∷ []) =
    (0 < length main.peer)
    × (0 < length spare.peer)
    × (map origin main.peer ≡ origins (mains ss))
    × (map origin spare.peer ≡ origins (backups ss))
IsDivided ss (main ∷ spare ∷ g ∷ gs) = ◌≡◌ {A = ℕ} 0 1

-- One group of the addresses that a host was resolved to.
abbrev pub IsResolved : Option (List Addr) → List Peers → Type 0
IsResolved none gs = ◌≡◌ {A = ℕ} 0 1
IsResolved (some addrs) [] = ◌≡◌ {A = ℕ} 0 1
IsResolved (some addrs) (g ∷ []) =
    map origin g.peer ≡ map (λ (a : Addr). (0, a.sockaddr, pos 1)) addrs
IsResolved (some addrs) (g ∷ h ∷ gs) = ◌≡◌ {A = ℕ} 0 1

map-origin :
    (s : Server) (as' : List Addr)
    → IsServer s
    → map origin (map (peer_of s) as') ≡ map (λ (a : Addr). (s.name, a.sockaddr, pos s.weight)) as'
unfolding peer_of
map-origin s [] v = refl
map-origin s (a ∷ as') v =
    ap₂ (λ (w : ℤ) (os : List Origin). (s.name, a.sockaddr, w) ∷ os) (to_s64-small s.weight v.0)
      (map-origin s as' v)

pub map-origin_of_host :
    (as' : List Addr)
    → map origin (map peer_of_host as') ≡ map (λ (a : Addr). (0, a.sockaddr, pos 1)) as'
unfolding peer_of_host
map-origin_of_host [] = refl
map-origin_of_host (a ∷ as') =
    ap (λ (os : List Origin). (0, a.sockaddr, pos 1) ∷ os) (map-origin_of_host as')

map-origin-append :
    (s : Server) (ps : List Peer) (os : List Origin)
    → IsServer s
    → map origin ps ≡ os
    → map origin (map (peer_of s) s.addrs ++ ps)
      ≡ map (λ (a : Addr). (s.name, a.sockaddr, pos s.weight)) s.addrs ++ os
map-origin-append s ps os v e =
    map-append origin (map (peer_of s) s.addrs) ps
    ∙ ap₂ (λ (x y : List Origin). x ++ y) (map-origin s s.addrs v) e

pub peers_of-mains :
    (ss : List Server) → All IsServer ss → map origin (peers_of false ss) ≡ origins (mains ss)
unfolding peers_of is_kind mains origins peer_of
peers_of-mains [] v = refl
peers_of-mains (s ∷ ss) v = elim (Bool-cases s.backup) [
  | inl e ↦ rw e (peers_of-mains ss v.1)
  | inr e ↦ rw e (map-origin-append s _ _ v.0 (peers_of-mains ss v.1))
]

pub peers_of-backups :
    (ss : List Server) → All IsServer ss → map origin (peers_of true ss) ≡ origins (backups ss)
unfolding peers_of is_kind backups origins peer_of
peers_of-backups [] v = refl
peers_of-backups (s ∷ ss) v = elim (Bool-cases s.backup) [
  | inl e ↦ rw e (map-origin-append s _ _ v.0 (peers_of-backups ss v.1))
  | inr e ↦ rw e (peers_of-backups ss v.1)
]
