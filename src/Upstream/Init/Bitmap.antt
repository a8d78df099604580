-- ===== src/Upstream/Init/Bitmap.antt =====
-- The bitmap that ngx_http_upstream_init_round_robin_peer makes.
use inside_nginx.Base.{
  length-replicate, ok, get_or-replicate, ℕ, ◌/◌, ◌%◌, ◌≤◌, ◌≡◌, refl, inl, inr, Bool, false, none,
  some, List, [], ◌∷◌, arith, leb, Bool-cases, Option-cases, length, replicate, All,
}
use inside_nginx.Upstream.Peer.{Peers, RrPeerData}
use inside_nginx.Upstream.Tried.{Covers, is_tried, word_bits, words_for}
use inside_nginx.Upstream.Init.{
  UpstreamPeer, init_round_robin_peer, most_peers, bitmap_for, fresh_data, has_data, upstream_tries,
}
use inside_nginx.Base.Bits.{test_bit-of_zero}

-- A bitmap with a clear bit for each of n peers.
pub record IsClear (tried : List ℕ) (n : ℕ) : Type 0 where
  pub covers : Covers tried n
  pub clear : (i : ℕ) → is_tried tried i ≡ false

clear_word : (n i : ℕ) → is_tried (replicate n 0) i ≡ false
unfolding is_tried
clear_word n i =
    rw (get_or-replicate {A = ℕ} n (i / word_bits) 0) (test_bit-of_zero (i % word_bits))

bitmap_for-IsClear :
    (alloc : Bool) (n : ℕ) {tried : List ℕ} → bitmap_for alloc n ≡ some tried → IsClear tried n
unfolding bitmap_for is_tried
bitmap_for-IsClear alloc n {tried} h = elim (Bool-cases (leb n word_bits)) [
  | inl e ↦
      let one : tried ≡ 0 ∷ [] = ground arith in
      rw one (record { covers = ground arith; clear = λ i. clear_word 1 i })
  | inr e ↦
      let many : tried ≡ replicate (words_for n) 0 = ground arith in
      rw many (record {
        covers = omega (arith, length-replicate {A = ℕ} (words_for n) 0);
        clear = λ i. clear_word (words_for n) i;
      })
]

most_peers-IsClear :
    (groups : List Peers) (tried : List ℕ)
    → length groups ≤ 2
    → IsClear tried (most_peers groups)
    → All (λ g. IsClear tried g.number) groups
unfolding most_peers
most_peers-IsClear [] tried few c = tt
most_peers-IsClear (g ∷ []) tried few c = (c, tt)
most_peers-IsClear (g ∷ n ∷ []) tried few c = (
  record { covers = ground (arith, c.covers); clear = c.clear },
  (record { covers = ground (arith, c.covers); clear = c.clear }, tt),
)
most_peers-IsClear (g ∷ n ∷ m ∷ gs) tried few c = absurd (omega arith)

-- A request that starts on one or two groups, the second the backup group, has a clear bit for each
-- peer of either group; it starts at the first group with no current peer, and its tries are the
-- numbers of peers of the groups, taken together as a word.
pub init_round_robin_peer-IsClear :
    (mem : ℕ → Bool) (r : UpstreamPeer) (groups : List Peers)
    → length groups ≤ 2
    → (init_round_robin_peer mem r groups).0 ≡ ok
    → (d : RrPeerData) × ((init_round_robin_peer mem r groups).1.rrp ≡ some d)
      × (d.peers ≡ 0)
      × (d.current ≡ none)
      × All (λ g. IsClear d.tried g.number) groups
      × ((init_round_robin_peer mem r groups).1.tries ≡ upstream_tries groups)
unfolding init_round_robin_peer fresh_data
init_round_robin_peer-IsClear mem r groups few h = elim (Bool-cases (has_data mem r.rrp)) [
  | inr e ↦ absurd (ground arith)
  | inl e ↦ (elim (Option-cases (bitmap_for (mem 1) (most_peers groups))) [
    | inl b ↦ absurd (ground arith)
    | inr (tried, b) ↦ (
      fresh_data tried,
      ground arith,
      refl,
      refl,
      most_peers-IsClear groups tried few (bitmap_for-IsClear (mem 1) (most_peers groups) b),
      ground arith,
    )
  ])
]
