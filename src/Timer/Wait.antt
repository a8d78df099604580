-- ===== src/Timer/Wait.antt =====
-- ngx_event_find_timer: how long the process may wait for events.
use inside_nginx.Base.{
  subst, ℕ, ◌-◌, ◌^◌, ◌≤◌, ◌<◌, ◌≡◌, sym, ap, ◌≢◌, some, List, ◌∷◌, arith, if◌then◌else◌, All,
}
use inside_nginx.Base.Words.{sub64}
use inside_nginx.RbTree.Shape.{Shape, fork, IsShape, inorder, size}
use inside_nginx.RbTree.Minimal.{tree_min-first}
use inside_nginx.RbTree.Insert.Ordered.{IsOrdered}
use inside_nginx.Queue.Ring.{ne_test, IsOut}
use inside_nginx.Queue.Sort.Place.{All-map}
use inside_nginx.Timer.{Timers, is_positive, find_timer}

-- The wait for one key, when neither time has reached half of the range.
wait_lem :
    (key now : ℕ)
    → key < 2 ^ 63
    → now < 2 ^ 63
    → (if is_positive (sub64 key now) then sub64 key now else 0) ≡ key - now
unfolding is_positive
wait_lem key now h k = ground (arith, h, k)

-- In a tree of timers that is not empty and whose times are in order, as long as no time has reached
-- half of its range, ngx_event_find_timer returns the time that is left until the first timer, 0 if it
-- has passed, and no other timer expires before that, when there are no more nodes than its rounds.
pub find_timer-IsSoonest :
    (fuel now : ℕ) (s : Timers) (l : Shape) (x : ℕ) (r : Shape)
    → size (fork l x r) ≤ fuel
    → IsShape s.tree s.tree.root (fork l x r)
    → IsOrdered s.tree.key (inorder (fork l x r))
    → All (λ y. s.tree.key y < 2 ^ 63) (inorder (fork l x r))
    → IsOut 0 (inorder (fork l x r))
    → now < 2 ^ 63
    → (m : ℕ) × (rest : List ℕ) × (inorder (fork l x r) ≡ m ∷ rest)
      × (find_timer fuel now s ≡ some (s.tree.key m - now))
      × All (λ y. s.tree.key m - now ≤ s.tree.key y - now) rest
unfolding find_timer
find_timer-IsSoonest fuel now s l x r bound h ordered small nonnull late =
    let (m, rest, found, order) = tree_min-first fuel s.tree.root s.tree l x r bound h in
    let low : IsOrdered s.tree.key (m ∷ rest) =
      subst (λ ys. IsOrdered s.tree.key ys) order ordered in
    let first : All (λ y. s.tree.key y < 2 ^ 63) (m ∷ rest) =
      subst (λ ys. All (λ y. s.tree.key y < 2 ^ 63) ys) order small in
    let mz : IsOut 0 (m ∷ rest) = subst (λ ys. IsOut 0 ys) order nonnull in
    let some_node : s.tree.root ≢ s.tree.sentinel =
      subst (λ z. z ≢ s.tree.sentinel) (sym h.0) h.2 in
    (
      m,
      rest,
      order,
      rw (ne_test s.tree.root s.tree.sentinel some_node, found, ne_test m 0 mz.0)
          (ap (λ d. some d) (wait_lem (s.tree.key m) now first.0 late)),
      All-map (λ y k. omega (arith, k)) rest low.0,
    )
