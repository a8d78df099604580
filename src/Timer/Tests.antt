-- ===== src/Timer/Tests.antt =====
-- A wait for the timers 16 and 32, which expire at 500 and at 900.
use inside_nginx.Base.{
  ℕ, ◌-◌, ◌≤◌, ◌≡◌, refl, true, false, some, List, ◌∷◌, arith, ◌==◌, if◌then◌else◌, All,
}
use inside_nginx.RbTree.Shape.{leaf, fork, inorder}
use inside_nginx.Timer.{Timers, find_timer}
use inside_nginx.Timer.Wait.{find_timer-IsSoonest}

abbrev two_timers : Timers
two_timers = record {
  tree = record {
    root = 16;
    sentinel = 1;
    key = λ a. if a == 16 then 500 else 900;
    left = λ a. 1;
    right = λ a. if a == 16 then 32 else 1;
    parent = λ a. if a == 32 then 16 else 0;
    red = λ a. a == 32;
  };
  timer_set = λ a. true;
  timedout = λ a. false;
  cancelable = λ a. false;
}

find_timer-IsSoonest_example :
    (m : ℕ) × (rest : List ℕ) × (inorder (fork leaf 16 (fork leaf 32 leaf)) ≡ m ∷ rest)
    × (find_timer 2 300 two_timers ≡ some (two_timers.tree.key m - 300))
    × All (λ y. two_timers.tree.key m - 300 ≤ two_timers.tree.key y - 300) rest
find_timer-IsSoonest_example =
    find_timer-IsSoonest 2 300 two_timers leaf 16 (fork leaf 32 leaf) (omega arith)
      (refl, ground arith, ground arith, refl, (refl, ground arith, ground arith, refl, refl))
      ((omega arith, tt), (tt, tt)) (omega arith, (omega arith, tt))
      (ground arith, (ground arith, tt)) (omega arith)
