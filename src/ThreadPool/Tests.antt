-- ===== src/ThreadPool/Tests.antt =====
-- Runs of ngx_thread_pool.c with one worker and with a directive.
use inside_nginx.Base.{
  ℕ, ◌≡◌, refl, true, false, none, some, [], ◌∷◌, ◌++◌, arith, ◌==◌, if◌then◌else◌,
}
use inside_nginx.Base.Int.{pos, ◌+ℤ◌, int_laws}
use inside_nginx.ThreadPool.{
  Task, State, Reach, posts, begins, wakes, ends, collects, completes, here, next, started_pool,
  step,
}
use inside_nginx.ThreadPool.Tasks.{IsOwned, Reach-IsOwned}
use inside_nginx.ThreadPool.Waiting.{IsCounted, AllSound, Reach-IsCounted}
use inside_nginx.ThreadPool.Order.{all_accepted, all_taken, Reach-order}
use inside_nginx.ThreadPool.Links.{Links, remove_task, IsLinked, remove_task-IsLinked}
use inside_nginx.ThreadPool.Conf.{PoolConf, name_or_default}

abbrev fresh_task : ℕ → Task
fresh_task t = record { id = 0; active = false; complete = false }

-- One worker, and room for ten tasks.
abbrev small_pool : State
small_pool = started_pool 1 (pos 10) fresh_task

-- The worker sleeps; task 7 is posted, the worker takes it, runs it, and the main thread completes
-- it.
abbrev completed : State
completed = step completes (
    step collects (
      step (ends 0) (
        step (wakes 0 true true)
          (step (posts 7 true true) (step (begins 0 true true) small_pool)))))

abbrev one_task : Reach small_pool completed
one_task =
    next
      (next
        (next (next (next (next here (begins 0 true true)) (posts 7 true true)) (wakes 0 true true))
          (ends 0))
        collects)
      completes

small_pool-IsOwned : IsOwned small_pool
unfolding started_pool
small_pool-IsOwned = λ t. omega arith

small_pool-IsCounted : IsCounted small_pool
unfolding started_pool ◌+ℤ◌
small_pool-IsCounted = record { balance = refl; limit = omega int_laws }

Reach-IsOwned_example : IsOwned completed
Reach-IsOwned_example = Reach-IsOwned one_task small_pool-IsOwned

Reach-IsCounted_example : IsCounted completed
unfolding AllSound
Reach-IsCounted_example =
    Reach-IsCounted one_task ((((((tt, refl), tt), refl), tt), tt), tt) small_pool-IsCounted

Reach-order_example :
    small_pool.queue ++ all_accepted one_task ≡ all_taken one_task ++ completed.queue
Reach-order_example = Reach-order one_task

abbrev two_links : Links
two_links = record { first = some 3; last = some 5; next = λ u. if u == 3 then some 5 else none }

two_links-IsLinked : IsLinked two_links (3 ∷ 5 ∷ [])
two_links-IsLinked = record {
  chain = (refl, (refl, refl));
  end = refl;
  distinct = (refl, (refl, tt));
}

remove_task-IsLinked_example :
    (l' : Links) × (remove_task two_links ≡ some (3, l')) × IsLinked l' (5 ∷ [])
remove_task-IsLinked_example = remove_task-IsLinked two_links 3 (5 ∷ []) two_links-IsLinked

-- "disk" with four threads, and the default pool as it is before its directive.
abbrev disk_pool : PoolConf
disk_pool = record {
  name = 100 ∷ 105 ∷ 115 ∷ 107 ∷ [];
  threads = 4;
  max_queue = pos 100;
  file = 1;
  line = 10;
}

abbrev default_pool : PoolConf
default_pool = record {
  name = name_or_default none;
  threads = 0;
  max_queue = pos 0;
  file = 1;
  line = 12;
}
