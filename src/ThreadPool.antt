-- ===== src/ThreadPool.antt =====
-- ngx_thread_pool.c: one pool of threads, its queue of tasks, and the queue of completed tasks.
--
-- The main thread posts tasks and runs the handlers of completed ones; a worker takes a task, runs it
-- and puts it into the queue of completed tasks. The code between two releases of the mutex or of the
-- spin lock is one step, and the steps of the threads interleave in any order. A task is a number,
-- and its fields are found under it. The results of the pthread calls are parts of the events.
pub mod Links
pub mod Tasks
pub mod Order
pub mod Waiting
pub mod Conf
mod Tests
use inside_nginx.Base.{
  ok, error, ℕ, zero, suc, ◌+◌, ◌-◌, ◌*◌, ◌/◌, ◌%◌, ◌^◌, ◌≤◌, ◌<◌, ◌≡◌, refl, sym, ap, ap₂, ◌∙◌,
  ◌≢◌, ◌↔◌, ◌⊎◌, inl, inr, Bool, true, false, not, ◌&&◌, ◌||◌, Option, none, some, List, [], ◌∷◌,
  ◌++◌, arith, ltb, leb, ◌==◌, if◌then◌else◌, Bool-cases, Option-cases, Rc, length, get_elem?,
  get_or, set, modify, replicate, All,
}
use inside_nginx.Base.Int.{
  ℤ, pos, negsuc, ◌+ℤ◌, ◌-ℤ◌, ◌≤ℤ◌, ◌<ℤ◌, int_laws, parts_of_eq, ltb_ℤ, leb_ℤ, pos_part, neg_part,
}
use inside_nginx.Base.Words.{add64, mul64, sub64, to_u64}

-- ngx_thread_task_t: `id`, `event.active` and `event.complete`.
pub record Task : Type 0 where
  pub id : ℕ
  pub active : Bool
  pub complete : Bool

-- Where a worker stands in ngx_thread_pool_cycle: before the lock, in ngx_thread_cond_wait, at the
-- handler of a task, or returned.
pub data Worker : Type 0 where
  idle asleep gone : Worker
  running : ℕ → Worker

-- The fields of ngx_thread_pool_t that the threads share, the counter ngx_thread_pool_task_id, the
-- queue ngx_thread_pool_done, and the tasks that ngx_thread_pool_handler has taken out of it.
pub record State : Type 0 where
  pub waiting : ℤ
  pub max_queue : ℤ
  pub queue : List ℕ
  pub next_id : ℕ
  pub tasks : ℕ → Task
  pub finished : List ℕ
  pub completing : List ℕ
  pub workers : List Worker

unfoldable pub update : (ℕ → Task) → ℕ → Task → ℕ → Task
update tasks t x u = if u == t then x else tasks u

-- `event.active = 1` and the new id.
unfoldable pub activate : ℕ → State → State
activate t s = record s {
  tasks = update s.tasks t (record (s.tasks t) { id = s.next_id; active = true });
  next_id = add64 s.next_id 1;
}

-- ngx_thread_task_post, where the mutex can be locked or not, and ngx_thread_cond_signal succeeds or
-- not.
unfoldable pub post : ℕ → Bool → Bool → State → Rc × State
post t locks signals s =
    if (s.tasks t).active
    then (error, s)
    else if not locks
    then (error, s)
    else if leb_ℤ s.max_queue s.waiting
    then (error, s)
    else if not signals
    then (error, activate t s)
    else (ok, record (activate t s) { queue = s.queue ++ t ∷ []; waiting = s.waiting +ℤ pos 1 })

-- From the test of `tp->queue.first` to the release of the mutex, which can fail.
unfoldable pub resume : ℕ → Bool → State → State
resume w unlocks s = elim s.queue [
  | [] ↦ record s { workers = set s.workers w asleep }
  | t ∷ ts ↦ record s {
    queue = ts;
    workers = set s.workers w (if unlocks then running t else gone);
  }
]

-- The start of a round of ngx_thread_pool_cycle.
unfoldable pub begin_round : ℕ → Bool → Bool → State → State
begin_round w locks unlocks s =
    if locks
    then resume w unlocks (record s { waiting = s.waiting -ℤ pos 1 })
    else record s { workers = set s.workers w gone }

-- The return of ngx_thread_cond_wait.
unfoldable pub wake : ℕ → Bool → Bool → State → State
wake w waits unlocks s =
    if waits then resume w unlocks s else record s { workers = set s.workers w gone }

-- The end of a round: the task t goes into the queue of completed tasks.
unfoldable pub end_round : ℕ → ℕ → State → State
end_round w t s = record s { finished = s.finished ++ t ∷ []; workers = set s.workers w idle }

-- The first part of ngx_thread_pool_handler: it takes all completed tasks.
unfoldable pub collect : State → State
collect s = record s { completing = s.finished; finished = [] }

-- `complete = 1; active = 0`
unfoldable pub release : Task → Task
release x = record x { active = false; complete = true }

-- One round of its loop, up to the handler of the event.
unfoldable pub complete_first : State → State
complete_first s = elim s.completing [
  | [] ↦ s
  | t ∷ ts ↦ record s { completing = ts; tasks = update s.tasks t (release (s.tasks t)) }
]

-- What a thread does next: the main thread posts a task or goes on with ngx_thread_pool_handler, a
-- worker goes on with ngx_thread_pool_cycle. The handler of an event may post tasks, so posts can
-- stand between two completions.
pub data Event : Type 0 where
  posts : (t : ℕ) → (locks signals : Bool) → Event
  begins : (w : ℕ) → (locks unlocks : Bool) → Event
  wakes : (w : ℕ) → (waits unlocks : Bool) → Event
  ends : (w : ℕ) → Event
  collects : Event
  completes : Event

-- A step of the worker that has come to this place; a worker at another place makes no such step.
unfoldable pub step_worker : Event → Worker → State → State
step_worker (begins w locks unlocks) idle s = begin_round w locks unlocks s
step_worker (wakes w waits unlocks) asleep s = wake w waits unlocks s
step_worker (ends w) (running t) s = end_round w t s
step_worker e x s = s

-- The worker of a number; a number too high names one that has returned.
abbrev pub worker_at : State → ℕ → Worker
worker_at s w = get_or s.workers w gone

-- One step. ngx_thread_pool_handler takes the completed tasks only when it has none left.
unfoldable pub step : Event → State → State
unfolding step_worker
step (posts t locks signals) s = (post t locks signals s).1
step (begins w locks unlocks) s = step_worker (begins w locks unlocks) (worker_at s w) s
step (wakes w waits unlocks) s = step_worker (wakes w waits unlocks) (worker_at s w) s
step (ends w) s = step_worker (ends w) (worker_at s w) s
step collects s = elim s.completing [ [] ↦ collect s | t ∷ ts ↦ s ]
step completes s = complete_first s

-- The states that the steps of the threads lead to.
pub data Reach (s : State) : State → Type 0 where
  here : Reach s s
  next : {t : State} → Reach s t → (e : Event) → Reach s (step e t)

-- A pool after ngx_thread_pool_init: empty queues and n workers before their first round.
unfoldable pub started_pool : ℕ → ℤ → (ℕ → Task) → State
started_pool n max_queue tasks = record {
  waiting = pos 0;
  max_queue = max_queue;
  queue = [];
  next_id = 0;
  tasks = tasks;
  finished = [];
  completing = [];
  workers = replicate n idle;
}
