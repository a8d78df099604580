-- ===== src/ThreadPool/Tasks.antt =====
-- Where a task is: in the queue, at a worker, or completed.
use inside_nginx.Base.{
  occurrences, occurrences-append, List-cases, ℕ, zero, suc, ◌+◌, ◌≤◌, ◌≡◌, refl, sym, ◌≢◌, inl,
  inr, Bool, true, false, List, [], ◌∷◌, arith, ◌==◌, if◌then◌else◌, Bool-cases, get_or, set,
}
use inside_nginx.Base.Int.{pos, ◌-ℤ◌, leb_ℤ}
use inside_nginx.ThreadPool.{
  Task, Worker, idle, asleep, gone, running, State, update, activate, post, resume, begin_round,
  wake, end_round, collect, release, complete_first, Event, posts, begins, wakes, ends, collects,
  completes, step_worker, worker_at, step, Reach, here, next,
}

abbrev pub held : ℕ → Worker → ℕ
held t (running u) = if u == t then 1 else 0
held t x = 0

abbrev pub held_by : ℕ → List Worker → ℕ
held_by t [] = 0
held_by t (x ∷ xs) = held t x + held_by t xs

-- How often a task is in one of the queues or at a worker.
abbrev pub places : ℕ → State → ℕ
places t s =
    occurrences t s.queue
    + held_by t s.workers
    + occurrences t s.finished
    + occurrences t s.completing

-- A task is at no two places, and an inactive task is at none.
abbrev pub IsOwned : State → Type 0
IsOwned s = (t : ℕ) → places t s ≤ (if (s.tasks t).active then 1 else 0)

pub held_by-set :
    (t : ℕ) (ws : List Worker) (w : ℕ) (x y : Worker)
    → get_or ws w gone ≡ x
    → x ≢ gone
    → held_by t (set ws w y) + held t x ≡ held_by t ws + held t y
held_by-set t [] w x y h k = absurd (k (sym h))
held_by-set t (v ∷ ws) zero x y h k = let same : v ≡ x = h in rw same (omega arith)
held_by-set t (v ∷ ws) (suc w) x y h k = omega (arith, held_by-set t ws w x y h k)

active-update :
    (tasks : ℕ → Task) (t u : ℕ) (x : Task)
    → (update tasks t x u).active ≡ (if u == t then x.active else (tasks u).active)
unfolding update
active-update tasks t u x = elim (Bool-cases (u == t)) [ inl e ↦ rw e refl | inr e ↦ rw e refl ]

activate-IsOwned : (t : ℕ) (s : State) → IsOwned s → IsOwned (activate t s)
unfolding activate
activate-IsOwned t s h u =
    rw (active-update s.tasks t u (record (s.tasks t) { id = s.next_id; active = true }))
      (ground (arith, h u))

post-IsOwned :
    (t : ℕ) (locks signals : Bool) (s : State) → IsOwned s → IsOwned (post t locks signals s).1
unfolding post activate
post-IsOwned t locks signals s h = elim (Bool-cases ((s.tasks t).active)) [
  | inl e ↦ rw e h
  | inr e ↦ (elim (Bool-cases locks) [
    | inr l ↦ rw (e, l) h
    | inl l ↦ (elim (Bool-cases (leb_ℤ s.max_queue s.waiting)) [
      | inl f ↦ rw (e, l, f) h
      | inr f ↦ (elim (Bool-cases signals) [
        | inr g ↦ rw (e, l, f, g) (activate-IsOwned t s h)
        | inl g ↦
            rw (e, l, f, g)
              (λ u.
                rw
                  (
                    active-update s.tasks t u
                        (record (s.tasks t) { id = s.next_id; active = true }),
                    occurrences-append u s.queue (t ∷ []),
                  )
                  (ground (arith, h u)))
      ])
    ])
  ])
]

resume-IsOwned :
    (w : ℕ) (unlocks : Bool) (s : State) (x : Worker)
    → worker_at s w ≡ x
    → x ≢ gone
    → ((t : ℕ) → held t x ≡ 0)
    → IsOwned s
    → IsOwned (resume w unlocks s)
unfolding resume
resume-IsOwned w unlocks s x at n z h = elim (List-cases s.queue) [
  | inl e ↦ rw e (λ u.
      let q : occurrences u s.queue ≡ 0 = rw e refl in
      omega (arith, h u, q, z u, held_by-set u s.workers w x asleep at n))
  | inr (t, ts, e) ↦ rw e (λ u.
      let q : occurrences u s.queue ≡ (if t == u then 1 else 0) + occurrences u ts = rw e refl in
      elim (Bool-cases unlocks) [
        | inl k ↦ rw k (omega (arith, h u, q, z u, held_by-set u s.workers w x (running t) at n))
        | inr k ↦ rw k (omega (arith, h u, q, z u, held_by-set u s.workers w x gone at n))
      ])
]

-- A worker without a task that returns.
leave-IsOwned :
    (w : ℕ) (s : State) (x : Worker)
    → worker_at s w ≡ x
    → x ≢ gone
    → IsOwned s
    → IsOwned (record s { workers = set s.workers w gone })
leave-IsOwned w s x at n h u = omega (arith, h u, held_by-set u s.workers w x gone at n)

begins-IsOwned :
    (w : ℕ) (locks unlocks : Bool) (x : Worker) (s : State)
    → worker_at s w ≡ x
    → IsOwned s
    → IsOwned (step_worker (begins w locks unlocks) x s)
unfolding step_worker begin_round
begins-IsOwned w true unlocks idle s at h =
    resume-IsOwned w unlocks (record s { waiting = s.waiting -ℤ pos 1 }) idle at (λ e. cc)
      (λ t. refl) h
begins-IsOwned w false unlocks idle s at h = leave-IsOwned w s idle at (λ e. cc) h
begins-IsOwned w locks unlocks asleep s at h = h
begins-IsOwned w locks unlocks gone s at h = h
begins-IsOwned w locks unlocks (running t) s at h = h

wakes-IsOwned :
    (w : ℕ) (waits unlocks : Bool) (x : Worker) (s : State)
    → worker_at s w ≡ x
    → IsOwned s
    → IsOwned (step_worker (wakes w waits unlocks) x s)
unfolding step_worker wake
wakes-IsOwned w true unlocks asleep s at h =
    resume-IsOwned w unlocks s asleep at (λ e. cc) (λ t. refl) h
wakes-IsOwned w false unlocks asleep s at h = leave-IsOwned w s asleep at (λ e. cc) h
wakes-IsOwned w waits unlocks idle s at h = h
wakes-IsOwned w waits unlocks gone s at h = h
wakes-IsOwned w waits unlocks (running t) s at h = h

ends-IsOwned :
    (w : ℕ) (x : Worker) (s : State)
    → worker_at s w ≡ x
    → IsOwned s
    → IsOwned (step_worker (ends w) x s)
unfolding step_worker end_round
ends-IsOwned w (running t) s at h = λ u.
    rw (occurrences-append u s.finished (t ∷ []))
      (omega (arith, h u, held_by-set u s.workers w (running t) idle at (λ e. cc)))
ends-IsOwned w idle s at h = h
ends-IsOwned w asleep s at h = h
ends-IsOwned w gone s at h = h

complete_first-IsOwned : (s : State) → IsOwned s → IsOwned (complete_first s)
unfolding complete_first release
complete_first-IsOwned s h = elim (List-cases s.completing) [
  | inl e ↦ rw e (λ u. let q : occurrences u s.completing ≡ 0 = rw e refl in omega (arith, h u, q))
  | inr (t, ts, e) ↦ rw e (λ u.
      let q : occurrences u s.completing ≡ (if t == u then 1 else 0) + occurrences u ts =
        rw e refl in
      rw (active-update s.tasks t u (record (s.tasks t) { active = false; complete = true }))
        (ground (arith, h u, q)))
]

collect-IsOwned : (s : State) → s.completing ≡ [] → IsOwned s → IsOwned (collect s)
unfolding collect
collect-IsOwned s e h u =
    let q : occurrences u s.completing ≡ 0 = rw e refl in omega (arith, h u, q)

step-IsOwned : (e : Event) (s : State) → IsOwned s → IsOwned (step e s)
unfolding step
step-IsOwned (posts t locks signals) s h = post-IsOwned t locks signals s h
step-IsOwned (begins w locks unlocks) s h = begins-IsOwned w locks unlocks (worker_at s w) s refl h
step-IsOwned (wakes w waits unlocks) s h = wakes-IsOwned w waits unlocks (worker_at s w) s refl h
step-IsOwned (ends w) s h = ends-IsOwned w (worker_at s w) s refl h
step-IsOwned collects s h = elim (List-cases s.completing) [
  | inl e ↦ rw (e, step) (collect-IsOwned s e h)
  | inr (t, ts, e) ↦ rw (e, step) h
]
step-IsOwned completes s h = complete_first-IsOwned s h

-- Whatever steps the threads have made, and whichever pthread calls have failed, no task is at two
-- places, and a task that is not active is in no queue and at no worker.
pub Reach-IsOwned : {s t : State} → Reach s t → IsOwned s → IsOwned t
Reach-IsOwned here h = h
Reach-IsOwned (next r e) h = step-IsOwned e _ (Reach-IsOwned r h)
