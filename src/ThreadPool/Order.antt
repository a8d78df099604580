-- ===== src/ThreadPool/Order.antt =====
-- The order in which tasks are posted and started.
use inside_nginx.Base.{
  List-cases, ℕ, ◌≡◌, refl, sym, ap, ◌∙◌, inl, inr, Bool, true, false, List, [], ◌∷◌, ◌++◌,
  Bool-cases, Rc,
}
use inside_nginx.Base.Int.{pos, ◌-ℤ◌, leb_ℤ}
use inside_nginx.Base.{ok}
use mathlib.Core.List.{append-nil, append_assoc}
use inside_nginx.ThreadPool.{
  Worker, idle, asleep, gone, running, State, activate, post, resume, begin_round, wake, end_round,
  collect, complete_first, Event, posts, begins, wakes, ends, collects, completes, step_worker,
  worker_at, step, Reach, here, next,
}

-- The task that a step puts into the queue, if any.
unfoldable pub accepted_by : Rc → ℕ → List ℕ
accepted_by ok t = t ∷ []
accepted_by rc t = []

unfoldable pub accepted : Event → State → List ℕ
accepted (posts t locks signals) s = accepted_by (post t locks signals s).0 t
accepted e s = []

-- The task that a step takes out of the queue, if any.
abbrev pub first_of : List ℕ → List ℕ
first_of [] = []
first_of (t ∷ ts) = t ∷ []

unfoldable pub taken_by : Event → Worker → State → List ℕ
taken_by (begins w true unlocks) idle s = first_of s.queue
taken_by (wakes w true unlocks) asleep s = first_of s.queue
taken_by e x s = []

unfoldable pub taken : Event → State → List ℕ
taken (begins w locks unlocks) s = taken_by (begins w locks unlocks) (worker_at s w) s
taken (wakes w waits unlocks) s = taken_by (wakes w waits unlocks) (worker_at s w) s
taken e s = []

-- The tasks that a run puts into the queue and takes out of it, in the order of its steps.
unfoldable pub all_accepted : {s t : State} → Reach s t → List ℕ
all_accepted here = []
all_accepted (next {t} r e) = all_accepted r ++ accepted e t

unfoldable pub all_taken : {s t : State} → Reach s t → List ℕ
all_taken here = []
all_taken (next {t} r e) = all_taken r ++ taken e t

post-order :
    (t : ℕ) (locks signals : Bool) (s : State)
    → s.queue ++ accepted_by (post t locks signals s).0 t ≡ (post t locks signals s).1.queue
unfolding post activate accepted_by
post-order t locks signals s = elim (Bool-cases ((s.tasks t).active)) [
  | inl e ↦ rw e (append-nil s.queue)
  | inr e ↦ (elim (Bool-cases locks) [
    | inr l ↦ rw (e, l) (append-nil s.queue)
    | inl l ↦ (elim (Bool-cases (leb_ℤ s.max_queue s.waiting)) [
      | inl f ↦ rw (e, l, f) (append-nil s.queue)
      | inr f ↦ (elim (Bool-cases signals) [
        | inr g ↦ rw (e, l, f, g) (append-nil s.queue)
        | inl g ↦ rw (e, l, f, g)
      ])
    ])
  ])
]

resume-order :
    (w : ℕ) (unlocks : Bool) (s : State) → s.queue ≡ first_of s.queue ++ (resume w unlocks s).queue
unfolding resume
resume-order w unlocks s = elim (List-cases s.queue) [
  | inl e ↦ rw (e, resume) (sym e)
  | inr (t, ts, e) ↦ rw (e, resume) refl
]

step_worker-order :
    (e : Event) (x : Worker) (s : State) → s.queue ≡ taken_by e x s ++ (step_worker e x s).queue
unfolding step_worker taken_by begin_round wake end_round
step_worker-order (begins w true unlocks) idle s =
    resume-order w unlocks (record s { waiting = s.waiting -ℤ pos 1 })
step_worker-order (begins w false unlocks) idle s = refl
step_worker-order (wakes w true unlocks) asleep s = resume-order w unlocks s
step_worker-order (wakes w false unlocks) asleep s = refl
step_worker-order (ends w) (running t) s = refl
step_worker-order e x s = refl

taken_by-ends : (w : ℕ) (x : Worker) (s : State) → taken_by (ends w) x s ≡ []
unfolding taken_by
taken_by-ends w idle s = refl
taken_by-ends w asleep s = refl
taken_by-ends w gone s = refl
taken_by-ends w (running t) s = refl

step-order : (e : Event) (s : State) → s.queue ++ accepted e s ≡ taken e s ++ (step e s).queue
unfolding step accepted taken collect complete_first
step-order (posts t locks signals) s = post-order t locks signals s
step-order (begins w locks unlocks) s =
    append-nil s.queue ∙ step_worker-order (begins w locks unlocks) (worker_at s w) s
step-order (wakes w waits unlocks) s =
    append-nil s.queue ∙ step_worker-order (wakes w waits unlocks) (worker_at s w) s
step-order (ends w) s =
    append-nil s.queue
    ∙ step_worker-order (ends w) (worker_at s w) s
    ∙ ap (λ r. r ++ (step_worker (ends w) (worker_at s w) s).queue)
        (taken_by-ends w (worker_at s w) s)
step-order collects s = elim (List-cases s.completing) [
  | inl e ↦ rw (e, step) (append-nil s.queue)
  | inr (t, ts, e) ↦ rw (e, step) (append-nil s.queue)
]
step-order completes s = elim (List-cases s.completing) [
  | inl e ↦ rw (e, complete_first) (append-nil s.queue)
  | inr (t, ts, e) ↦ rw (e, complete_first) (append-nil s.queue)
]

-- In every run the tasks are taken out of the queue in the order in which they were put into it: the
-- tasks queued at first and the tasks accepted since are, in this order, the tasks taken since and
-- the tasks still queued.
pub Reach-order : {s t : State} (r : Reach s t) → s.queue ++ all_accepted r ≡ all_taken r ++ t.queue
unfolding all_accepted all_taken
Reach-order {s} here = append-nil s.queue
Reach-order {s} (next {t} r e) =
    sym (append_assoc s.queue (all_accepted r) (accepted e t))
    ∙ ap (λ q. q ++ accepted e t) (Reach-order r)
    ∙ append_assoc (all_taken r) t.queue (accepted e t)
    ∙ ap (λ q. all_taken r ++ q) (step-order e t)
    ∙ sym (append_assoc (all_taken r) (taken e t) (step e t).queue)
