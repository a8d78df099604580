-- ===== src/ThreadPool/Waiting.antt =====
-- The counter `waiting` and the length of the queue.
use inside_nginx.Base.{
  length-append, List-cases, ℕ, zero, suc, ◌+◌, ◌≡◌, refl, sym, ◌≢◌, inl, inr, Bool, true, List, [],
  ◌∷◌, arith, if◌then◌else◌, Bool-cases, length, get_or, set,
}
use inside_nginx.Base.Int.{+ℤ_parts, pos, ◌+ℤ◌, ◌-ℤ◌, ◌≤ℤ◌, int_laws, parts_of_eq, leb_ℤ}
use inside_nginx.ThreadPool.{
  Task, Worker, idle, asleep, gone, running, State, update, activate, post, resume, begin_round,
  wake, end_round, collect, release, complete_first, Event, posts, begins, wakes, ends, collects,
  completes, step_worker, worker_at, step, Reach, here, next,
}

-- The workers in ngx_thread_cond_wait.
abbrev pub asleep_in : List Worker → ℕ
asleep_in [] = 0
asleep_in (asleep ∷ xs) = 1 + asleep_in xs
asleep_in (x ∷ xs) = asleep_in xs

abbrev one_asleep : Worker → ℕ
one_asleep asleep = 1
one_asleep x = 0

-- `waiting` is the number of queued tasks, less the workers that wait for one, and it does not pass
-- `max_queue`.
pub record IsCounted (s : State) : Type 0 where
  pub balance : s.waiting +ℤ pos (asleep_in s.workers) ≡ pos (length s.queue)
  pub limit : s.waiting ≤ℤ s.max_queue

-- An event whose pthread calls succeed, but for the lock and the signal of a post.
abbrev pub IsSound : Event → Type 0
IsSound (begins w locks unlocks) = locks ≡ true
IsSound (wakes w waits unlocks) = waits ≡ true
IsSound e = Unit

asleep_in-set :
    (ws : List Worker) (w : ℕ) (x y : Worker)
    → get_or ws w gone ≡ x
    → x ≢ gone
    → asleep_in (set ws w y) + one_asleep x ≡ asleep_in ws + one_asleep y
asleep_in-set [] w x y h k = absurd (k (sym h))
asleep_in-set (v ∷ ws) zero x y h k = let same : v ≡ x = h in rw same (cons-asleep x y ws)
  where
    cons-asleep :
        (x y : Worker) (ws : List Worker)
        → asleep_in (y ∷ ws) + one_asleep x ≡ asleep_in (x ∷ ws) + one_asleep y
    cons-asleep x y ws = ground arith
asleep_in-set (v ∷ ws) (suc w) x y h k = ground (arith, asleep_in-set ws w x y h k)

post-IsCounted :
    (t : ℕ) (locks signals : Bool) (s : State) → IsCounted s → IsCounted (post t locks signals s).1
unfolding post activate
post-IsCounted t locks signals s h = elim (Bool-cases ((s.tasks t).active)) [
  | inl e ↦ rw e h
  | inr e ↦ (elim (Bool-cases locks) [
    | inr l ↦ rw (e, l) h
    | inl l ↦ (elim (Bool-cases (leb_ℤ s.max_queue s.waiting)) [
      | inl f ↦ rw (e, l, f) h
      | inr f ↦ (elim (Bool-cases signals) [
        | inr g ↦ rw (e, l, f, g) (record { balance = h.balance; limit = h.limit })
        | inl g ↦
            rw (e, l, f, g)
              (record {
                balance =
                    omega (int_laws, length-append s.queue (t ∷ []), parts_of_eq _ _ h.balance);
                limit = ground (arith, +ℤ_parts s.waiting (pos 1));
              })
      ])
    ])
  ])
]

resume-IsCounted :
    (w : ℕ) (unlocks : Bool) (s : State) (x : Worker)
    → worker_at s w ≡ x
    → x ≢ gone
    → s.waiting +ℤ pos (asleep_in s.workers) +ℤ pos 1 ≡ pos (length s.queue) +ℤ pos (one_asleep x)
    → s.waiting ≤ℤ s.max_queue
    → IsCounted (resume w unlocks s)
unfolding resume
resume-IsCounted w unlocks s x at n h l = elim (List-cases s.queue) [
  | inl e ↦
      (let q : length s.queue ≡ 0 = rw e refl in
        rw e (record {
          balance = omega (int_laws, q, parts_of_eq _ _ h, asleep_in-set s.workers w x asleep at n);
          limit = l;
        }))
  | inr (t, ts, e) ↦
      (let q : length s.queue ≡ suc (length ts) = rw e refl in
        let awake : one_asleep (if unlocks then running t else gone) ≡ 0 = ground arith in
        rw e (record {
          balance = omega (
            int_laws,
            q,
            parts_of_eq _ _ h,
            awake,
            asleep_in-set s.workers w x (if unlocks then running t else gone) at n,
          );
          limit = l;
        }))
]

begins-IsCounted :
    (w : ℕ) (unlocks : Bool) (x : Worker) (s : State)
    → worker_at s w ≡ x
    → IsCounted s
    → IsCounted (step_worker (begins w true unlocks) x s)
unfolding step_worker begin_round
begins-IsCounted w unlocks idle s at h =
    resume-IsCounted w unlocks (record s { waiting = s.waiting -ℤ pos 1 }) idle at (λ e. cc)
      (omega (int_laws, parts_of_eq _ _ h.balance)) (omega (int_laws, h.limit))
begins-IsCounted w unlocks asleep s at h = h
begins-IsCounted w unlocks gone s at h = h
begins-IsCounted w unlocks (running t) s at h = h

wakes-IsCounted :
    (w : ℕ) (unlocks : Bool) (x : Worker) (s : State)
    → worker_at s w ≡ x
    → IsCounted s
    → IsCounted (step_worker (wakes w true unlocks) x s)
unfolding step_worker wake
wakes-IsCounted w unlocks asleep s at h =
    resume-IsCounted w unlocks s asleep at (λ e. cc) (omega (int_laws, parts_of_eq _ _ h.balance))
      h.limit
wakes-IsCounted w unlocks idle s at h = h
wakes-IsCounted w unlocks gone s at h = h
wakes-IsCounted w unlocks (running t) s at h = h

ends-IsCounted :
    (w : ℕ) (x : Worker) (s : State)
    → worker_at s w ≡ x
    → IsCounted s
    → IsCounted (step_worker (ends w) x s)
unfolding step_worker end_round
ends-IsCounted w (running t) s at h = record {
  balance = omega (
    int_laws,
    parts_of_eq _ _ h.balance,
    asleep_in-set s.workers w (running t) idle at (λ e. cc),
  );
  limit = h.limit;
}
ends-IsCounted w idle s at h = h
ends-IsCounted w asleep s at h = h
ends-IsCounted w gone s at h = h

same-IsCounted :
    (s : State) (tasks : ℕ → Task) (xs ys : List ℕ)
    → IsCounted s
    → IsCounted (record s { tasks = tasks; finished = xs; completing = ys })
same-IsCounted s tasks xs ys h = record { balance = h.balance; limit = h.limit }

step-IsCounted : (e : Event) (s : State) → IsSound e → IsCounted s → IsCounted (step e s)
unfolding step collect complete_first
step-IsCounted (posts t locks signals) s ok' h = post-IsCounted t locks signals s h
step-IsCounted (begins w locks unlocks) s sound h =
    rw sound (begins-IsCounted w unlocks (worker_at s w) s refl h)
step-IsCounted (wakes w waits unlocks) s sound h =
    rw sound (wakes-IsCounted w unlocks (worker_at s w) s refl h)
step-IsCounted (ends w) s sound h = ends-IsCounted w (worker_at s w) s refl h
step-IsCounted collects s sound h = elim (List-cases s.completing) [
  | inl e ↦ rw (e, step) (same-IsCounted s s.tasks [] s.finished h)
  | inr (t, ts, e) ↦ rw (e, step) h
]
step-IsCounted completes s sound h = elim (List-cases s.completing) [
  | inl e ↦ rw (e, complete_first) h
  | inr (t, ts, e) ↦
      rw (e, complete_first)
        (same-IsCounted s (update s.tasks t (release (s.tasks t))) s.finished ts h)
]

-- The steps of a run are sound.
unfoldable pub AllSound : {s t : State} → Reach s t → Type 0
AllSound here = Unit
AllSound (next r e) = AllSound r × IsSound e

-- As long as the workers can lock the mutex and wait on the condition, `waiting` is the number of
-- queued tasks less the number of workers that wait for a task, and is at most `max_queue`.
pub Reach-IsCounted : {s t : State} (r : Reach s t) → AllSound r → IsCounted s → IsCounted t
unfolding AllSound
Reach-IsCounted here a h = h
Reach-IsCounted (next r e) a h = step-IsCounted e _ a.1 (Reach-IsCounted r a.0 h)
