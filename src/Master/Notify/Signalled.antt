-- ===== src/Master/Notify/Signalled.antt =====
-- ngx_signal_worker_processes: what it leaves in the table of processes.
use inside_nginx.Base.{
  ℕ, zero, suc, ◌+◌, ◌≤◌, ◌<◌, ◌≡◌, refl, ap, ◌∙◌, ◌≢◌, ◌⊎◌, inl, inr, Bool, true, false, not, ◌&&◌,
  ◌||◌, arith, ◌==◌, Bool-cases,
}
use inside_nginx.Process.{Process, put, is_free}
use inside_nginx.Process.Slots.{put_other, put_self}
use inside_nginx.Process.Signals.{Signal}
use inside_nginx.Master.{Master}
use inside_nginx.Master.Notify.{
  Killed, delivered, missing, refused, is_reopen, is_shutdown, is_none, mark_exiting,
  signal_message, finish_kill, signal_one, signal_from, signal_worker_processes,
}

-- How a round of the loop changes a process.
pub record IsSignalled (signal : Signal) (killed : Killed) (p p' : Process) : Type 0 where
  pub spared : (p.detached || is_free p) ≡ true → p' ≡ p
  pub young :
      (p.detached || is_free p) ≡ false → p.just_spawn ≡ true → p' ≡ record p { just_spawn = false }
  pub asked :
      (p.detached || is_free p) ≡ false
      → p.just_spawn ≡ false
      → killed ≢ refused
      → is_reopen signal ≡ false
      → (p'.exiting || p'.exited) ≡ true

mark_exiting-exiting :
    (signal : Signal) (p : Process)
    → is_reopen signal ≡ false
    → ((mark_exiting signal p).exiting || (mark_exiting signal p).exited) ≡ true
unfolding mark_exiting
mark_exiting-exiting signal p h = rw h refl

finish_kill-exiting :
    (signal : Signal) (killed : Killed) (p : Process)
    → killed ≢ refused
    → is_reopen signal ≡ false
    → ((finish_kill signal killed p).0.exiting || (finish_kill signal killed p).0.exited) ≡ true
unfolding finish_kill mark_exiting
finish_kill-exiting signal delivered p k h = rw h refl
finish_kill-exiting signal missing p k h = refl
finish_kill-exiting signal refused p k h = absurd (k refl)

signal_one-IsSignalled :
    (signal : Signal) (written : Bool) (killed : Killed) (p : Process)
    → IsSignalled signal killed p (signal_one signal written killed p).0
unfolding signal_one
signal_one-IsSignalled signal written killed p = record {
  spared = λ e. rw (e, signal_one) refl;
  young = λ e j. rw (e, j, signal_one) refl;
  asked = λ e j k h. elim (Bool-cases (p.exiting && is_shutdown signal)) [
    | inl x ↦ rw (e, j, x, signal_one) (ground (arith, x))
    | inr x ↦ (elim (Bool-cases (not (is_none (signal_message signal).command) && written)) [
      | inl y ↦
          rw (e, j, x, y, signal_one)
            (mark_exiting-exiting signal (record p { just_spawn = false }) h)
      | inr y ↦
          rw (e, j, x, y, signal_one)
            (finish_kill-exiting signal killed (record p { just_spawn = false }) k h)
    ])
  ];
}

module _ (signal : Signal) (written : ℕ → Bool) (killed : ℕ → Killed) where
  -- Slots outside of the range of the loop stay.
  signal_from-outside :
      (i n u : ℕ) (processes : ℕ → Process)
      → (u < i) ⊎ (i + n ≤ u)
      → (signal_from signal written killed i n processes).0 u ≡ processes u
  unfolding signal_from
  signal_from-outside i zero u processes h = refl
  signal_from-outside i (suc n) u processes h =
      let p = (signal_one signal (written i) (killed i) (processes i)).0 in
      let other : u ≢ i = ground (arith, h) in
      let beyond : (u < i + 1) ⊎ (i + 1 + n ≤ u) = ground (arith, h) in
      signal_from-outside (i + 1) n u (put i p processes) beyond ∙ put_other i u p processes other

  signal_from-inside :
      (i n u : ℕ) (processes : ℕ → Process)
      → i ≤ u
      → u < i + n
      → (signal_from signal written killed i n processes).0 u
        ≡ (signal_one signal (written u) (killed u) (processes u)).0
  unfolding signal_from
  signal_from-inside i zero u processes l h = absurd (omega (arith, l, h))
  signal_from-inside i (suc n) u processes l h =
      let p = (signal_one signal (written i) (killed i) (processes i)).0 in
      elim (Bool-cases (u == i)) [
        | inl e ↦
            (let same : u ≡ i = ground (arith, e) in
              rw same (
                signal_from-outside (i + 1) n i (put i p processes) (inl (omega arith))
                ∙ put_self i p processes))
        | inr e ↦
            (let other : u ≢ i = ground (arith, e) in
              signal_from-inside (i + 1) n u (put i p processes) (omega (arith, l, other))
                (omega (arith, h))
              ∙ ap (λ q. (signal_one signal (written u) (killed u) q).0)
                  (put_other i u p processes other))
      ]

  -- ngx_signal_worker_processes leaves detached processes and free slots as they are, only takes the
  -- mark of a process that has just been spawned, and, if the signal is not the one for the logs,
  -- leaves each other process marked as exiting or exited unless kill was refused for a reason other
  -- than ESRCH; slots that are not in use are unchanged.
  pub signal_worker_processes-IsSignalled :
      (m : Master) (u : ℕ)
      → let m' = (signal_worker_processes signal written killed m).0 in
        (u < m.table.last
          → IsSignalled signal (killed u) (m.table.processes u) (m'.table.processes u))
        × (m.table.last ≤ u → m'.table.processes u ≡ m.table.processes u)
  unfolding signal_worker_processes
  signal_worker_processes-IsSignalled m u = (
    λ h.
        rw (signal_from-inside 0 m.table.last u m.table.processes (omega arith) (omega (arith, h)))
          (signal_one-IsSignalled signal (written u) (killed u) (m.table.processes u)),
    λ h. signal_from-outside 0 m.table.last u m.table.processes (inr (omega (arith, h))),
  )
