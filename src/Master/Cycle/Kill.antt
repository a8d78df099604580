-- ===== src/Master/Cycle/Kill.antt =====
-- ngx_master_process_cycle: how a termination that takes too long ends with SIGKILL.
use inside_nginx.Base.{
  ℕ, zero, suc, ◌+◌, ◌*◌, ◌^◌, ◌≤◌, ◌<◌, ◌≡◌, refl, ap, ◌∙◌, ◌≢◌, inl, inr, Bool, true, false, not,
  ◌&&◌, ◌||◌, List, [], ◌∷◌, arith, ltb, ◌==◌, Bool-cases,
}
use inside_nginx.Base.Words.{mul64}
use mathlib.Core.List.{Memᴰ}
use mathlib.Core.List.Memᴰ
use inside_nginx.Process.{Process, put, is_free}
use inside_nginx.Process.Slots.{put_other}
use inside_nginx.Process.Signals.{
  Signal, Flags, reconfigure_signal, reopen_signal, noaccept_signal, terminate_signal,
  shutdown_signal, changebin_signal, sigalrm, sigint, sigio, sigchld, sigsys, sigpipe, sigkill,
  master_signal, signal_handler,
}
use inside_nginx.Master.{Master, kills}
use inside_nginx.Master.Notify.{
  Killed, command_of, is_none, is_shutdown, signal_message, signal_one, signal_from,
  signal_worker_processes,
}
use inside_nginx.Master.Reap.Reaped.{reap_children-IsReaped}
use inside_nginx.Master.Cycle.{
  Arrival, Outside, Loop, at_terminate, flags_of, set_flags, arm, receive, receive_all, reap_all,
  signal_from_place, terminate_all, wake_up, round,
}

-- A child that ngx_signal_worker_processes passes signals to.
abbrev pub IsTarget : Process → Type 0
IsTarget p = ((p.detached || is_free p) ≡ false) × (p.just_spawn ≡ false)

signal_one-kills :
    (written : Bool) (killed : Killed) (p : Process)
    → IsTarget p
    → Memᴰ (kills p.pid sigkill) (signal_one sigkill written killed p).1.0
unfolding signal_one signal_message command_of is_none is_shutdown
signal_one-kills written killed p h = elim (Bool-cases p.exiting) [
  | inl e ↦ rw (h.0, h.1, e, signal_one) (Memᴰ.head refl)
  | inr e ↦ rw (h.0, h.1, e, signal_one) (Memᴰ.head refl)
]

module _ (written : ℕ → Bool) (killed : ℕ → Killed) where
  signal_from-kills :
      (i n u : ℕ) (processes : ℕ → Process)
      → i ≤ u
      → u < i + n
      → IsTarget (processes u)
      → Memᴰ
          (kills (processes u).pid sigkill)
          (signal_from sigkill written killed i n processes).1.0
  unfolding signal_from
  signal_from-kills i zero u processes l h k = absurd (omega (arith, l, h))
  signal_from-kills i (suc n) u processes l h k =
      let one = signal_one sigkill (written i) (killed i) (processes i) in
      let rest = signal_from sigkill written killed (i + 1) n (put i one.0 processes) in
      elim (Bool-cases (u == i)) [
        | inl e ↦
            (let same : u ≡ i = ground (arith, e) in
              let target : IsTarget (processes i) = rw same at k in
              rw same (
                Memᴰ.append_left rest.1.0
                  (signal_one-kills (written i) (killed i) (processes i) target)))
        | inr e ↦
            (let other : u ≢ i = ground (arith, e) in
              let kept = put_other i u one.0 processes other in
              let target : IsTarget (put i one.0 processes u) = rw kept k in
              let sent =
                signal_from-kills (i + 1) n u (put i one.0 processes) (omega (arith, l, other))
                  (omega (arith, h)) target in
              Memᴰ.append_right one.1.0 (rw kept at sent))
      ]

master_signal-terminate :
    (daemonized changing : Bool) (s : Signal) (f : Flags)
    → f.terminate ≡ true
    → (master_signal daemonized changing s f).terminate ≡ true
unfolding master_signal
master_signal-terminate d c reconfigure_signal f h = h
master_signal-terminate d c reopen_signal f h = h
master_signal-terminate true c noaccept_signal f h = h
master_signal-terminate false c noaccept_signal f h = h
master_signal-terminate d c terminate_signal f h = refl
master_signal-terminate d c shutdown_signal f h = h
master_signal-terminate d true changebin_signal f h = h
master_signal-terminate d false changebin_signal f h = h
master_signal-terminate d c sigalrm f h = h
master_signal-terminate d c sigint f h = refl
master_signal-terminate d c sigio f h = h
master_signal-terminate d c sigchld f h = h
master_signal-terminate d c sigsys f h = h
master_signal-terminate d c sigpipe f h = h
master_signal-terminate d c sigkill f h = h

receive_all-terminate :
    (exit_code : ℕ → ℕ) (arrivals : List Arrival) (m : Master)
    → m.flags.terminate ≡ true
    → (receive_all exit_code arrivals m).flags.terminate ≡ true
unfolding receive_all receive signal_handler
receive_all-terminate exit_code [] m h = h
receive_all-terminate exit_code (a ∷ rest) m h =
    receive_all-terminate exit_code rest (receive exit_code a m)
      (master_signal-terminate a.daemonized a.changing a.signal m.flags h)

-- What reaping keeps of the loop.
reap_all-rest :
    (o : Outside) (l : Loop)
    → ((flags_of (reap_all o l).0).terminate ≡ (flags_of l).terminate)
      × ((reap_all o l).0.delay ≡ l.delay)
      × ((reap_all o l).0.sigio ≡ l.sigio)
unfolding reap_all
reap_all-rest o l = elim (Bool-cases (flags_of l).reap) [
  | inr e ↦ rw e (refl, refl, refl)
  | inl e ↦
      (let m : Master = record l.master { flags = record (flags_of l) { reap = false } } in
        rw e (ap (λ f. f.terminate) (reap_children-IsReaped o.reaping m).0, refl, refl))
]

terminate_all-kills :
    (o : Outside) (l : Loop) (u : ℕ)
    → l.sigio ≡ 0
    → 1000 < l.delay
    → u < l.master.table.last
    → IsTarget (l.master.table.processes u)
    → Memᴰ (kills (l.master.table.processes u).pid sigkill) (terminate_all o l).1
unfolding terminate_all signal_from_place signal_worker_processes
terminate_all-kills o l u s d h k =
    let idle : (l.sigio == 0) ≡ true = ground (arith, s) in
    let late : (l.delay == 0) ≡ false = ground (arith, d) in
    let over : ltb 1000 l.delay ≡ true = ground (arith, d) in
    rw (idle, late, over, terminate_all)
      (signal_from-kills (o.written at_terminate) (o.killed at_terminate) 0 l.master.table.last u
        l.master.table.processes (omega arith) (omega (arith, h)) k)

arm-doubles :
    (l : Loop)
    → (flags_of l).alarm ≡ true
    → (l.delay == 0) ≡ false
    → ((arm l).0.delay ≡ mul64 l.delay 2)
      × ((arm l).0.sigio ≡ 0)
      × ((flags_of (arm l).0).terminate ≡ (flags_of l).terminate)
unfolding arm set_flags
arm-doubles l a d = rw (d, a, arm) (refl, refl, refl)

-- The loop in a round after the signals have arrived and the children have been reaped.
abbrev pub reaped_in : Outside → Loop → Loop
reaped_in o l =
    let l1 = (arm l).0 in
    (reap_all o (record l1 { master = receive_all o.exit_code o.arrivals l1.master })).0

wake_up-kills :
    (o : Outside) (l : Loop) (u : ℕ)
    → (flags_of l).terminate ≡ true
    → l.sigio ≡ 0
    → 1000 < l.delay
    → (wake_up o l).over ≡ false
    → u < (reap_all o l).0.master.table.last
    → IsTarget ((reap_all o l).0.master.table.processes u)
    → Memᴰ (kills ((reap_all o l).0.master.table.processes u).pid sigkill) (wake_up o l).calls
unfolding wake_up
wake_up-kills o l u t s d over h k =
    let l1 = (reap_all o l).0 in
    let rest = reap_all-rest o l in
    let going = rest.0 ∙ t in
    elim (Bool-cases (not l1.live && ((flags_of l1).terminate || (flags_of l1).quit))) [
      | inl e ↦ absurd (let clash = rw (e, wake_up) at over in cc)
      | inr e ↦
          rw (e, going, wake_up)
            (Memᴰ.append_right (reap_all o l).1
              (terminate_all-kills o l1 u (rest.2 ∙ s) (omega (arith, rest.1, d)) h k))
    ]

-- In a round that begins with SIGALRM noted, ngx_terminate set and a delay over 500 and below 2 ^ 63,
-- and in which the master does not exit, SIGKILL is sent to each child in the table after the reaping
-- that is neither detached nor just spawned, whatever signals arrive in the round.
pub round-kills :
    (o : Outside) (l : Loop) (u : ℕ)
    → (flags_of l).alarm ≡ true
    → (flags_of l).terminate ≡ true
    → 500 < l.delay
    → l.delay < 2 ^ 63
    → (round o l).over ≡ false
    → u < (reaped_in o l).master.table.last
    → IsTarget ((reaped_in o l).master.table.processes u)
    → Memᴰ (kills ((reaped_in o l).master.table.processes u).pid sigkill) (round o l).calls
unfolding round
round-kills o l u a t low high over h k =
    let l1 = (arm l).0 in
    let l2 : Loop = record l1 { master = receive_all o.exit_code o.arrivals l1.master } in
    let armed = arm-doubles l a (ground (arith, low)) in
    let doubled : l1.delay ≡ 2 * l.delay = armed.0 ∙ omega (arith, high) in
    let going = receive_all-terminate o.exit_code o.arrivals l1.master (armed.2 ∙ t) in
    Memᴰ.append_right (arm l).1
      (wake_up-kills o l2 u going armed.1 (omega (arith, doubled, low)) over h k)
