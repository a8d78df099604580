-- ===== src/Master/Cycle.antt =====
-- ngx_master_process_cycle of ngx_process_cycle.c: one round of its loop.
--
-- A round begins before sigsuspend. The signals that arrive while it sleeps run their handlers, and
-- then the flags are looked at. The source passes an undeclared name to ngx_start_worker_processes
-- after `ngx_restart`; NGX_PROCESS_RESPAWN stands there, as nginx has it.
pub mod Exit
pub mod Kill
use inside_nginx.Base.{
  ℕ, ◌+◌, ◌-◌, Bool, true, false, not, ◌&&◌, ◌||◌, Option, none, some, List, [], ◌∷◌, ◌++◌, ltb,
  ◌==◌, if◌then◌else◌,
}
use inside_nginx.Base.Words.{mul64}
use inside_nginx.Process.{Answers, Respawn, process_respawn, process_just_respawn}
use inside_nginx.Process.Signals.{
  Signal, Flags, sigchld, sigkill, terminate_signal, shutdown_signal, reopen_signal, process_master,
  signal_handler,
}
use inside_nginx.Process.Status.{Waited, get_status}
use inside_nginx.Master.{Call, Master, arms, closes_socket, reopens_files}
use inside_nginx.Master.Start.{Starts, start_worker_processes, start_cache_manager_processes}
use inside_nginx.Master.Notify.{Killed, signal_worker_processes}
use inside_nginx.Master.Reap.{reap_children}

-- What the loop uses of ngx_cycle_t: ccf->worker_processes, the descriptors of `listening`, and
-- whether a path has a manager and a loader.
pub record Conf : Type 0 where
  pub workers : ℕ
  pub listening : List ℕ
  pub manager : Bool
  pub loader : Bool

-- The globals and the locals of the loop.
pub record Loop : Type 0 where
  pub master : Master
  pub conf : Conf
  pub delay : ℕ
  pub sigio : ℕ
  pub live : Bool

-- The place in the round from which processes are started or signalled.
pub data Place : Type 0 where
  at_terminate at_quit at_reconfigure at_restart at_reopen at_noaccept : Place

-- A signal with the conditions that its handler reads and the children that waitpid returns to it.
pub record Arrival : Type 0 where
  pub signal : Signal
  pub daemonized : Bool
  pub changing : Bool
  pub waits : List Waited

-- What comes from outside during a round.
pub record Outside : Type 0 where
  pub exit_code : ℕ → ℕ
  pub arrivals : List Arrival
  pub reaping : ℕ → Answers
  pub starts : Place → Starts
  pub written : Place → ℕ → Bool
  pub killed : Place → ℕ → Killed
  pub new_conf : Option Conf
  pub exec_new_binary : Option ℕ

-- The end of a round: the loop goes on, or ngx_master_process_exit has been called.
pub record Turn : Type 0 where
  pub loop : Loop
  pub calls : List Call
  pub over : Bool

unfoldable pub set_flags : Flags → Loop → Loop
set_flags f l = record l { master = record l.master { flags = f } }

abbrev pub flags_of : Loop → Flags
flags_of l = l.master.flags

-- `if (delay) { ... }`
unfoldable pub arm : Loop → Loop × List Call
arm l =
    let doubled : Loop =
      if (flags_of l).alarm
      then set_flags (record (flags_of l) { alarm = false })
          (record l { sigio = 0; delay = mul64 l.delay 2 })
      else l in
    if l.delay == 0 then (l, []) else (doubled, arms doubled.delay ∷ [])

-- ngx_signal_handler in the master.
unfoldable pub receive : (ℕ → ℕ) → Arrival → Master → Master
receive exit_code a m = record m {
  flags = signal_handler process_master a.daemonized a.changing a.signal m.flags;
  table = elim a.signal [ sigchld ↦ (get_status exit_code a.waits m.table).0 | _ ↦ m.table ];
}

unfoldable pub receive_all : (ℕ → ℕ) → List Arrival → Master → Master
receive_all exit_code [] m = m
receive_all exit_code (a ∷ rest) m = receive_all exit_code rest (receive exit_code a m)

-- `if (ngx_reap) { ... }`
unfoldable pub reap_all : Outside → Loop → Loop × List Call
reap_all o l =
    let r =
      reap_children o.reaping (record l.master { flags = record (flags_of l) { reap = false } }) in
    if (flags_of l).reap then (record l { master = r.master; live = r.live }, r.calls) else (l, [])

-- ngx_signal_worker_processes from a place of the round.
unfoldable pub signal_from_place : Outside → Place → Signal → Loop → Loop × List Call
signal_from_place o place signal l =
    let (m, calls) = signal_worker_processes signal (o.written place) (o.killed place) l.master in
    (record l { master = m }, calls)

-- ngx_start_worker_processes and ngx_start_cache_manager_processes.
unfoldable pub start_all : Outside → Place → Respawn → Bool → Loop → Loop × List Call
start_all o place mode respawn l =
    let (t1, calls1) = start_worker_processes (o.starts place) l.conf.workers mode l.master.table in
    let (t2, calls2) =
      start_cache_manager_processes (o.starts place) l.conf.manager l.conf.loader respawn t1 in
    (record l { master = record l.master { table = t2 } }, calls1 ++ calls2)

-- `if (ngx_terminate) { ... }`
unfoldable pub terminate_all : Outside → Loop → Loop × List Call
terminate_all o l =
    let started : Loop = record l { delay = if l.delay == 0 then 50 else l.delay } in
    let waiting : Loop = record started { sigio = l.conf.workers + 2 } in
    if not (l.sigio == 0)
    then (record started { sigio = l.sigio - 1 }, [])
    else if ltb 1000 waiting.delay
    then signal_from_place o at_terminate sigkill waiting
    else signal_from_place o at_terminate terminate_signal waiting

unfoldable pub close_sockets : List ℕ → List Call
close_sockets [] = []
close_sockets (fd ∷ fds) = closes_socket fd ∷ close_sockets fds

-- `if (ngx_quit) { ... }`
unfoldable pub quit_all : Outside → Loop → Loop × List Call
quit_all o l =
    let (l', calls) = signal_from_place o at_quit shutdown_signal l in
    (
      record l' { conf = record l'.conf { listening = [] } },
      calls ++ close_sockets l.conf.listening,
    )

-- `if (ngx_restart) { ... }`
unfoldable pub restart_all : Outside → Loop → Loop × List Call
restart_all o l =
    let (l', calls) =
      start_all o at_restart process_respawn false
        (record l { master = record l.master { restart = false } }) in
    if l.master.restart then (record l' { live = true }, calls) else (l, [])

-- `if (ngx_reopen) { ... }`
unfoldable pub reopen_all : Outside → Loop → Loop × List Call
reopen_all o l =
    let (l', calls) =
      signal_from_place o at_reopen reopen_signal
        (set_flags (record (flags_of l) { reopen = false }) l) in
    if (flags_of l).reopen then (l', reopens_files ∷ calls) else (l, [])

-- `if (ngx_change_binary) { ... }`
unfoldable pub start_binary : Outside → Loop → Loop
start_binary o l =
    if (flags_of l).change_binary
    then record l {
      master = record l.master {
        flags = record (flags_of l) { change_binary = false };
        new_binary = o.exec_new_binary;
      };
    }
    else l

-- `if (ngx_noaccept) { ... }`
unfoldable pub stop_accepting : Outside → Loop → Loop × List Call
stop_accepting o l =
    let quiet : Master = record l.master {
      flags = record (flags_of l) { noaccept = false };
      noaccepting = true;
    } in
    if (flags_of l).noaccept
    then signal_from_place o at_noaccept shutdown_signal (record l { master = quiet })
    else (l, [])

-- What the round does from `if (ngx_restart)` on.
unfoldable pub finish_round : Outside → Loop → List Call → Loop × List Call
finish_round o l calls =
    let (l1, calls1) = restart_all o l in
    let (l2, calls2) = reopen_all o l1 in
    let (l3, calls3) = stop_accepting o (start_binary o l2) in
    (l3, calls ++ calls1 ++ calls2 ++ calls3)

-- `ngx_new_binary` as a condition.
unfoldable pub is_set : Option ℕ → Bool
is_set pid = elim pid [ none ↦ true | some n ↦ not (n == 0) ]

-- `if (ngx_reconfigure) { ... }` and what follows it.
unfoldable pub reload : Outside → Loop → Loop × List Call
reload o l =
    let l0 : Loop = set_flags (record (flags_of l) { reconfigure = false }) l in
    let (l1, calls1) = start_all o at_reconfigure process_respawn false l0 in
    if not (flags_of l).reconfigure
    then finish_round o l []
    else if is_set l.master.new_binary
    then (record l1 { master = record l1.master { noaccepting = false } }, calls1)
    else elim o.new_conf [
      | none ↦ (l0, [])
      | some conf ↦
          (let (l2, calls2) =
              start_all o at_reconfigure process_just_respawn true (record l0 { conf = conf }) in
            let (l3, calls3) =
              signal_from_place o at_reconfigure shutdown_signal (record l2 { live = true }) in
            finish_round o l3 (calls2 ++ calls3))
    ]

-- The round from the return of sigsuspend on.
unfoldable pub wake_up : Outside → Loop → Turn
wake_up o l =
    let (l1, calls1) = reap_all o l in
    let f = flags_of l1 in
    let (l2, calls2) : Loop × List Call =
      if f.terminate then terminate_all o l1 else if f.quit then quit_all o l1 else reload o l1 in
    if not l1.live && (f.terminate || f.quit)
    then record { loop = l1; calls = calls1; over = true }
    else record { loop = l2; calls = calls1 ++ calls2; over = false }

-- A round.
unfoldable pub round : Outside → Loop → Turn
round o l =
    let (l1, calls1) = arm l in
    let m = receive_all o.exit_code o.arrivals l1.master in
    let turn = wake_up o (record l1 { master = m }) in record turn { calls = calls1 ++ turn.calls }
