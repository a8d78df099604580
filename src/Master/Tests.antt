-- ===== src/Master/Tests.antt =====
-- Runs of ngx_process_cycle.c with a worker that exits.
use mathlib.Core.List.{Memᴰ}
use inside_nginx.Process.Signals.{sigkill}
use inside_nginx.Master.{kills}
use inside_nginx.Master.Start.{Starts}
use inside_nginx.Master.Cycle.{Outside, Loop, flags_of, round, wake_up}
use inside_nginx.Master.Cycle.Exit.{IsLeft, wake_up-over}
use inside_nginx.Master.Cycle.Kill.{reaped_in, round-kills}
use inside_nginx.Base.{
  refl, none, ◌/◌, [], arith, ◌||◌, ℕ, ◌+◌, ◌≤◌, ◌<◌, ◌≡◌, Bool, true, false, some, ◌==◌,
  if◌then◌else◌,
}
use inside_nginx.Process.{Process, Answers}
use inside_nginx.Process.Signals.{Flags, shutdown_signal}
use inside_nginx.Master.{Master}
use inside_nginx.Master.Notify.{delivered, signal_worker_processes}
use inside_nginx.Master.Notify.Signalled.{IsSignalled, signal_worker_processes-IsSignalled}
use inside_nginx.Master.Reap.{reap_children}
use inside_nginx.Master.Reap.Reaped.{reap_children-IsReaped}
use inside_nginx.Master.Reap.Steps.{IsReaped}

abbrev worker : ℕ → ℕ → Bool → Process
worker pid fd exited = record {
  pid = some pid;
  status = 0;
  channel = record { first = some fd; second = some (fd + 1) };
  proc = 1;
  argument = 0;
  name = 1;
  respawn = true;
  just_spawn = false;
  detached = false;
  exiting = false;
  exited = exited;
}

abbrev quiet : Flags
quiet = record {
  reap = false;
  io = false;
  alarm = false;
  terminate = false;
  quit = false;
  debug_quit = false;
  reconfigure = false;
  reopen = false;
  change_binary = false;
  noaccept = false;
}

-- The worker 100 has exited.
abbrev master : Master
master = record {
  table = record {
    processes = λ u. if u == 0 then worker 100 4 true else worker 101 6 false;
    last = 2;
    slot = 1;
    channel = some 7;
  };
  flags = quiet;
  new_binary = some 0;
  noaccepting = false;
  restart = false;
}

abbrev answers : ℕ → Answers
answers i = record {
  pair = some (8, 9);
  nonblocking_first = true;
  nonblocking_second = true;
  async = true;
  owner = true;
  cloexec_first = true;
  cloexec_second = true;
  fork = some 102;
}

reap_children-IsReaped_example :
    ((reap_children answers master).master.flags ≡ master.flags)
    × ((u : ℕ)
        → u < (reap_children answers master).master.table.last
        → IsReaped
            (answers u)
            u
            (reap_children answers master).live
            master.flags
            ((reap_children answers master).master.table.processes u))
reap_children-IsReaped_example = reap_children-IsReaped answers master

-- The channel of the worker 101 cannot be written, and kill reaches it.
signal_worker_processes-IsSignalled_example :
    (1 < master.table.last
      → IsSignalled shutdown_signal delivered (master.table.processes 1) (
          (signal_worker_processes shutdown_signal
              (λ u. false)
              (λ u. delivered)
              master).0.table.processes
            1))
    × (master.table.last ≤ 1
        → (signal_worker_processes shutdown_signal
              (λ u. false)
              (λ u. delivered)
              master).0.table.processes
            1
          ≡ master.table.processes 1)
signal_worker_processes-IsSignalled_example =
    signal_worker_processes-IsSignalled shutdown_signal (λ u. false) (λ u. delivered) master 1

abbrev starts : Starts
starts = record { workers = answers; manager = answers 0; loader = answers 1 }

-- No signals arrive, and every call succeeds.
abbrev outside : Outside
outside = record {
  exit_code = λ status. status / 256;
  arrivals = [];
  reaping = answers;
  starts = λ place. starts;
  written = λ place u. true;
  killed = λ place u. delivered;
  new_conf = none;
  exec_new_binary = none;
}

-- The termination has been going on for a while, and the worker 100 is not gone.
abbrev late : Loop
late = record {
  master = record master {
    table = record { processes = λ u. worker 100 4 false; last = 1; slot = 0; channel = some 5 };
    flags = record quiet { alarm = true; terminate = true };
  };
  conf = record { workers = 1; listening = []; manager = false; loader = false };
  delay = 800;
  sigio = 2;
  live = true;
}

round-kills_example :
    Memᴰ
      (kills ((reaped_in outside late).master.table.processes 0).pid sigkill)
      (round outside late).calls
unfolding round wake_up inside_nginx.Master.Cycle.reap_all inside_nginx.Master.Cycle.receive_all
    inside_nginx.Master.Cycle.arm inside_nginx.Master.Cycle.set_flags inside_nginx.Process.is_free
round-kills_example =
    round-kills outside late 0 refl refl (omega arith) (omega arith) refl (omega arith) (refl, refl)

-- The worker is gone, and its end has been noted.
abbrev ended : Loop
ended = record late {
  master = record master {
    table = record { processes = λ u. worker 100 4 true; last = 1; slot = 0; channel = some 5 };
    flags = record quiet { reap = true; terminate = true };
  };
}

wake_up-over_example :
    (((flags_of (wake_up outside ended).loop).terminate
        || (flags_of (wake_up outside ended).loop).quit)
      ≡ true)
    × ((u : ℕ)
        → u < (wake_up outside ended).loop.master.table.last
        → IsLeft ((wake_up outside ended).loop.master.table.processes u))
unfolding wake_up inside_nginx.Master.Cycle.reap_all reap_children
    inside_nginx.Master.Reap.reap_from inside_nginx.Master.Reap.reap_slot
    inside_nginx.Process.is_free inside_nginx.Master.Reap.process_at
    inside_nginx.Master.Reap.reap_exited inside_nginx.Master.Reap.respawns
    inside_nginx.Master.Reap.close_exited inside_nginx.Master.Reap.set_table
    inside_nginx.Process.set_channel inside_nginx.Process.put inside_nginx.Master.Reap.drop_exited
    inside_nginx.Master.Reap.forget_binary inside_nginx.Master.Reap.same_pid
wake_up-over_example = wake_up-over outside ended refl refl
