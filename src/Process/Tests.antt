-- ===== src/Process/Tests.antt =====
-- Runs of ngx_process.c on a table of two processes.
use inside_nginx.Base.{
  ℕ, zero, suc, ◌+◌, ◌/◌, ◌≡◌, refl, true, false, ◌||◌, Option, none, some, [], ◌∷◌, arith, ◌==◌,
  if◌then◌else◌,
}
use inside_nginx.Process.{
  Channel, Process, Table, Answers, process_respawn, at_slot, choose_slot, is_detached, spawn,
  max_processes,
}
use inside_nginx.Process.Spawn.{IsRewired, IsPlaced, spawn-failed, spawn-IsPlaced}
use inside_nginx.Process.Signals.{terminate_signal, stop_command, signals, os_signal_process}
use inside_nginx.Process.Status.{Waited, exits, interrupted, no_child, get_status}
use inside_nginx.Process.Status.Marked.{IsDistinct, reported, has_one_of, get_status-exited}

abbrev worker : ℕ → ℕ → Process
worker pid fd = record {
  pid = some pid;
  status = 0;
  channel = record { first = some fd; second = some (fd + 1) };
  proc = 1;
  argument = 0;
  name = 1;
  respawn = true;
  just_spawn = false;
  detached = false;
  exiting = false;
  exited = false;
}

-- The processes 100 and 101.
abbrev two_workers : Table
two_workers = record {
  processes = λ u. if u == 0 then worker 100 4 else worker 101 6;
  last = 2;
  slot = 1;
  channel = some 7;
}

abbrev answers : Option ℕ → Answers
answers pid = record {
  pair = some (8, 9);
  nonblocking_first = true;
  nonblocking_second = true;
  async = true;
  owner = true;
  cloexec_first = true;
  cloexec_second = true;
  fork = pid;
}

-- fork fails.
spawn-failed_example :
    ((s : ℕ) × IsRewired s two_workers (spawn (answers none) 1 2 1 process_respawn two_workers).1.0)
    × ((s x y : ℕ)
        → choose_slot process_respawn two_workers ≡ some s
        → is_detached process_respawn ≡ false
        → (answers none).pair ≡ some (x, y)
        → (spawn (answers none) 1 2 1 process_respawn two_workers).1.1
          ≡ record { first = some x; second = some y } ∷ [])
unfolding spawn choose_slot inside_nginx.Process.first_free inside_nginx.Process.find_free
    inside_nginx.Process.is_free inside_nginx.Process.open_channel is_detached
    inside_nginx.Process.open_pair inside_nginx.Process.configures
spawn-failed_example = spawn-failed (answers none) 1 2 1 process_respawn two_workers refl

spawn-IsPlaced_example :
    IsPlaced 102 two_workers (spawn (answers (some 102)) 1 2 1 process_respawn two_workers).1.0
unfolding spawn choose_slot inside_nginx.Process.first_free inside_nginx.Process.find_free
    inside_nginx.Process.is_free inside_nginx.Process.open_channel is_detached
    inside_nginx.Process.open_pair inside_nginx.Process.configures
spawn-IsPlaced_example =
    spawn-IsPlaced (answers (some 102)) 1 2 1 102 process_respawn two_workers refl (omega arith)
      refl

abbrev exit_code : ℕ → ℕ
exit_code status = status / 256

two_workers-IsDistinct : IsDistinct two_workers
unfolding inside_nginx.Process.Status.has_pid
two_workers-IsDistinct n zero zero hi hj ei ej = refl
two_workers-IsDistinct n zero (suc zero) hi hj ei ej = absurd (ground (arith, ei, ej))
two_workers-IsDistinct n (suc zero) zero hi hj ei ej = absurd (ground (arith, ei, ej))
two_workers-IsDistinct n (suc zero) (suc zero) hi hj ei ej = refl
two_workers-IsDistinct n zero (suc (suc j)) hi hj ei ej = absurd (omega (arith, hj))
two_workers-IsDistinct n (suc zero) (suc (suc j)) hi hj ei ej = absurd (omega (arith, hj))
two_workers-IsDistinct n (suc (suc i)) j hi hj ei ej = absurd (omega (arith, hi))

-- Process 101 exits with code 2, after an interruption.
get_status-exited_example :
    (((get_status exit_code (interrupted ∷ exits 101 512 ∷ no_child ∷ []) two_workers).0.processes
        1).exited
      ≡ ((two_workers.processes 1).exited
          || has_one_of
              (reported (interrupted ∷ exits 101 512 ∷ no_child ∷ []))
              (two_workers.processes 1)))
    × (((get_status exit_code (interrupted ∷ exits 101 512 ∷ no_child ∷ []) two_workers).0.processes
          1).pid
        ≡ (two_workers.processes 1).pid)
get_status-exited_example =
    get_status-exited exit_code (interrupted ∷ exits 101 512 ∷ no_child ∷ []) two_workers 1
      two_workers-IsDistinct (omega arith)

os_signal_process_stop :
    os_signal_process (λ s. true) stop_command signals ≡ (0, terminate_signal ∷ [])
unfolding os_signal_process
os_signal_process_stop = refl
