-- ===== src/Master/Start.antt =====
-- ngx_start_worker_processes and ngx_start_cache_manager_processes of ngx_process_cycle.c.
--
-- Numbers stand for the addresses: of ngx_worker_process_cycle and ngx_cache_manager_process_cycle,
-- of the two contexts of cache processes, and of the names.
use inside_nginx.Base.{ℕ, zero, suc, ◌+◌, Bool, not, List, [], ◌++◌, if◌then◌else◌}
use inside_nginx.Process.{
  Table, Answers, Respawn, process_norespawn, process_just_spawn, process_respawn,
  process_just_respawn, spawn,
}
use inside_nginx.Master.{Call, close_calls, pass_open_channel, open_message}

abbrev pub worker_process_cycle : ℕ
worker_process_cycle = 1

abbrev pub cache_manager_process_cycle : ℕ
cache_manager_process_cycle = 2

abbrev pub cache_manager_ctx : ℕ
cache_manager_ctx = 1

abbrev pub cache_loader_ctx : ℕ
cache_loader_ctx = 2

-- What the system calls answer while processes are started.
pub record Starts : Type 0 where
  pub workers : ℕ → Answers
  pub manager : Answers
  pub loader : Answers

-- Spawning a process and announcing the process of ngx_process_slot, even if the spawning failed.
unfoldable pub start_process : Answers → ℕ → ℕ → ℕ → Respawn → Table → Table × List Call
start_process a proc argument name mode t =
    let (pid, (t', closed)) = spawn a proc argument name mode t in
    (t', close_calls closed ++ pass_open_channel (open_message t') t')

-- The loop from worker i on, of which n are left.
unfoldable pub start_workers_from : (ℕ → Answers) → Respawn → ℕ → ℕ → Table → Table × List Call
start_workers_from answers mode i zero t = (t, [])
start_workers_from answers mode i (suc n) t =
    let (t', calls) = start_process (answers i) worker_process_cycle i 1 mode t in
    let (t'', calls') = start_workers_from answers mode (i + 1) n t' in (t'', calls ++ calls')

-- ngx_start_worker_processes
unfoldable pub start_worker_processes : Starts → ℕ → Respawn → Table → Table × List Call
start_worker_processes a n mode t = start_workers_from a.workers mode 0 n t

-- ngx_start_cache_manager_processes; the flags say whether a path has a manager and a loader.
unfoldable pub start_cache_manager_processes :
    Starts → Bool → Bool → Bool → Table → Table × List Call
start_cache_manager_processes a manager loader respawn t =
    let (t1, calls1) =
      start_process a.manager cache_manager_process_cycle cache_manager_ctx 2
        (if respawn then process_just_respawn else process_respawn) t in
    let (t2, calls2) =
      start_process a.loader cache_manager_process_cycle cache_loader_ctx 3
        (if respawn then process_just_spawn else process_norespawn) t1 in
    if not manager then (t, []) else if not loader then (t1, calls1) else (t2, calls1 ++ calls2)
