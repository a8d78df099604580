-- ===== src/Master/Worker.antt =====
-- The other loops of ngx_process_cycle.c: ngx_worker_process_cycle, ngx_channel_handler, the cache
-- processes, and ngx_single_process_cycle.
--
-- ngx_process_events_and_timers is no part of the source; a round takes the flags as they are after
-- it.
use inside_nginx.Base.{
  ℕ, zero, suc, ◌+◌, Bool, true, false, not, ◌&&◌, ◌||◌, Option, none, some, List, [], ◌∷◌, ◌++◌,
  leb, ◌==◌, if◌then◌else◌,
}
use inside_nginx.Process.{Process, Table, put, is_free}
use inside_nginx.Process.Signals.{Flags}
use inside_nginx.Master.{
  Message, is_closed, no_command, cmd_open_channel, cmd_close_channel, cmd_quit, cmd_terminate,
  cmd_reopen,
}

-- A worker: its flags, ngx_exiting and its table of processes.
pub record WorkerState : Type 0 where
  pub flags : Flags
  pub exiting : Bool
  pub table : Table

-- What a worker does that is seen from outside.
pub data Deed : Type 0 where
  exits sets_shutdown_timer closes_listening_sockets closes_idle_connections reopens : Deed
  closes_fd : Option ℕ → Deed
  closes_connection adds_event : Deed

-- `if (ngx_quit) { ... }`
unfoldable pub shut_down : WorkerState → WorkerState × List Deed
shut_down w =
    let w' : WorkerState = record w { flags = record w.flags { quit = false }; exiting = true } in
    if not w.flags.quit
    then (w, [])
    else if w.exiting
    then (w', [])
    else (w', sets_shutdown_timer ∷ closes_listening_sockets ∷ closes_idle_connections ∷ [])

-- `if (ngx_reopen) { ... }`
unfoldable pub reopen_logs : WorkerState → WorkerState × List Deed
reopen_logs w =
    if w.flags.reopen
    then (record w { flags = record w.flags { reopen = false } }, reopens ∷ [])
    else (w, [])

-- A round of ngx_worker_process_cycle: whether it goes on, the state, and what was done. `idle` says
-- that ngx_event_no_timers_left returns NGX_OK, and `events` is the effect of the events.
unfoldable pub worker_round :
    Bool → (WorkerState → WorkerState) → WorkerState → Bool × (WorkerState × List Deed)
worker_round idle events w =
    let w1 = events w in
    let (w2, deeds2) = shut_down w1 in
    let (w3, deeds3) = reopen_logs w2 in
    if w.exiting && idle
    then (false, (w, exits ∷ []))
    else if w1.flags.terminate
    then (false, (w1, exits ∷ []))
    else (true, (w3, deeds2 ++ deeds3))

-- The switch of ngx_channel_handler.
unfoldable pub obey : Message → WorkerState → WorkerState × List Deed
obey ch w = elim ch.command [
  | no_command ↦ (w, [])
  | cmd_quit ↦ (record w { flags = record w.flags { quit = true } }, [])
  | cmd_terminate ↦ (record w { flags = record w.flags { terminate = true } }, [])
  | cmd_reopen ↦ (record w { flags = record w.flags { reopen = true } }, [])
  | cmd_open_channel ↦
      (let p = w.table.processes ch.slot in
        let p' : Process = record p {
          pid = ch.pid;
          channel = record p.channel { first = ch.fd };
        } in
        (record w { table = record w.table { processes = put ch.slot p' w.table.processes } }, []))
  | cmd_close_channel ↦
      (let p = w.table.processes ch.slot in
        let p' : Process = record p { channel = record p.channel { first = none } } in
        (
          record w { table = record w.table { processes = put ch.slot p' w.table.processes } },
          closes_fd p.channel.first ∷ [],
        ))
]

-- What ngx_read_channel returns: a message, NGX_AGAIN or NGX_ERROR.
pub data Received : Type 0 where
  message : Message → Received
  try_again failure : Received

-- ngx_channel_handler after the test of `timedout`, with the results of ngx_read_channel in their
-- order; the case of event ports is left out.
unfoldable pub channel_handler : List Received → WorkerState → WorkerState × List Deed
channel_handler [] w = (w, [])
channel_handler (try_again ∷ rs) w = (w, [])
channel_handler (failure ∷ rs) w = (w, closes_connection ∷ [])
channel_handler (message ch ∷ rs) w =
    let (w', deeds) = obey ch w in
    let (w'', deeds') = channel_handler rs w' in (w'', deeds ++ deeds')

-- The loop of ngx_worker_process_init over the slots from n on, of which k are left: the second
-- descriptors of the channels of the other processes are closed.
unfoldable pub close_others : ℕ → ℕ → ℕ → (ℕ → Process) → List Deed
close_others slot n zero processes = []
close_others slot n (suc k) processes =
    let rest = close_others slot (n + 1) k processes in
    let p = processes n in
    if is_free p || (n == slot) || is_closed p.channel.second
    then rest
    else closes_fd p.channel.second ∷ rest

-- The end of ngx_worker_process_init: the own channel is the second descriptor, and events are read
-- from it.
unfoldable pub close_channels : Table → List Deed
close_channels t =
    close_others t.slot 0 t.last t.processes
    ++ closes_fd (t.processes t.slot).channel.first ∷ adds_event ∷ []

-- The loop of ngx_cache_manager_process_handler over the results of the managers, none where a path
-- has no manager.
unfoldable pub next_time : List (Option ℕ) → ℕ → ℕ
next_time [] next = next
next_time (none ∷ ns) next = next_time ns next
next_time (some n ∷ ns) next = next_time ns (if leb n next then n else next)

-- ngx_cache_manager_process_handler: the delay of its next timer.
unfoldable pub cache_manager_delay : List (Option ℕ) → ℕ
cache_manager_delay results = let next = next_time results 3600000 in if next == 0 then 1 else next

-- The loop of ngx_cache_loader_process_handler over the paths: the paths whose loader is run. Each
-- path says whether it has a loader and whether ngx_terminate or ngx_quit is set when it is reached.
unfoldable pub run_loaders : ℕ → List (Bool × Bool) → List ℕ
run_loaders i [] = []
run_loaders i ((loader, stopped) ∷ paths) =
    let rest = run_loaders (i + 1) paths in
    if stopped then [] else if loader then i ∷ rest else rest

-- A round of ngx_cache_manager_process_cycle before the events: whether it goes on.
unfoldable pub helper_round : WorkerState → Bool × (WorkerState × List Deed)
helper_round w =
    if w.flags.terminate || w.flags.quit then (false, (w, exits ∷ [])) else (true, reopen_logs w)

-- A round of ngx_single_process_cycle after the events: whether it goes on, the flags, and whether
-- the logs are reopened. `inits` says whether ngx_init_cycle succeeds; the exit of the modules is
-- left out.
unfoldable pub single_round : Bool → Flags → Bool × (Flags × Bool)
single_round inits f =
    let f1 : Flags = record f { reconfigure = false } in
    if f.terminate || f.quit
    then (false, (f, false))
    else if f.reconfigure && not inits
    then (true, (f1, false))
    else if f1.reopen
    then (true, (record f1 { reopen = false }, true))
    else (true, (f1, false))
