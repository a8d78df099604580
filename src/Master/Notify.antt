-- ===== src/Master/Notify.antt =====
-- ngx_signal_worker_processes of ngx_process_cycle.c: which processes get a command or a signal.
pub mod Signalled
use inside_nginx.Base.{
  ℕ, zero, suc, ◌+◌, Bool, true, false, not, ◌&&◌, ◌||◌, none, some, List, [], ◌∷◌, ◌++◌,
  if◌then◌else◌,
}
use inside_nginx.Process.{Process, put, is_free}
use inside_nginx.Process.Signals.{Signal, reopen_signal, terminate_signal, shutdown_signal}
use inside_nginx.Master.{
  Command, Message, Call, Master, no_command, cmd_quit, cmd_terminate, cmd_reopen, writes, kills,
}

-- The result of kill: 0, or -1 with ESRCH or another error.
pub data Killed : Type 0 where
  delivered missing refused : Killed

unfoldable pub command_of : Signal → Command
command_of shutdown_signal = cmd_quit
command_of terminate_signal = cmd_terminate
command_of reopen_signal = cmd_reopen
command_of s = no_command

unfoldable pub is_shutdown : Signal → Bool
is_shutdown shutdown_signal = true
is_shutdown s = false

unfoldable pub is_reopen : Signal → Bool
is_reopen reopen_signal = true
is_reopen s = false

unfoldable pub is_none : Command → Bool
is_none no_command = true
is_none c = false

unfoldable pub signal_message : Signal → Message
signal_message signal = record { command = command_of signal; pid = some 0; slot = 0; fd = none }

-- `if (signal != NGX_REOPEN_SIGNAL) exiting = 1`
unfoldable pub mark_exiting : Signal → Process → Process
mark_exiting signal p = if is_reopen signal then p else record p { exiting = true }

-- The call of kill and what follows it: the process, and whether ngx_reap is set.
unfoldable pub finish_kill : Signal → Killed → Process → Process × Bool
finish_kill signal delivered p = (mark_exiting signal p, false)
finish_kill signal missing p = (record p { exited = true; exiting = false }, true)
finish_kill signal refused p = (p, false)

-- One round of the loop: the process, the calls, and whether ngx_reap is set. `written` says whether
-- ngx_write_channel returns NGX_OK.
unfoldable pub signal_one : Signal → Bool → Killed → Process → Process × (List Call × Bool)
signal_one signal written killed p =
    let ch = signal_message signal in
    let sends = not (is_none ch.command) in
    let writing = if sends then writes p.channel.first ch ∷ [] else [] in
    let (p', reaps) = finish_kill signal killed p in
    if p.detached || is_free p
    then (p, ([], false))
    else if p.just_spawn
    then (record p { just_spawn = false }, ([], false))
    else if p.exiting && is_shutdown signal
    then (p, ([], false))
    else if sends && written
    then (mark_exiting signal p, (writing, false))
    else (p', (writing ++ kills p.pid signal ∷ [], reaps))

-- The loop over the slots from i on, of which n are left.
unfoldable pub signal_from :
    Signal → (ℕ → Bool) → (ℕ → Killed) → ℕ → ℕ → (ℕ → Process) → (ℕ → Process) × (List Call × Bool)
signal_from signal written killed i zero processes = (processes, ([], false))
signal_from signal written killed i (suc n) processes =
    let (p, (calls, reaps)) = signal_one signal (written i) (killed i) (processes i) in
    let (processes', (calls', reaps')) =
      signal_from signal written killed (i + 1) n (put i p processes) in
    (processes', (calls ++ calls', reaps || reaps'))

-- ngx_signal_worker_processes
unfoldable pub signal_worker_processes :
    Signal → (ℕ → Bool) → (ℕ → Killed) → Master → Master × List Call
signal_worker_processes signal written killed m =
    let (processes, (calls, reaps)) =
      signal_from signal written killed 0 m.table.last m.table.processes in
    (
      record m {
        table = record m.table { processes = processes };
        flags = record m.flags { reap = m.flags.reap || reaps };
      },
      calls,
    )
