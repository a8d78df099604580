-- ===== src/Process/Signals.antt =====
-- ngx_process.c: the table of signals, ngx_init_signals, ngx_signal_handler without its call of
-- ngx_process_get_status, and ngx_os_signal_process.
use inside_nginx.Base.{
  same_name, error, ok, ℕ, Bool, true, false, not, List, [], ◌∷◌, if◌then◌else◌, Rc,
}

-- The signals of the table and SIGKILL; those that ngx_config.h chooses have the names of their
-- macros.
pub data Signal : Type 0 where
  reconfigure_signal reopen_signal noaccept_signal terminate_signal shutdown_signal : Signal
  changebin_signal sigalrm sigint sigio sigchld sigsys sigpipe sigkill : Signal

-- The global flags of ngx_process_cycle.c that the handler sets.
pub record Flags : Type 0 where
  pub reap : Bool
  pub io : Bool
  pub alarm : Bool
  pub terminate : Bool
  pub quit : Bool
  pub debug_quit : Bool
  pub reconfigure : Bool
  pub reopen : Bool
  pub change_binary : Bool
  pub noaccept : Bool

-- ngx_process
pub data Kind : Type 0 where
  process_single process_master process_signaller process_worker process_helper : Kind

-- An entry of `signals`: the number, the name of the command, and whether there is a handler.
pub record Entry : Type 0 where
  pub signo : Signal
  pub command : List ℕ
  pub handled : Bool

-- "reload", "reopen", "stop" and "quit"
abbrev pub reload_command : List ℕ
reload_command = 114 ∷ 101 ∷ 108 ∷ 111 ∷ 97 ∷ 100 ∷ []

abbrev pub reopen_command : List ℕ
reopen_command = 114 ∷ 101 ∷ 111 ∷ 112 ∷ 101 ∷ 110 ∷ []

abbrev pub stop_command : List ℕ
stop_command = 115 ∷ 116 ∷ 111 ∷ 112 ∷ []

abbrev pub quit_command : List ℕ
quit_command = 113 ∷ 117 ∷ 105 ∷ 116 ∷ []

abbrev signal_entry : Signal → List ℕ → Bool → Entry
signal_entry s command handled = record { signo = s; command = command; handled = handled }

-- `signals`, without the entry that ends it.
abbrev pub signals : List Entry
signals =
    signal_entry reconfigure_signal reload_command true
    ∷ signal_entry reopen_signal reopen_command true
    ∷ signal_entry noaccept_signal [] true
    ∷ signal_entry terminate_signal stop_command true
    ∷ signal_entry shutdown_signal quit_command true
    ∷ signal_entry changebin_signal [] true
    ∷ signal_entry sigalrm [] true
    ∷ signal_entry sigint [] true
    ∷ signal_entry sigio [] true
    ∷ signal_entry sigchld [] true
    ∷ signal_entry sigsys [] false
    ∷ signal_entry sigpipe [] false
    ∷ []

-- What a process does with a signal: what is installed last counts.
pub data Disposition : Type 0 where
  by_default ignores handles : Disposition

-- ngx_init_signals: the calls of sigaction that are made, and whether all succeed.
unfoldable pub init_signals : (Signal → Bool) → List Entry → Rc × List (Signal × Disposition)
init_signals accepts [] = (ok, [])
init_signals accepts (e ∷ es) =
    let (rc, calls) = init_signals accepts es in
    let call : Signal × Disposition = (e.signo, if e.handled then handles else ignores) in
    if accepts e.signo then (rc, call ∷ calls) else (error, call ∷ [])

-- The case of the master and of the single process. `changing` says that the parent is still the one
-- that started this binary, or that a new binary runs.
unfoldable pub master_signal : Bool → Bool → Signal → Flags → Flags
master_signal daemonized changing shutdown_signal f = record f { quit = true }
master_signal daemonized changing terminate_signal f = record f { terminate = true }
master_signal daemonized changing sigint f = record f { terminate = true }
master_signal daemonized changing noaccept_signal f =
    if daemonized then record f { noaccept = true } else f
master_signal daemonized changing reconfigure_signal f = record f { reconfigure = true }
master_signal daemonized changing reopen_signal f = record f { reopen = true }
master_signal daemonized changing changebin_signal f =
    if changing then f else record f { change_binary = true }
master_signal daemonized changing sigalrm f = record f { alarm = true }
master_signal daemonized changing sigio f = record f { io = true }
master_signal daemonized changing sigchld f = record f { reap = true }
master_signal daemonized changing s f = f

-- The case of the workers and helpers.
unfoldable pub worker_signal : Bool → Signal → Flags → Flags
worker_signal daemonized noaccept_signal f =
    if daemonized then record f { debug_quit = true; quit = true } else f
worker_signal daemonized shutdown_signal f = record f { quit = true }
worker_signal daemonized terminate_signal f = record f { terminate = true }
worker_signal daemonized sigint f = record f { terminate = true }
worker_signal daemonized reopen_signal f = record f { reopen = true }
worker_signal daemonized s f = f

unfoldable pub signal_handler : Kind → Bool → Bool → Signal → Flags → Flags
signal_handler process_single daemonized changing s f = master_signal daemonized changing s f
signal_handler process_master daemonized changing s f = master_signal daemonized changing s f
signal_handler process_signaller daemonized changing s f = f
signal_handler process_worker daemonized changing s f = worker_signal daemonized s f
signal_handler process_helper daemonized changing s f = worker_signal daemonized s f

-- ngx_os_signal_process over `signals`: 0 for a signal that was sent and 1 for none, and the calls of
-- kill; `sends` says whether kill succeeds.
unfoldable pub os_signal_process : (Signal → Bool) → List ℕ → List Entry → ℕ × List Signal
os_signal_process sends name [] = (1, [])
os_signal_process sends name (e ∷ es) =
    let (rc, calls) = os_signal_process sends name es in
    if not (same_name name e.command)
    then (rc, calls)
    else if sends e.signo
    then (0, e.signo ∷ [])
    else (rc, e.signo ∷ calls)
