-- ===== src/Cycle/Clean.antt =====
-- ngx_cycle.c: the end of old cycles and of a shutdown, the pid file, and ngx_signal_process.
use inside_nginx.Base.{
  map, ℕ, ◌+◌, Bool, true, false, ◌&&◌, ◌||◌, Option, none, some, List, [], ◌∷◌, ◌==◌,
  if◌then◌else◌,
}
use inside_nginx.Process.Signals.{Signal, signals, os_signal_process}

-- The fields of a connection that the handlers read and set; `watched` says that it has a read event
-- that is not for accepting, for a channel or for a resolver.
pub record Connection : Type 0 where
  pub fd : Option ℕ
  pub watched : Bool
  pub close : Bool
  pub error : Bool

-- The loop over the connections of an old cycle: `found`.
unfoldable pub has_live : List Connection → Bool
has_live [] = false
has_live (c ∷ cs) = let rest = has_live cs in elim c.fd [ none ↦ rest | some fd ↦ true ]

-- The loop over ngx_old_cycles, where a cycle is its connections and none is NULL: the entries, the
-- positions of those that are destroyed, and `live`.
unfoldable pub clean_from :
    ℕ → List (Option (List Connection)) → List (Option (List Connection)) × (List ℕ × Bool)
clean_from i [] = ([], ([], false))
clean_from i (none ∷ cs) =
    let (cs', (gone, live)) = clean_from (i + 1) cs in (none ∷ cs', (gone, live))
clean_from i (some c ∷ cs) =
    let (cs', (gone, live)) = clean_from (i + 1) cs in
    if has_live c then (some c ∷ cs', (gone, true)) else (none ∷ cs', (i ∷ gone, live))

-- ngx_clean_old_cycles: the entries of ngx_old_cycles, the positions that are destroyed, and the
-- delay of the timer, if it is set again.
unfoldable pub clean_old_cycles :
    List (Option (List Connection)) → List (Option (List Connection)) × (List ℕ × Option ℕ)
clean_old_cycles cycles =
    let (cycles', (gone, live)) = clean_from 0 cycles in
    if live then (cycles', (gone, some 30000)) else ([], (gone, none))

-- ngx_set_shutdown_timer: the delay of the timer, which is cancelable, if it is set.
unfoldable pub set_shutdown_timer : ℕ → Option ℕ
set_shutdown_timer timeout = if timeout == 0 then none else some timeout

-- ngx_shutdown_timer_handler: the connections, and the positions whose read handler is called.
unfoldable pub shut_connections : ℕ → List Connection → List Connection × List ℕ
shut_connections i [] = ([], [])
shut_connections i (c ∷ cs) =
    let (cs', called) = shut_connections (i + 1) cs in
    elim c.fd [
      | none ↦ (c ∷ cs', called)
      | some fd ↦
          (if c.watched
            then (record c { close = true; error = true } ∷ cs', i ∷ called)
            else (c ∷ cs', called))
    ]

-- ngx_create_pidfile: whether it returns NGX_OK. `worker` says that ngx_process is above
-- NGX_PROCESS_MASTER, `opens` and `writes` that the calls succeed.
unfoldable pub create_pidfile : (worker test_config opens writes : Bool) → Bool
create_pidfile worker test_config opens writes = worker || (opens && (test_config || writes))

-- CR and LF.
unfoldable pub is_line_end : ℕ → Bool
is_line_end c = (c == 13) || (c == 10)

-- `while (n-- && (buf[n] == CR || buf[n] == LF))` and `++n`: the bytes before the line ends at the
-- end.
unfoldable pub trim_end : List ℕ → List ℕ
trim_end [] = []
trim_end (c ∷ cs) = elim (trim_end cs) [
  | [] ↦ (if is_line_end c then [] else c ∷ [])
  | d ∷ ds ↦ c ∷ d ∷ ds
]

-- ngx_signal_process: its result and the signals that are sent. `content` is what the pid file holds
-- if it can be read, ngx_atoi is a parameter, and `sends` says whether kill succeeds for a pid and a
-- signal.
unfoldable pub signal_process :
    (List ℕ → Option ℕ) → Option (List ℕ) → (ℕ → Signal → Bool) → List ℕ → ℕ × List (ℕ × Signal)
signal_process atoi content sends name = elim content [
  | none ↦ (1, [])
  | some bytes ↦ (elim (atoi (trim_end bytes)) [
    | none ↦ (1, [])
    | some pid ↦
        (let (rc, sent) = os_signal_process (sends pid) name signals in
          (rc, map (λ (s : Signal). (pid, s)) sent))
  ])
]
