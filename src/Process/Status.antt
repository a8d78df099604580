-- ===== src/Process/Status.antt =====
-- ngx_process_get_status of ngx_process.c.
pub mod Marked
use inside_nginx.Base.{
  ℕ, zero, suc, ◌+◌, Bool, true, false, ◌&&◌, none, some, List, [], ◌∷◌, ltb, ◌==◌, if◌then◌else◌,
}
use inside_nginx.Process.{Process, Table, put}

-- What waitpid returns: a child and its status, 0, or -1 with EINTR, ECHILD or another error.
pub data Waited : Type 0 where
  exits : (pid status : ℕ) → Waited
  none_yet interrupted no_child fails : Waited

-- `ngx_processes[i].pid == pid`
unfoldable pub has_pid : ℕ → Process → Bool
has_pid pid p = elim p.pid [ none ↦ false | some n ↦ n == pid ]

-- The loop over the slots from i on, of which n are left; its last value of `i`.
unfoldable pub find_pid : ℕ → ℕ → ℕ → (ℕ → Process) → ℕ
find_pid pid i zero processes = i
find_pid pid i (suc n) processes =
    let rest = find_pid pid (i + 1) n processes in if has_pid pid (processes i) then i else rest

-- `status = status; exited = 1` for the slot i, if the loop has stopped there.
unfoldable pub mark_at : ℕ → ℕ → Table → ℕ → Process
mark_at i status t =
    if ltb i t.last
    then put i (record (t.processes i) { status = status; exited = true }) t.processes
    else t.processes

-- `if (WEXITSTATUS(status) == 2 && ngx_processes[i].respawn) ngx_processes[i].respawn = 0`
unfoldable pub drop_respawn : ℕ → ℕ → (ℕ → Process) → ℕ → Process
drop_respawn i code processes =
    if (code == 2) && (processes i).respawn
    then put i (record (processes i) { respawn = false }) processes
    else processes

module _ (exit_code : ℕ → ℕ) where
  -- One child: `exit_code` is WEXITSTATUS. An unknown child leaves `i` at ngx_last_process.
  unfoldable pub mark : ℕ → ℕ → Table → Table
  mark pid status t =
      let i = find_pid pid 0 t.last t.processes in
      record t { processes = drop_respawn i (exit_code status) (mark_at i status t) }

  -- ngx_process_get_status, with the results of waitpid in their order; the pids for which
  -- ngx_unlock_mutexes is called come with the table.
  unfoldable pub get_status : List Waited → Table → Table × List ℕ
  get_status [] t = (t, [])
  get_status (exits pid status ∷ ws) t =
      let (t', pids) = get_status ws (mark pid status t) in (t', pid ∷ pids)
  get_status (interrupted ∷ ws) t = get_status ws t
  get_status (w ∷ ws) t = (t, [])
