-- ===== src/Master/Reap.antt =====
-- ngx_reap_children of ngx_process_cycle.c.
pub mod Steps
pub mod Reaped
use inside_nginx.Base.{
  ℕ, zero, suc, ◌+◌, ◌-◌, Bool, true, false, not, ◌&&◌, ◌||◌, Option, none, some, List, [], ◌∷◌,
  ◌++◌, ltb, ◌==◌, if◌then◌else◌,
}
use inside_nginx.Process.{Process, Table, Answers, put, is_free, set_channel, spawn, at_slot}
use inside_nginx.Process.Signals.{Flags}
use inside_nginx.Master.{
  close_calls, Message, Call, Master, cmd_open_channel, cmd_close_channel, closes, is_closed,
  broadcast, pass_open_channel,
}

-- The locals `ch` and `live`, the globals, and the calls that have been made. The field `command` of
-- `ch` keeps its value from one process to the next, as in the source.
pub record Round : Type 0 where
  pub master : Master
  pub message : Message
  pub live : Bool
  pub calls : List Call

unfoldable pub process_at : Round → ℕ → Process
process_at r i = r.master.table.processes i

unfoldable pub set_table : Table → Round → Round
set_table t r = record r { master = record r.master { table = t } }

-- `if (!ngx_processes[i].detached) { ... }` for a process that has exited.
unfoldable pub close_exited : ℕ → Round → Round
close_exited i r =
    let p = process_at r i in
    let t = set_channel i (record { first = none; second = none }) r.master.table in
    let ch = record r.message { pid = p.pid; slot = i } in
    let told =
      broadcast (λ n q. q.exited || is_free q || is_closed q.channel.first) ch 0 t.last
        t.processes in
    record (set_table t r) { message = ch; calls = r.calls ++ closes p.channel ∷ told }

-- The process is spawned again in its slot.
unfoldable pub spawn_again : Answers → ℕ → Round → Round
spawn_again a i r =
    let p = process_at r i in
    let (pid, (t, closed)) = spawn a p.proc p.argument p.name (at_slot i) r.master.table in
    let r' : Round = record (set_table t r) { calls = r.calls ++ close_calls closed } in
    elim pid [
      | none ↦ r'
      | some n ↦
          (let ch = record r.message {
            command = cmd_open_channel;
            pid = (t.processes t.slot).pid;
            slot = t.slot;
            fd = (t.processes t.slot).channel.first;
          } in
            record r' { message = ch; live = true; calls = r'.calls ++ pass_open_channel ch t })
    ]

unfoldable pub same_pid : Option ℕ → Option ℕ → Bool
same_pid (some x) (some y) = x == y
same_pid none none = true
same_pid x y = false

-- The new binary has exited: `if (ngx_processes[i].pid == ngx_new_binary) { ... }`, without the
-- renaming of the file.
unfoldable pub forget_binary : Option ℕ → Master → Master
forget_binary pid m =
    if not (same_pid pid m.new_binary)
    then m
    else if m.noaccepting
    then record m { new_binary = some 0; restart = true; noaccepting = false }
    else record m { new_binary = some 0 }

-- The slot is given up.
unfoldable pub free_slot : ℕ → Table → Table
free_slot i t =
    if i + 1 == t.last
    then record t { last = t.last - 1 }
    else record t { processes = put i (record (t.processes i) { pid = none }) t.processes }

unfoldable pub drop_exited : ℕ → Round → Round
drop_exited i r =
    let m = forget_binary (process_at r i).pid r.master in
    record r { master = record m { table = free_slot i m.table } }

-- `ngx_processes[i].respawn && !exiting && !ngx_terminate && !ngx_quit`
unfoldable pub respawns : Flags → Process → Bool
respawns f p = p.respawn && not p.exiting && not f.terminate && not f.quit

unfoldable pub reap_exited : Answers → ℕ → Round → Round
reap_exited a i r =
    if respawns r.master.flags (process_at r i) then spawn_again a i r else drop_exited i r

-- One round of the loop.
unfoldable pub reap_slot : Answers → ℕ → Round → Round
reap_slot a i r =
    let p = process_at r i in
    if is_free p
    then r
    else if p.exited
    then reap_exited a i (if p.detached then r else close_exited i r)
    else if p.exiting || not p.detached
    then record r { live = true }
    else r

-- The loop from slot i on, for at most n rounds.
unfoldable pub reap_from : (ℕ → Answers) → ℕ → ℕ → Round → Round
reap_from answers i zero r = r
reap_from answers i (suc n) r =
    let rest = reap_from answers (i + 1) n (reap_slot (answers i) i r) in
    if ltb i r.master.table.last then rest else r

-- The locals at the start.
abbrev pub first_round : Master → Round
first_round m = record {
  master = m;
  message = record { command = cmd_close_channel; pid = some 0; slot = 0; fd = none };
  live = false;
  calls = [];
}

-- ngx_reap_children: `live`, the globals and the calls. No more rounds are made than there are slots
-- at the start, since ngx_last_process does not grow.
unfoldable pub reap_children : (ℕ → Answers) → Master → Round
reap_children answers m = reap_from answers 0 m.table.last (first_round m)
