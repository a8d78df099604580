-- ===== src/Process.antt =====
-- ngx_process.c: the table of child processes and ngx_spawn_process.
--
-- A pid or a descriptor is a number, and -1 is `none`. The addresses of functions, of their
-- arguments and of names are numbers too. The answers of the system calls are a record; only the
-- parent's way through fork is followed, since the child goes into `proc` and stays there. The calls
-- of ngx_close_channel, which is no part of the source, are collected with the result.
pub mod Slots
pub mod Spawn
pub mod Status
pub mod Signals
mod Tests
use inside_nginx.Base.{
  ℕ, zero, suc, ◌+◌, ◌-◌, ◌*◌, ◌/◌, ◌%◌, ◌^◌, ◌≤◌, ◌<◌, ◌≡◌, refl, sym, ap, ap₂, ◌∙◌, ◌≢◌, ◌↔◌, ◌⊎◌,
  inl, inr, Bool, true, false, not, ◌&&◌, ◌||◌, Option, none, some, List, [], ◌∷◌, ◌++◌, arith, ltb,
  leb, ◌==◌, if◌then◌else◌, Bool-cases, Option-cases, Rc, length, get_elem?, get_or, set, modify,
  replicate, All,
}
use inside_nginx.Base.Int.{
  ℤ, pos, negsuc, ◌+ℤ◌, ◌-ℤ◌, ◌≤ℤ◌, ◌<ℤ◌, int_laws, parts_of_eq, ltb_ℤ, leb_ℤ, pos_part, neg_part,
}
use inside_nginx.Base.Words.{add64, mul64, sub64, to_u64}

-- `channel[0]` and `channel[1]`
pub record Channel : Type 0 where
  pub first : Option ℕ
  pub second : Option ℕ

-- ngx_process_t
pub record Process : Type 0 where
  pub pid : Option ℕ
  pub status : ℕ
  pub channel : Channel
  pub proc : ℕ
  pub argument : ℕ
  pub name : ℕ
  pub respawn : Bool
  pub just_spawn : Bool
  pub detached : Bool
  pub exiting : Bool
  pub exited : Bool

-- ngx_processes, ngx_last_process, ngx_process_slot and ngx_channel
pub record Table : Type 0 where
  pub processes : ℕ → Process
  pub last : ℕ
  pub slot : ℕ
  pub channel : Option ℕ

-- NGX_MAX_PROCESSES
abbrev pub max_processes : ℕ
max_processes = 1024

-- NGX_PROCESS_NORESPAWN and so on, and the slot of a process that is spawned again.
pub data Respawn : Type 0 where
  process_norespawn process_just_spawn process_respawn process_just_respawn process_detached :
      Respawn
  at_slot : ℕ → Respawn

-- What socketpair and fork return, and whether the calls that configure the pair succeed.
pub record Answers : Type 0 where
  pub pair : Option (ℕ × ℕ)
  pub nonblocking_first : Bool
  pub nonblocking_second : Bool
  pub async : Bool
  pub owner : Bool
  pub cloexec_first : Bool
  pub cloexec_second : Bool
  pub fork : Option ℕ

unfoldable pub put : ℕ → Process → (ℕ → Process) → ℕ → Process
put s p processes u = if u == s then p else processes u

-- `pid == -1`
unfoldable pub is_free : Process → Bool
is_free p = elim p.pid [ none ↦ true | some n ↦ false ]

-- The loop over the slots from s on, of which n are left.
unfoldable pub find_free : ℕ → ℕ → (ℕ → Process) → ℕ
find_free s zero processes = s
find_free s (suc n) processes =
    let rest = find_free (s + 1) n processes in if is_free (processes s) then s else rest

-- The first free slot, or the one behind the last; none if the table is full.
unfoldable pub first_free : Table → Option ℕ
first_free t = let s = find_free 0 t.last t.processes in if s == max_processes then none else some s

unfoldable pub choose_slot : Respawn → Table → Option ℕ
choose_slot (at_slot s) t = some s
choose_slot mode t = first_free t

unfoldable pub set_channel : ℕ → Channel → Table → Table
set_channel s c t = record t {
  processes = put s (record (t.processes s) { channel = c }) t.processes;
}

-- Whether the calls that configure the pair succeed; each is made only if those before it did.
unfoldable pub configures : Answers → Bool
configures a =
    a.nonblocking_first && a.nonblocking_second && a.async && a.owner && a.cloexec_first
    && a.cloexec_second

-- A pair of sockets for the slot s: whether all calls succeed, the table, and the channels that are
-- closed.
unfoldable pub open_pair : Answers → ℕ → Table → Bool × (Table × List Channel)
open_pair a s t = elim a.pair [
  | none ↦ (false, (t, []))
  | some (x, y) ↦
      (let c : Channel = record { first = some x; second = some y } in
        let t' = set_channel s c t in
        if configures a
        then (true, (record t' { channel = some y }, []))
        else (false, (t', c ∷ [])))
]

-- `respawn == NGX_PROCESS_DETACHED`
unfoldable pub is_detached : Respawn → Bool
is_detached process_detached = true
is_detached mode = false

abbrev pub no_channel : Channel
no_channel = record { first = none; second = none }

-- `if (respawn != NGX_PROCESS_DETACHED) { ... } else { ... }`
unfoldable pub open_channel : Answers → Respawn → ℕ → Table → Bool × (Table × List Channel)
open_channel a mode s t =
    if is_detached mode then (true, (set_channel s no_channel t, [])) else open_pair a s t

-- The flags by the last switch of ngx_spawn_process.
unfoldable pub set_mode : Respawn → Process → Process
set_mode process_norespawn p = record p { respawn = false; just_spawn = false; detached = false }
set_mode process_just_spawn p = record p { respawn = false; just_spawn = true; detached = false }
set_mode process_respawn p = record p { respawn = true; just_spawn = false; detached = false }
set_mode process_just_respawn p = record p { respawn = true; just_spawn = true; detached = false }
set_mode process_detached p = record p { respawn = false; just_spawn = false; detached = true }
set_mode (at_slot s) p = p

-- From `ngx_processes[s].pid = pid` on, for a process that is spawned again, and for a new one.
unfoldable pub register_again : ℕ → ℕ → Table → Table
register_again pid s t = record t {
  processes = put s (record (t.processes s) { pid = some pid; exited = false }) t.processes;
}

unfoldable pub register_new : ℕ → ℕ → ℕ → ℕ → Respawn → ℕ → Table → Table
register_new pid proc argument name mode s t = record t {
  processes =
      put s
        (set_mode mode (record (t.processes s) {
          pid = some pid;
          exited = false;
          proc = proc;
          argument = argument;
          name = name;
          exiting = false;
        }))
        t.processes;
  last = if s == t.last then t.last + 1 else t.last;
}

unfoldable pub register : ℕ → ℕ → ℕ → ℕ → Respawn → ℕ → Table → Table
register pid proc argument name (at_slot r) s t = register_again pid s t
register pid proc argument name mode s t = register_new pid proc argument name mode s t

-- ngx_spawn_process: the pid, the table, and the channels that are closed.
unfoldable pub spawn : Answers → ℕ → ℕ → ℕ → Respawn → Table → Option ℕ × (Table × List Channel)
spawn a proc argument name mode t = elim (choose_slot mode t) [
  | none ↦ (none, (t, []))
  | some s ↦
      (let (opened, (t1, closed)) = open_channel a mode s t in
        if not opened then (none, (t1, closed)) else elim a.fork [
          | none ↦ (none, (record t1 { slot = s }, closed ++ (t1.processes s).channel ∷ []))
          | some pid ↦
              (some pid, (register pid proc argument name mode s (record t1 { slot = s }), closed))
        ])
]

-- ngx_execute: `execute_proc` is the address of ngx_execute_proc.
unfoldable pub execute : ℕ → Answers → ℕ → ℕ → Table → Option ℕ × (Table × List Channel)
execute execute_proc a context name t = spawn a execute_proc context name process_detached t
