-- ===== src/Master.antt =====
-- ngx_process_cycle.c: the globals of the master process, and the messages that it sends to the
-- other processes.
--
-- The calls that leave the process (ngx_close_channel, ngx_write_channel, kill, setitimer,
-- ngx_close_socket, ngx_reopen_files) are collected in the order in which they are made; their answers are functions of the slot of the table that the call
-- is for.
pub mod Notify
pub mod Reap
pub mod Start
pub mod Cycle
pub mod Worker
mod Tests
use inside_nginx.Base.{
  ℕ, zero, suc, ◌+◌, ◌-◌, ◌*◌, ◌/◌, ◌%◌, ◌^◌, ◌≤◌, ◌<◌, ◌≡◌, refl, sym, ap, ap₂, ◌∙◌, ◌≢◌, ◌↔◌, ◌⊎◌,
  inl, inr, Bool, true, false, not, ◌&&◌, ◌||◌, Option, none, some, List, [], ◌∷◌, ◌++◌, arith, ltb,
  leb, ◌==◌, if◌then◌else◌, Bool-cases, Option-cases, Rc, length, get_elem?, get_or, set, modify,
  replicate, All,
}
use inside_nginx.Base.Int.{
  ℤ, pos, negsuc, ◌+ℤ◌, ◌-ℤ◌, ◌≤ℤ◌, ◌<ℤ◌, int_laws, parts_of_eq, ltb_ℤ, leb_ℤ, pos_part, neg_part,
}
use inside_nginx.Base.Words.{add64, mul64, sub64, to_u64}
use inside_nginx.Process.{Channel, Process, Table, is_free}
use inside_nginx.Process.Signals.{Signal, Flags, reopen_signal, terminate_signal, shutdown_signal}

-- NGX_CMD_OPEN_CHANNEL and so on, and 0.
pub data Command : Type 0 where
  no_command cmd_open_channel cmd_close_channel cmd_quit cmd_terminate cmd_reopen : Command

-- ngx_channel_t
pub record Message : Type 0 where
  pub command : Command
  pub pid : Option ℕ
  pub slot : ℕ
  pub fd : Option ℕ

pub data Call : Type 0 where
  closes : Channel → Call
  writes : Option ℕ → Message → Call
  kills : Option ℕ → Signal → Call
  arms : ℕ → Call
  closes_socket : ℕ → Call
  reopens_files : Call

unfoldable pub close_calls : List Channel → List Call
close_calls [] = []
close_calls (c ∷ cs) = closes c ∷ close_calls cs

-- The table of processes, the flags, ngx_new_binary, ngx_noaccepting and ngx_restart.
pub record Master : Type 0 where
  pub table : Table
  pub flags : Flags
  pub new_binary : Option ℕ
  pub noaccepting : Bool
  pub restart : Bool

-- The descriptor -1.
unfoldable pub is_closed : Option ℕ → Bool
is_closed fd = elim fd [ none ↦ true | some n ↦ false ]

-- A loop over the slots from i on, of which n are left, that writes a message to all but those that
-- it skips.
unfoldable pub broadcast : (ℕ → Process → Bool) → Message → ℕ → ℕ → (ℕ → Process) → List Call
broadcast skips ch i zero processes = []
broadcast skips ch i (suc n) processes =
    let rest = broadcast skips ch (i + 1) n processes in
    if skips i (processes i) then rest else writes (processes i).channel.first ch ∷ rest

-- ngx_pass_open_channel
unfoldable pub pass_open_channel : Message → Table → List Call
pass_open_channel ch t =
    broadcast (λ i p. (i == t.slot) || is_free p || is_closed p.channel.first) ch 0 t.last
      t.processes

-- The message about the process that was spawned last.
unfoldable pub open_message : Table → Message
open_message t = record {
  command = cmd_open_channel;
  pid = (t.processes t.slot).pid;
  slot = t.slot;
  fd = (t.processes t.slot).channel.first;
}
