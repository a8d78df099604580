-- ===== src/Cycle/Init.antt =====
-- ngx_init_cycle of ngx_cycle.c: the stages from the parsed configuration to the new cycle, and what
-- is closed and freed at the end or after a failure.
--
-- What comes before is the parameter `loaded`, which Cycle/Load.antt models.
pub mod Refused
use inside_nginx.Base.{
  ℕ, zero, suc, ◌+◌, ◌-◌, ◌*◌, ◌/◌, ◌%◌, ◌^◌, ◌≤◌, ◌<◌, ◌≡◌, refl, sym, ap, ap₂, ◌∙◌, ◌≢◌, ◌↔◌, ◌⊎◌,
  inl, inr, Bool, true, false, not, ◌&&◌, ◌||◌, Option, none, some, List, [], ◌∷◌, ◌++◌, arith, ltb,
  leb, ◌==◌, if◌then◌else◌, Bool-cases, Option-cases, Rc, length, get_elem?, get_or, set, modify,
  replicate, All,
}
use inside_nginx.Base.Int.{
  ℤ, pos, negsuc, ◌+ℤ◌, ◌-ℤ◌, ◌≤ℤ◌, ◌<ℤ◌, int_laws, parts_of_eq, ltb_ℤ, leb_ℤ, pos_part, neg_part,
}
use inside_nginx.Base.Words.{add64, mul64, sub64, to_u64}
use inside_nginx.Cycle.Zones.{Zone, ZoneMemory, create_zones, free_zones}
use inside_nginx.Cycle.Sockets.{Listening, inherit_sockets, close_old, close_opened}
use inside_nginx.Cycle.Files.{File, open_files, close_files}

-- What a cycle holds of the system.
pub record Resources : Type 0 where
  pub zones : List Zone
  pub listening : List Listening
  pub files : List File

-- What the code outside of ngx_cycle.c answers, and the conditions that ngx_init_cycle reads:
-- ngx_test_config, whether the process is the signaller or the master, ngx_is_init_cycle(old_cycle),
-- and whether the pid file has the name that it had.
pub record CycleSteps : Type 0 where
  pub loaded : Option Resources
  pub test_config : Bool
  pub signaller : Bool
  pub master : Bool
  pub first : Bool
  pub same_pid_file : Bool
  pub pid_created : Bool
  pub test_lockfile : Bool
  pub create_paths : Bool
  pub log_open_default : Bool
  pub stderr : ℕ
  pub opens : ℕ → Option ℕ
  pub cloexec : ℕ → Bool
  pub memory : ℕ → ZoneMemory
  pub init : Zone → Option ℕ → Bool × Option ℕ
  pub same_address : ℕ → ℕ → Bool
  pub open_sockets : List Listening → Bool × List Listening
  pub init_modules : Bool

-- What is closed and freed, whether the pid file of the old cycle is deleted, and whether the old
-- cycle is kept for ngx_clean_old_cycles.
pub record Effects : Type 0 where
  pub closed_files : List ℕ
  pub closed_sockets : List ℕ
  pub freed : List Zone
  pub deletes_pid : Bool
  pub keeps_old : Bool

abbrev pub no_effects : Effects
no_effects = record {
  closed_files = [];
  closed_sockets = [];
  freed = [];
  deletes_pid = false;
  keeps_old = false;
}

-- The return of NULL, of the new cycle, and the exit.
pub data Ending : Type 0 where
  refused ready exits : Ending

-- The outcome, the resources of the new and of the old cycle, and the effects.
pub record Result : Type 0 where
  pub outcome : Ending
  pub new : Resources
  pub old : Resources
  pub effects : Effects

-- From the pid file to ngx_log_open_default.
unfoldable pub prepare : CycleSteps → Bool
prepare s =
    (if s.test_config then s.pid_created else s.first || s.same_pid_file || s.pid_created)
    && s.test_lockfile
    && s.create_paths
    && s.log_open_default

-- Whether the pid file gets a new name and the old one is deleted.
unfoldable pub moves_pid : CycleSteps → Bool
moves_pid s = not s.test_config && not s.first && not s.same_pid_file && s.pid_created

-- `failed:`
unfoldable pub roll_back : CycleSteps → Resources → Resources → Result
roll_back s new old = record {
  outcome = refused;
  new = new;
  old = old;
  effects = record no_effects {
    closed_files = close_files s.stderr new.files;
    closed_sockets = if s.test_config then [] else close_opened new.listening;
    deletes_pid = moves_pid s;
  };
}

-- `close and delete stuff that lefts from an old cycle`
unfoldable pub commit : CycleSteps → Resources → Resources → Result
commit s new old = record {
  outcome = ready;
  new = new;
  old = old;
  effects = record {
    closed_files = close_files s.stderr old.files;
    closed_sockets = close_old old.listening;
    freed = free_zones new.zones old.zones;
    deletes_pid = moves_pid s;
    keeps_old = not (s.master || s.first);
  };
}

-- The listening sockets, and what follows them.
unfoldable pub finish_sockets : CycleSteps → Resources → Resources → Result
finish_sockets s new old =
    let (inherited, olds) = inherit_sockets s.same_address new.listening old.listening in
    let (good, listening) = s.open_sockets inherited in
    let new' : Resources = record new { listening = listening } in
    let old' : Resources = record old { listening = olds } in
    if not good
    then roll_back s new' old'
    else if not s.init_modules
    then record {
      outcome = exits;
      new = new';
      old = old';
      effects = record no_effects { deletes_pid = moves_pid s };
    }
    else commit s new' old'

-- The shared memory, and what follows it.
unfoldable pub finish_zones : CycleSteps → Resources → Resources → Result
finish_zones s new old =
    let (good, zones) = create_zones s.init s.memory old.zones 0 new.zones in
    let new' : Resources = record new { zones = zones } in
    if good then finish_sockets s new' old else roll_back s new' old

-- The open files, and what follows them.
unfoldable pub finish_files : CycleSteps → Resources → Resources → Result
finish_files s new old =
    let (good, files) = open_files s.opens s.cloexec 0 new.files in
    let new' : Resources = record new { files = files } in
    if good then finish_zones s new' old else roll_back s new' old

-- ngx_init_cycle
unfoldable pub init_cycle : CycleSteps → Resources → Result
init_cycle s old =
    let empty : Resources = record { zones = []; listening = []; files = [] } in
    elim s.loaded [
      | none ↦ record { outcome = refused; new = empty; old = old; effects = no_effects }
      | some new ↦
          (if s.signaller
            then record { outcome = ready; new = new; old = old; effects = no_effects }
            else if prepare s
            then finish_files s new old
            else roll_back s new old)
    ]
