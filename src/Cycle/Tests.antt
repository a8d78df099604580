-- ===== src/Cycle/Tests.antt =====
-- Runs of ngx_cycle.c on a cycle with two zones, two sockets and two files.
use inside_nginx.Base.{
  ℕ, ◌+◌, ◌<◌, ◌≡◌, refl, ◌≢◌, ◌⊎◌, Bool, true, false, Option, none, some, List, [], ◌∷◌, arith,
  ◌==◌, if◌then◌else◌, get_elem?, All,
}
use mathlib.Core.List.{Memᴰ}
use inside_nginx.Base.{occurrences}
use inside_nginx.Cycle.Zones.{
  Zone, ZoneMemory, new_zone, shared_memory_add, find_zone, redeclare, create_zones, free_zones,
}
use inside_nginx.Cycle.Zones.Names.{IsNamed, IsDeclared, shared_memory_add-IsDeclared}
use inside_nginx.Cycle.Zones.Created.{IsSeparate, IsAgreed, IsFreshMemory}
use inside_nginx.Cycle.Zones.Freed.{free_zones-create_zones}
use inside_nginx.Cycle.Sockets.{Listening, inherit_sockets, close_old}
use inside_nginx.Cycle.Sockets.Carried.{fds, IsNew, inherit_sockets-balance}
use inside_nginx.Cycle.Files.{File, Reopening, open_files, opened, close_files, reopen_files}
use inside_nginx.Cycle.Files.Balance.{reopen_files-balance, close_files-open_files}
use inside_nginx.Cycle.Init.{Resources, CycleSteps, Result, refused, prepare, init_cycle}
use inside_nginx.Cycle.Init.Refused.{IsUndone, IsLeft, init_cycle-IsUndone}

-- The zones "a" and "b" of the old cycle, in memory at 4096 and at 8192.
abbrev zone_at : ℕ → ℕ → ℕ → Zone
zone_at name size addr = record (new_zone (name ∷ []) size 1) { addr = addr }

abbrev two_zones : List Zone
two_zones = zone_at 97 100 4096 ∷ zone_at 98 200 8192 ∷ []

two_zones-IsNamed : IsNamed two_zones
two_zones-IsNamed = ((refl, tt), (tt, tt))

shared_memory_add-IsDeclared_example :
    let (got, zones') = shared_memory_add true (98 ∷ []) 200 1 two_zones in
    IsNamed zones'
    × ((i : ℕ)
        → got ≡ some i
        → (z : Zone) × (get_elem? zones' i ≡ some z) × IsDeclared (98 ∷ []) 200 1 z)
shared_memory_add-IsDeclared_example =
    shared_memory_add-IsDeclared true (98 ∷ []) 200 1 two_zones two_zones-IsNamed

-- The new cycle keeps "a", changes the size of "b" and adds "c".
abbrev three_zones : List Zone
three_zones = zone_at 97 100 0 ∷ zone_at 98 300 0 ∷ zone_at 99 100 0 ∷ []

three_zones-IsNamed : IsNamed three_zones
three_zones-IsNamed = ((refl, (refl, tt)), ((refl, tt), (tt, tt)))

-- ZoneMemory from 16384 on.
abbrev new_memory : ℕ → ZoneMemory
new_memory i = record { alloc = some (16384 + i, false); sp_addr = 0; named = true; locks = true }

abbrev keep : Zone → Option ℕ → Bool × Option ℕ
keep z d = (true, d)

two_zones-IsSeparate : IsSeparate two_zones
two_zones-IsSeparate = ((ground arith, tt), (tt, tt))

two_zones_addr : (o : Zone) → Memᴰ o two_zones → o.addr < 16384
two_zones_addr o (Memᴰ.head e) = rw e (ground arith)
two_zones_addr o (Memᴰ.tail (Memᴰ.head e)) = rw e (ground arith)
two_zones_addr o (Memᴰ.tail (Memᴰ.tail m)) = elim m [ ]

two_zones-reuse : (o : Zone) → Memᴰ o two_zones → false ≡ o.noreuse
two_zones-reuse o (Memᴰ.head e) = rw e refl
two_zones-reuse o (Memᴰ.tail (Memᴰ.head e)) = rw e refl
two_zones-reuse o (Memᴰ.tail (Memᴰ.tail m)) = elim m [ ]

new_memory-IsFresh : IsFreshMemory new_memory two_zones
new_memory-IsFresh i addr exists o h m e =
    let low = two_zones_addr o m in let at : 16384 + i ≡ addr = cc in omega (arith, low, at, e)

three_zones-IsAgreed : All (IsAgreed two_zones) three_zones
three_zones-IsAgreed = (
  λ o m e. two_zones-reuse o m,
  (λ o m e. two_zones-reuse o m, (λ o m e. two_zones-reuse o m, tt)),
)

abbrev created : List Zone
created = (create_zones keep new_memory two_zones 0 three_zones).1

free_zones-create_zones_example :
    (Memᴰ (zone_at 98 200 8192) (free_zones created two_zones) → All (λ z. z.addr ≢ 8192) created)
    × (Memᴰ (zone_at 98 200 8192) (free_zones created two_zones)
        ⊎ ((z : Zone) × Memᴰ z created × (z.addr ≡ 8192)))
unfolding create_zones inside_nginx.Cycle.Zones.create_zone inside_nginx.Cycle.Zones.alloc_zone
    inside_nginx.Cycle.Zones.run_init inside_nginx.Cycle.Zones.same_use
    inside_nginx.Cycle.Zones.init_zone_pool find_zone
free_zones-create_zones_example =
    free_zones-create_zones keep new_memory two_zones two_zones-IsNamed two_zones-IsSeparate
      new_memory-IsFresh three_zones three_zones-IsNamed three_zones-IsAgreed refl
      (zone_at 98 200 8192) (Memᴰ.tail (Memᴰ.head refl))

-- A listening socket at an address.
abbrev socket : Option ℕ → ℕ → Listening
socket fd address = record {
  fd = fd;
  kind = 1;
  address = address;
  backlog = 511;
  previous = none;
  ignore = false;
  remain = false;
  opens = false;
  listen = false;
}

abbrev old_sockets : List Listening
old_sockets = socket (some 6) 80 ∷ socket (some 7) 443 ∷ []

abbrev new_sockets : List Listening
new_sockets = socket none 443 ∷ socket none 8080 ∷ []

new_sockets-IsNew : All IsNew new_sockets
new_sockets-IsNew = ((refl, refl), ((refl, refl), tt))

inherit_sockets-balance_example :
    let (news', olds') = inherit_sockets (λ a b. a == b) new_sockets old_sockets in
    occurrences 7 (fds news') + occurrences 7 (close_old olds') ≡ occurrences 7 (fds old_sockets)
inherit_sockets-balance_example =
    inherit_sockets-balance (λ a b. a == b) 7 new_sockets old_sockets new_sockets-IsNew

abbrev two_files : List File
two_files = record { name = 97 ∷ []; fd = none } ∷ record { name = 98 ∷ []; fd = none } ∷ []

abbrev open_at : ℕ → Option ℕ
open_at i = some (10 + i)

open_at-other : (j : ℕ) → open_at j ≢ some 2
open_at-other j e = let same : 10 + j ≡ 2 = cc in omega (arith, same)

close_files-open_files_example :
    close_files 2 (open_files open_at (λ i. true) 0 two_files).1
    ≡ opened open_at (λ i. true) 0 two_files
close_files-open_files_example =
    close_files-open_files 2 open_at (λ i. true) 0 two_files (refl, (refl, tt)) open_at-other

-- The new file of position 1 cannot be given to the user.
abbrev reopening : ℕ → Reopening
reopening i = record {
  fd = some (20 + i);
  info = some (0, true);
  chown = i == 0;
  chmod = true;
  cloexec = true;
}

reopen_files-balance_example :
    let open_now = (open_files open_at (λ i. true) 0 two_files).1 in
    let (fs', (new, gone)) = reopen_files (some 33) reopening 0 open_now in
    occurrences 21 (inside_nginx.Cycle.Files.Balance.fds open_now) + occurrences 21 new
    ≡ occurrences 21 (inside_nginx.Cycle.Files.Balance.fds fs') + occurrences 21 gone
reopen_files-balance_example =
    reopen_files-balance 21 (some 33) reopening 0 (open_files open_at (λ i. true) 0 two_files).1

-- A configuration whose sockets cannot be opened.
abbrev new_resources : Resources
new_resources = record { zones = three_zones; listening = new_sockets; files = two_files }

abbrev old_resources : Resources
old_resources = record { zones = two_zones; listening = old_sockets; files = [] }

abbrev steps : CycleSteps
steps = record {
  loaded = some new_resources;
  test_config = false;
  signaller = false;
  master = true;
  first = false;
  same_pid_file = true;
  pid_created = true;
  test_lockfile = true;
  create_paths = true;
  log_open_default = true;
  stderr = 2;
  opens = open_at;
  cloexec = λ i. true;
  memory = new_memory;
  init = keep;
  same_address = λ a b. a == b;
  open_sockets = λ ls. (false, ls);
  init_modules = true;
}

steps-IsLeft : IsLeft 7 steps
steps-IsLeft ls = omega arith

init_cycle-IsUndone_example :
    IsUndone 7
      (if prepare steps then opened open_at (λ i. true) 0 two_files else [])
      (init_cycle steps old_resources)
unfolding init_cycle prepare inside_nginx.Cycle.Init.finish_files
    inside_nginx.Cycle.Init.finish_zones inside_nginx.Cycle.Init.finish_sockets
    inside_nginx.Cycle.Init.roll_back open_files inside_nginx.Cycle.Files.is_nameless create_zones
    inside_nginx.Cycle.Zones.create_zone inside_nginx.Cycle.Zones.alloc_zone
    inside_nginx.Cycle.Zones.run_init inside_nginx.Cycle.Zones.same_use
    inside_nginx.Cycle.Zones.init_zone_pool find_zone
init_cycle-IsUndone_example =
    init_cycle-IsUndone 7 steps new_resources old_resources refl steps-IsLeft new_sockets-IsNew
      (refl, (refl, tt)) open_at-other refl
