-- ===== src/Cycle/Zones.antt =====
-- ngx_cycle.c: shared memory zones, declared by ngx_shared_memory_add, and taken over from the old
-- cycle or allocated by ngx_init_cycle.
--
-- A list of parts is one list of its elements in their order. Tags, functions and data are numbers.
-- ngx_shm_alloc, the mutex of a zone and the `init` of a zone are parameters.
pub mod Names
pub mod Created
pub mod Freed
use inside_nginx.Base.{
  same_name, ℕ, zero, suc, ◌+◌, ◌-◌, ◌*◌, ◌/◌, ◌%◌, ◌^◌, ◌≤◌, ◌<◌, ◌≡◌, refl, sym, ap, ap₂, ◌∙◌,
  ◌≢◌, ◌↔◌, ◌⊎◌, inl, inr, Bool, true, false, not, ◌&&◌, ◌||◌, Option, none, some, List, [], ◌∷◌,
  ◌++◌, arith, ltb, leb, ◌==◌, if◌then◌else◌, Bool-cases, Option-cases, Rc, length, get_elem?,
  get_or, set, modify, replicate, All,
}
use inside_nginx.Base.Int.{
  ℤ, pos, negsuc, ◌+ℤ◌, ◌-ℤ◌, ◌≤ℤ◌, ◌<ℤ◌, int_laws, parts_of_eq, ltb_ℤ, leb_ℤ, pos_part, neg_part,
}
use inside_nginx.Base.Words.{add64, mul64, sub64, to_u64}

-- ngx_shm_zone_t with the fields of its ngx_shm_t; `argument` is the field `data`.
pub record Zone : Type 0 where
  pub name : List ℕ
  pub size : ℕ
  pub tag : ℕ
  pub noreuse : Bool
  pub addr : ℕ
  pub exists : Bool
  pub argument : Option ℕ

-- The search of a zone by its name, from position i on.
unfoldable pub find_zone : List ℕ → ℕ → List Zone → Option (ℕ × Zone)
find_zone name i [] = none
find_zone name i (z ∷ zs) =
    let rest = find_zone name (i + 1) zs in if same_name name z.name then some (i, z) else rest

abbrev pub new_zone : List ℕ → ℕ → ℕ → Zone
new_zone name size tag = record {
  name = name;
  size = size;
  tag = tag;
  noreuse = false;
  addr = 0;
  exists = false;
  argument = none;
}

-- ngx_shared_memory_add for a zone that is declared already.
unfoldable pub redeclare : ℕ → ℕ → ℕ → Zone → List Zone → Option ℕ × List Zone
redeclare size tag i z zones =
    let sized : Zone = if z.size == 0 then record z { size = size } else z in
    if not (tag == z.tag)
    then (none, zones)
    else if not (size == 0) && not (size == sized.size)
    then (none, set zones i sized)
    else (some i, set zones i sized)

-- ngx_shared_memory_add: the position of the zone, and the zones; `pushes` says whether ngx_list_push
-- succeeds.
unfoldable pub shared_memory_add : Bool → List ℕ → ℕ → ℕ → List Zone → Option ℕ × List Zone
shared_memory_add pushes name size tag zones = elim (find_zone name 0 zones) [
  | some (i, z) ↦ redeclare size tag i z zones
  | none ↦
      (if not pushes
        then (none, zones)
        else (some (length zones), zones ++ new_zone name size tag ∷ []))
]

-- `shm_zone[i].tag == oshm_zone[n].tag && shm_zone[i].shm.size == oshm_zone[n].shm.size`
unfoldable pub same_use : Zone → Zone → Bool
same_use z o = (z.tag == o.tag) && (z.size == o.size)

-- ngx_init_zone_pool, where `sp_addr` is the address that the pool in the memory notes, and the other
-- two say whether its file name and its mutex can be had.
unfoldable pub init_zone_pool : ℕ → Bool → Bool → Zone → Bool
init_zone_pool sp_addr named locks z =
    if z.exists then sp_addr == z.addr else if not named then false else locks

-- The answers to one new zone.
pub record ZoneMemory : Type 0 where
  pub alloc : Option (ℕ × Bool)
  pub sp_addr : ℕ
  pub named : Bool
  pub locks : Bool

module _ (init : Zone → Option ℕ → Bool × Option ℕ) where
  -- `shm_zone[i].init(...)`: whether it returns NGX_OK, and the zone with its data.
  unfoldable pub run_init : Zone → Option ℕ → Bool × Zone
  run_init z d = let (good, argument) = init z d in (good, record z { argument = argument })

  -- A zone that gets new memory.
  unfoldable pub alloc_zone : ZoneMemory → Zone → Bool × Zone
  alloc_zone m z = elim m.alloc [
    | none ↦ (false, z)
    | some (addr, exists) ↦
        (let z' : Zone = record z { addr = addr; exists = exists } in
          if init_zone_pool m.sp_addr m.named m.locks z' then run_init z' none else (false, z'))
  ]

  -- One zone of the new cycle.
  unfoldable pub create_zone : ZoneMemory → List Zone → Zone → Bool × Zone
  create_zone m olds z = if z.size == 0 then (false, z) else elim (find_zone z.name 0 olds) [
    | none ↦ alloc_zone m z
    | some (n, o) ↦
        (if same_use z o && not z.noreuse
          then run_init (record z { addr = o.addr }) o.argument
          else alloc_zone m z)
  ]

  -- The loop over the zones; `memory` gives the answers by the position of the zone. It ends at the
  -- first zone that fails.
  unfoldable pub create_zones : (ℕ → ZoneMemory) → List Zone → ℕ → List Zone → Bool × List Zone
  create_zones memory olds i [] = (true, [])
  create_zones memory olds i (z ∷ zs) =
      let (good, z') = create_zone (memory i) olds z in
      let (all, zs') = create_zones memory olds (i + 1) zs in
      if good then (all, z' ∷ zs') else (false, z' ∷ zs)

-- Whether an old zone is given back to the system.
unfoldable pub is_freed : List Zone → Zone → Bool
is_freed news o = elim (find_zone o.name 0 news) [
  | none ↦ true
  | some (n, z) ↦ not (same_use o z && not o.noreuse)
]

-- `free the unnecessary shared memory`: the zones for which ngx_shm_free is called.
unfoldable pub free_zones : List Zone → List Zone → List Zone
free_zones news [] = []
free_zones news (o ∷ os) =
    let rest = free_zones news os in if is_freed news o then o ∷ rest else rest
