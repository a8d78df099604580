-- ===== src/Cycle/Load.antt =====
-- ngx_init_cycle up to the parsed configuration: the pools and containers of a new cycle.
--
-- Whether the calls succeed are parameters: allocations, gethostname, the functions of modules and the
-- parser.
use inside_nginx.Base.{
  ℕ, zero, suc, ◌+◌, ◌≤◌, ◌≡◌, refl, inl, inr, Bool, true, false, not, ◌&&◌, List, [], ◌∷◌, ◌++◌,
  arith, ◌==◌, if◌then◌else◌, Bool-cases,
}

-- The steps that fail one after the other: the allocation of the cycle, the copies of its texts, its
-- containers, its configuration and its name, the list of the modules, `create_conf` of the core
-- modules, and conf.args.
pub data Stage : Type 0 where
  cycle_stage conf_prefix_stage prefix_stage conf_file_stage conf_param_stage paths_stage : Stage
  config_dump_stage open_files_stage shared_memory_stage listening_stage conf_ctx_stage : Stage
  gethostname_stage hostname_stage modules_stage args_stage : Stage
  create_conf_stage : ℕ → Stage

-- The pool of the cycle and the temporary pool of the configuration.
pub data PoolName : Type 0 where
  pool temp_pool : PoolName

-- Whether a configuration results, the pools that are created and destroyed on the way, and whether
-- `environ` is set back.
pub record Loaded : Type 0 where
  pub loads : Bool
  pub created : List PoolName
  pub destroyed : List PoolName
  pub restores : Bool

-- `n = old->nelts ? old->nelts : n`
unfoldable pub array_room : ℕ → ℕ → ℕ
array_room old least = if old == 0 then least else old

abbrev pub sum : List ℕ → ℕ
sum [] = 0
sum (n ∷ ns) = n + sum ns

-- The capacity of a new list, from the counts of the parts of the old one.
unfoldable pub list_room : ℕ → List ℕ → ℕ → ℕ
list_room first others least = if first == 0 then least else first + sum others

-- The steps from the allocation of the cycle to the creation of conf.args, for so many core modules
-- with a `create_conf`.
unfoldable pub create_stages : ℕ → ℕ → List Stage
create_stages i zero = []
create_stages i (suc n) = create_conf_stage i ∷ create_stages (i + 1) n

unfoldable pub stages : ℕ → List Stage
stages modules =
    cycle_stage
    ∷ conf_prefix_stage
    ∷ prefix_stage
    ∷ conf_file_stage
    ∷ conf_param_stage
    ∷ paths_stage
    ∷ config_dump_stage
    ∷ open_files_stage
    ∷ shared_memory_stage
    ∷ listening_stage
    ∷ conf_ctx_stage
    ∷ gethostname_stage
    ∷ hostname_stage
    ∷ modules_stage
    ∷ (create_stages 0 modules ++ args_stage ∷ [])

-- The steps, each of which destroys the pool when it fails.
unfoldable pub run_stages : (Stage → Bool) → List Stage → Bool
run_stages succeeds [] = true
run_stages succeeds (s ∷ ss) =
    let rest = run_stages succeeds ss in if succeeds s then rest else false

-- The loop over `init_conf` of the core modules.
unfoldable pub run_inits : List Bool → Bool
run_inits [] = true
run_inits (b ∷ bs) = let rest = run_inits bs in if b then rest else false

-- `param`, `parse` and `inits` say whether ngx_conf_param, ngx_conf_parse and each `init_conf`
-- succeed; the two pools are created if the first two parameters say so.
unfoldable pub load_cycle : Bool → Bool → (Stage → Bool) → ℕ → Bool → Bool → List Bool → Loaded
load_cycle has_pool has_temp succeeds modules param parse inits =
    if not has_pool
    then record { loads = false; created = []; destroyed = []; restores = false }
    else if not (run_stages succeeds (stages modules) && has_temp)
    then record { loads = false; created = pool ∷ []; destroyed = pool ∷ []; restores = false }
    else if not (param && parse && run_inits inits)
    then record {
      loads = false;
      created = pool ∷ temp_pool ∷ [];
      destroyed = temp_pool ∷ pool ∷ [];
      restores = true;
    }
    else record { loads = true; created = pool ∷ temp_pool ∷ []; destroyed = []; restores = false }

abbrev pub same_pool : PoolName → PoolName → ℕ
same_pool pool pool = 1
same_pool pool temp_pool = 0
same_pool temp_pool pool = 0
same_pool temp_pool temp_pool = 1

-- How often a pool is in the list.
abbrev pub pool_count : PoolName → List PoolName → ℕ
pool_count p [] = 0
pool_count p (q ∷ qs) = same_pool p q + pool_count p qs

-- When no configuration results, every pool that was created is destroyed, each once, and otherwise
-- none is.
pub load_cycle-destroyed :
    (has_pool has_temp : Bool) (succeeds : Stage → Bool) (modules : ℕ) (param parse : Bool)
    (inits : List Bool) (p : PoolName)
    → let r = load_cycle has_pool has_temp succeeds modules param parse inits in
      pool_count p r.destroyed ≡ (if r.loads then 0 else pool_count p r.created)
unfolding load_cycle
load_cycle-destroyed false has_temp succeeds modules param parse inits p = refl
load_cycle-destroyed true has_temp succeeds modules param parse inits p =
    elim (Bool-cases (run_stages succeeds (stages modules) && has_temp)) [
      | inr e ↦ rw e refl
      | inl e ↦ elim (Bool-cases (param && parse && run_inits inits)) [
        | inr f ↦ rw (e, f) (omega arith)
        | inl f ↦ rw (e, f) refl
      ]
    ]

-- A new list has room in one part for as many elements as the old one has, whose first part is not
-- empty when there are others.
pub list_room_lem :
    (first : ℕ) (others : List ℕ) (least : ℕ)
    → (first ≡ 0 → others ≡ [])
    → first + sum others ≤ list_room first others least
unfolding list_room
list_room_lem zero others least h = rw (h refl) (omega arith)
list_room_lem (suc n) others least h = ground arith
