-- ===== src/ThreadPool/Conf.antt =====
-- ngx_thread_pool.c: the thread pools of a configuration, and their start in a worker process.
--
-- The array of pools is a list, and a pointer to a pool is its position. A string is the list of its
-- bytes without the closing NUL, so that ngx_strncmp compares lists. ngx_atoi is a parameter; `none`
-- is its NGX_ERROR.
pub mod Registry
pub mod Ready
use inside_nginx.Base.{
  same_name, error, ok, ℕ, zero, suc, ◌+◌, ◌-◌, ◌*◌, ◌/◌, ◌%◌, ◌^◌, ◌≤◌, ◌<◌, ◌≡◌, refl, sym, ap,
  ap₂, ◌∙◌, ◌≢◌, ◌↔◌, ◌⊎◌, inl, inr, Bool, true, false, not, ◌&&◌, ◌||◌, Option, none, some, List,
  [], ◌∷◌, ◌++◌, arith, ltb, leb, ◌==◌, if◌then◌else◌, Bool-cases, Option-cases, Rc, length,
  get_elem?, get_or, set, modify, replicate, All,
}
use inside_nginx.Base.Int.{
  ℤ, pos, negsuc, ◌+ℤ◌, ◌-ℤ◌, ◌≤ℤ◌, ◌<ℤ◌, int_laws, parts_of_eq, ltb_ℤ, leb_ℤ, pos_part, neg_part,
}
use inside_nginx.Base.Words.{add64, mul64, sub64, to_u64}

-- ngx_thread_pool_t as the configuration writes it.
pub record PoolConf : Type 0 where
  pub name : List ℕ
  pub threads : ℕ
  pub max_queue : ℤ
  pub file : ℕ
  pub line : ℕ

-- ngx_thread_pool_default
abbrev pub default_name : List ℕ
default_name = 100 ∷ 101 ∷ 102 ∷ 97 ∷ 117 ∷ 108 ∷ 116 ∷ []

-- The text after a prefix, if there is the prefix: `ngx_strncmp(value.data, prefix, n) == 0`.
unfoldable pub after_prefix : List ℕ → List ℕ → Option (List ℕ)
after_prefix [] value = some value
after_prefix (p ∷ ps) [] = none
after_prefix (p ∷ ps) (v ∷ vs) = let rest = after_prefix ps vs in if p == v then rest else none

-- "threads=" and "max_queue="
abbrev pub threads_prefix : List ℕ
threads_prefix = 116 ∷ 104 ∷ 114 ∷ 101 ∷ 97 ∷ 100 ∷ 115 ∷ 61 ∷ []

abbrev pub max_queue_prefix : List ℕ
max_queue_prefix = 109 ∷ 97 ∷ 120 ∷ 95 ∷ 113 ∷ 117 ∷ 101 ∷ 117 ∷ 101 ∷ 61 ∷ []

-- ngx_thread_pool_get, from position i on.
unfoldable pub pool_get : ℕ → List PoolConf → List ℕ → Option ℕ
pool_get i [] name = none
pool_get i (c ∷ cs) name =
    let rest = pool_get (i + 1) cs name in if same_name c.name name then some i else rest

-- `if (name == NULL) name = &ngx_thread_pool_default`
abbrev pub name_or_default : Option (List ℕ) → List ℕ
name_or_default none = default_name
name_or_default (some name) = name

-- A pool fresh from ngx_pcalloc.
unfoldable pub new_pool : List ℕ → ℕ → ℕ → PoolConf
new_pool name file line = record {
  name = name;
  threads = 0;
  max_queue = pos 0;
  file = file;
  line = line;
}

-- ngx_thread_pool_add, where ngx_pcalloc and ngx_array_push succeed or not.
unfoldable pub pool_add :
    Bool → Bool → Option (List ℕ) → ℕ → ℕ → List PoolConf → Option ℕ × List PoolConf
pool_add allocs pushes name file line pools = elim (pool_get 0 pools (name_or_default name)) [
  | some i ↦ (some i, pools)
  | none ↦
      (if not allocs
        then (none, pools)
        else if not pushes
        then (none, pools)
        else (some (length pools), pools ++ new_pool (name_or_default name) file line ∷ []))
]

-- `tp->threads = ngx_atoi(...)` and the test of it: whether it passes.
unfoldable pub set_threads : Option ℕ → PoolConf → Bool × PoolConf
set_threads none c = (false, record c { threads = 2 ^ 64 - 1 })
set_threads (some n) c = (not (n == 0), record c { threads = n })

unfoldable pub set_max_queue : Option ℕ → PoolConf → Bool × PoolConf
set_max_queue none c = (false, record c { max_queue = negsuc 0 })
set_max_queue (some n) c = (true, record c { max_queue = pos n })

module _ (atoi : List ℕ → Option ℕ) where
  -- One round of the loop over the arguments; another argument is passed over.
  unfoldable pub read_arg : List ℕ → PoolConf → Bool × PoolConf
  read_arg value c = elim (after_prefix threads_prefix value) [
    | some digits ↦ set_threads (atoi digits) c
    | none ↦ (elim (after_prefix max_queue_prefix value) [
      | some digits ↦ set_max_queue (atoi digits) c
      | none ↦ (true, c)
    ])
  ]

  -- The loop: it ends at the first argument that is refused.
  unfoldable pub read_args : List (List ℕ) → PoolConf → Bool × PoolConf
  read_args [] c = (true, c)
  read_args (value ∷ values) c =
      let (good, c') = read_arg value c in
      let rest = read_args values c' in if good then rest else (false, c')

  -- What ngx_thread_pool does with the pool that it has got.
  unfoldable pub configure : List (List ℕ) → PoolConf → Bool × PoolConf
  configure values c =
      if not (c.threads == 0)
      then (false, c)
      else (let (good, c') = read_args values (record c { max_queue = pos 65536 }) in
          (good && not (c'.threads == 0), c'))

  -- ngx_thread_pool: the handler of the directive thread_pool.
  unfoldable pub thread_pool :
      Bool → Bool → ℕ → ℕ → List ℕ → List (List ℕ) → List PoolConf → Rc × List PoolConf
  thread_pool allocs pushes file line name values pools =
      let (got, pools') = pool_add allocs pushes (some name) file line pools in
      elim got [
        | none ↦ (error, pools')
        | some i ↦ (elim (get_elem? pools' i) [
          | none ↦ (error, pools')
          | some c ↦
              (let (good, c') = configure values c in (if good then ok else error, set pools' i c'))
        ])
      ]

-- ngx_thread_pool_init_conf
unfoldable pub init_conf : List PoolConf → Rc × List PoolConf
init_conf [] = (ok, [])
init_conf (c ∷ cs) =
    let (rc, cs') = init_conf cs in
    if not (c.threads == 0)
    then (rc, c ∷ cs')
    else if same_name c.name default_name
    then (rc, record c { threads = 32; max_queue = pos 65536 } ∷ cs')
    else (error, c ∷ cs)

-- The loop of ngx_thread_pool_init that creates n threads: whether all could be created, and how
-- many are; `creates` says whether the i-th pthread_create of a call succeeds.
unfoldable pub create_threads : (ℕ → Bool) → ℕ → ℕ → Bool × ℕ
create_threads creates i zero = (true, i)
create_threads creates i (suc n) =
    let rest = create_threads creates (i + 1) n in if creates i then rest else (false, i)

-- ngx_thread_pool_init: the code and the number of threads that run. The flags say whether ngx_notify
-- is set and whether the mutex, the condition and the attribute of the threads can be had.
unfoldable pub pool_init : Bool → Bool → Bool → Bool → (ℕ → Bool) → ℕ → Rc × ℕ
pool_init notify mutex cond attr creates threads =
    if not notify
    then (error, 0)
    else if not mutex
    then (error, 0)
    else if not cond
    then (error, 0)
    else if not attr
    then (error, 0)
    else (let (all, n) = create_threads creates 0 threads in (if all then ok else error, n))

-- The loop of ngx_thread_pool_init_worker, with the result of each ngx_thread_pool_init: it ends at
-- the first that fails. The result is its code and the number of pools that were begun.
unfoldable pub init_pools : (PoolConf → Rc) → List PoolConf → Rc × ℕ
init_pools init [] = (ok, 0)
init_pools init (c ∷ cs) = elim (init c) [
  | ok ↦ (let (rc, n) = init_pools init cs in (rc, suc n))
  | _ ↦ (error, 1)
]

-- ngx_thread_pool_init_worker, where `works` says that the process is a worker or the only process.
unfoldable pub init_worker : Bool → (PoolConf → Rc) → Option (List PoolConf) → Rc × ℕ
init_worker works init conf =
    if not works then (ok, 0) else elim conf [ none ↦ (ok, 0) | some pools ↦ init_pools init pools ]
