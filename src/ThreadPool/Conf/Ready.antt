-- ===== src/ThreadPool/Conf/Ready.antt =====
-- ngx_thread_pool_init_conf and the directive thread_pool: pools with threads.
use inside_nginx.Base.{
  same_name, ok, ℕ, zero, suc, ◌+◌, ◌<◌, ◌≡◌, refl, ◌↔◌, ◌⊎◌, inl, inr, Bool, true, not, ◌&&◌,
  Option, List, [], ◌∷◌, arith, ◌==◌, Bool-cases, All,
}
use inside_nginx.Base.Int.{pos}
use inside_nginx.ThreadPool.Conf.{
  PoolConf, default_name, init_conf, configure, read_args, create_threads, pool_init,
}

abbrev pub HasThreads : PoolConf → Type 0
HasThreads c = 0 < c.threads

-- A pool that was configured by its directive, or the default one.
abbrev pub IsKnown : PoolConf → Type 0
IsKnown c = (0 < c.threads) ⊎ (same_name c.name default_name ≡ true)

-- ngx_thread_pool_init_conf accepts the configuration exactly if each pool has threads or is the
-- default pool.
pub init_conf-ok_iff : (cs : List PoolConf) → ((init_conf cs).0 ≡ ok) ↔ All IsKnown cs
unfolding init_conf
init_conf-ok_iff [] = ((λ h. tt), λ h. refl)
init_conf-ok_iff (c ∷ cs) = elim (Bool-cases (c.threads == 0)) [
  | inr e ↦
      (let rest = init_conf-ok_iff cs in
        rw e ((λ h. (inl (ground (arith, e)), rest.0 h)), λ h. rest.1 h.1))
  | inl e ↦ (elim (Bool-cases (same_name c.name default_name)) [
    | inl d ↦
        (let rest = init_conf-ok_iff cs in rw (e, d) ((λ h. (inr refl, rest.0 h)), λ h. rest.1 h.1))
    | inr d ↦ rw (e, d) ((λ h. cc), λ h. absurd (ground (arith, h.0, d, e)))
  ])
]

-- After ngx_thread_pool_init_conf has accepted the configuration, every pool has threads.
pub init_conf-HasThreads :
    (cs : List PoolConf) → (init_conf cs).0 ≡ ok → All HasThreads (init_conf cs).1
unfolding init_conf
init_conf-HasThreads [] h = tt
init_conf-HasThreads (c ∷ cs) h = elim (Bool-cases (c.threads == 0)) [
  | inr e ↦ rw e (ground (arith, e), init_conf-HasThreads cs (rw e at h))
  | inl e ↦ (elim (Bool-cases (same_name c.name default_name)) [
    | inl d ↦ rw (e, d) (omega arith, init_conf-HasThreads cs (rw (e, d) at h))
    | inr d ↦ absurd (let clash = rw (e, d) at h in cc)
  ])
]

-- A pool that the directive accepts had no threads before and has threads now.
pub configure-HasThreads :
    (atoi : List ℕ → Option ℕ) (values : List (List ℕ)) (c : PoolConf)
    → (configure atoi values c).0 ≡ true
    → (c.threads ≡ 0) × HasThreads (configure atoi values c).1
unfolding configure
configure-HasThreads atoi values c h = elim (Bool-cases (c.threads == 0)) [
  | inr e ↦ absurd (let clash = rw (e, configure) at h in cc)
  | inl e ↦
      (let loaded = read_args atoi values (record c { max_queue = pos 65536 }) in
        let both : (loaded.0 && not (loaded.1.threads == 0)) ≡ true = rw (e, configure) at h in
        let some_threads : 0 < loaded.1.threads = ground (arith, both) in
        rw (e, configure) (ground (arith, e), some_threads))
]

create_threads-lem :
    (creates : ℕ → Bool) (i n : ℕ)
    → (create_threads creates i n).0 ≡ true
    → (create_threads creates i n).1 ≡ i + n
unfolding create_threads
create_threads-lem creates i zero h = omega arith
create_threads-lem creates i (suc n) h = elim (Bool-cases (creates i)) [
  | inl e ↦ rw e (let rest = create_threads-lem creates (i + 1) n (rw e at h) in omega arith)
  | inr e ↦ absurd (let clash = rw e at h in cc)
]

-- ngx_thread_pool_init returns NGX_OK only if all threads of the pool run.
pub pool_init-threads :
    (notify mutex cond attr : Bool) (creates : ℕ → Bool) (threads : ℕ)
    → (pool_init notify mutex cond attr creates threads).0 ≡ ok
    → (pool_init notify mutex cond attr creates threads).1 ≡ threads
unfolding pool_init
pool_init-threads notify mutex cond attr creates threads h =
    elim (Bool-cases (create_threads creates 0 threads).0) [
      | inl k ↦ (let all = create_threads-lem creates 0 threads k in ground (arith, h, all, k))
      | inr k ↦ absurd (ground (arith, h, k))
    ]
