-- ===== src/ThreadPool/Conf/Registry.antt =====
-- ngx_thread_pool_add and ngx_thread_pool_get: the names of the pools.
use inside_nginx.Base.{
  same_name, same_name_refl, All-append, ℕ, suc, ◌+◌, ◌≡◌, ap, ◌∙◌, inl, inr, Bool, true, false,
  Option, none, some, List, [], ◌∷◌, ◌++◌, arith, Bool-cases, Option-cases, length, All,
}
use inside_nginx.ThreadPool.Conf.{PoolConf, pool_get, name_or_default, new_pool, pool_add}

-- No two pools have the same name.
abbrev pub IsNamed : List PoolConf → Type 0
IsNamed [] = Unit
IsNamed (c ∷ cs) = All (λ d. same_name c.name d.name ≡ false) cs × IsNamed cs

pool_get-none :
    (i : ℕ) (cs : List PoolConf) (name : List ℕ)
    → pool_get i cs name ≡ none
    → All (λ d. same_name d.name name ≡ false) cs
unfolding pool_get
pool_get-none i [] name h = tt
pool_get-none i (c ∷ cs) name h = elim (Bool-cases (same_name c.name name)) [
  | inl e ↦ absurd (let clash = rw e at h in cc)
  | inr e ↦ (e, pool_get-none (i + 1) cs name (rw e at h))
]

pool_get-append :
    (i : ℕ) (cs : List PoolConf) (c : PoolConf) (name : List ℕ)
    → pool_get i cs name ≡ none
    → same_name c.name name ≡ true
    → pool_get i (cs ++ c ∷ []) name ≡ some (i + length cs)
unfolding pool_get
pool_get-append i [] c name h e = rw e (let at : i ≡ i + 0 = omega arith in ap (λ n. some n) at)
pool_get-append i (d ∷ cs) c name h e = elim (Bool-cases (same_name d.name name)) [
  | inl k ↦ absurd (let clash = rw k at h in cc)
  | inr k ↦
      let at : i + 1 + length cs ≡ i + suc (length cs) = omega arith in
      rw k (pool_get-append (i + 1) cs c name (rw k at h) e ∙ ap (λ n. some n) at)
]

IsNamed-append :
    (cs : List PoolConf) (c : PoolConf)
    → IsNamed cs
    → All (λ d. same_name d.name c.name ≡ false) cs
    → IsNamed (cs ++ c ∷ [])
IsNamed-append [] c h k = (tt, tt)
IsNamed-append (d ∷ cs) c h k = (
  All-append (λ e. same_name d.name e.name ≡ false) cs (c ∷ []) h.0 (k.0, tt),
  IsNamed-append cs c h.1 k.1,
)

module _ (allocs pushes : Bool) (name : Option (List ℕ)) (file line : ℕ)
    (pools : List PoolConf) where
  -- A pool that ngx_thread_pool_add returns is the one that ngx_thread_pool_get finds afterwards
  -- under the name, or under the default name where none is given.
  pub pool_get-pool_add :
      {i : ℕ}
      → (pool_add allocs pushes name file line pools).0 ≡ some i
      → pool_get 0 (pool_add allocs pushes name file line pools).1 (name_or_default name) ≡ some i
  unfolding pool_add new_pool
  pool_get-pool_add {i} h = elim (Option-cases (pool_get 0 pools (name_or_default name))) [
    | inl e ↦ (elim (Bool-cases allocs) [
      | inr a ↦ absurd (let clash = rw (e, a, pool_add) at h in cc)
      | inl a ↦ (elim (Bool-cases pushes) [
        | inr p ↦ absurd (let clash = rw (e, a, p, pool_add) at h in cc)
        | inl p ↦
            (let at = rw (e, a, p, pool_add) at h in
              let zero_at : 0 + length pools ≡ length pools = omega arith in
              rw (e, a, p, pool_add)
                (pool_get-append 0 pools (new_pool (name_or_default name) file line)
                    (name_or_default name) e (same_name_refl (name_or_default name))
                  ∙ ap (λ n. some n) zero_at
                  ∙ at))
      ])
    ])
    | inr (k, e) ↦ (let at = rw (e, pool_add) at h in rw (e, pool_add) (e ∙ at))
  ]

  -- ngx_thread_pool_add keeps the names of the pools distinct.
  pub pool_add-IsNamed : IsNamed pools → IsNamed (pool_add allocs pushes name file line pools).1
  unfolding pool_add new_pool
  pool_add-IsNamed v = elim (Option-cases (pool_get 0 pools (name_or_default name))) [
    | inl e ↦ (elim (Bool-cases allocs) [
      | inr a ↦ rw (e, a, pool_add) v
      | inl a ↦ (elim (Bool-cases pushes) [
        | inr p ↦ rw (e, a, p, pool_add) v
        | inl p ↦
            rw (e, a, p, pool_add)
              (IsNamed-append pools (new_pool (name_or_default name) file line) v
                (pool_get-none 0 pools (name_or_default name) e))
      ])
    ])
    | inr (k, e) ↦ rw (e, pool_add) v
  ]
