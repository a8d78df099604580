-- ===== src/Pool/Granted.antt =====
-- ngx_palloc as a whole: where the bytes that it hands out come from.
use inside_nginx.Base.{
  none, ltb, if◌then◌else◌, subst, ◌^◌, ◌<◌, sym, ℕ, ◌+◌, ◌≤◌, ◌≡◌, refl, inl, inr, true, Option,
  some, List, [], ◌∷◌, ◌++◌, arith, leb, Bool-cases, Option-cases, All,
}
use inside_nginx.Base.Words.{sub64}
use inside_nginx.Pool.{
  create_pool, Block, Pool, System, small_from, count_failures, pool_size, reuse, max_reuse, palloc,
  palloc_small, palloc_block, palloc_large, add_large,
}
use inside_nginx.Pool.Small.{IsAlign, IsBlock, IsCut, small_from-IsCut}

-- The parameters of Pool.
module _ (align : ℕ → ℕ) (pool_header data_header large_header cleanup_header max_alloc : ℕ)
    (memalign : ℕ → ℕ → ℕ → Option ℕ) (alloc : ℕ → ℕ → Option ℕ) where
  -- The blocks of a pool are valid, and a new block has room for a small allocation.
  pub record IsPool (p : Pool) : Type 0 where
    pub blocks_valid : All (IsBlock align) p.blocks
    pub new_room :
        (call a n : ℕ)
        → memalign call 16 (pool_size p.blocks) ≡ some a
        → n ≤ p.max
        → align (a + data_header) + n ≤ a + pool_size p.blocks

  -- The n bytes at m are cut from a block of the pool, or begin a new block behind its header and end
  -- within it, or are an answer of ngx_alloc to a request for n bytes.
  pub data IsGranted (n : ℕ) (p : Pool) (m : ℕ) (p' : Pool) : Type 0 where
    cut_off : IsCut n p.blocks m p'.blocks → IsGranted n p m p'
    new_block :
        (call : ℕ) (olds : List Block) (b : Block)
        → p'.blocks ≡ olds ++ b ∷ []
        → memalign call 16 (pool_size p.blocks) ≡ some b.start
        → b.end ≡ b.start + pool_size p.blocks
        → b.start + data_header ≤ m
        → b.last ≡ m + n
        → m + n ≤ b.end
        → IsGranted n p m p'
    allocated : (call : ℕ) → alloc call n ≡ some m → IsGranted n p m p'

  palloc_block-IsGranted :
      (n : ℕ) (p : Pool) (s : System) {m : ℕ}
      → IsAlign align
      → IsPool p
      → n ≤ p.max
      → let r =
          palloc_block align pool_header data_header large_header cleanup_header max_alloc memalign
            alloc n p s in
        r.0 ≡ some m → IsGranted n p m r.1
  unfolding palloc_block
  palloc_block-IsGranted n p s {m} al v small =
      elim (Option-cases (memalign s.calls 16 (pool_size p.blocks))) [
        | inl e ↦ rw (e, palloc_block) (λ h. cc)
        | inr (a, e) ↦
            rw (e, palloc_block)
              (λ h.
                let at : align (a + data_header) ≡ m = cc in
                new_block s.calls (count_failures p.current 0 p.blocks p.current).0
                  (record {
                    start = a;
                    last = align (a + data_header) + n;
                    end = a + pool_size p.blocks;
                    failed = 0;
                  })
                  refl e refl (omega (arith, at, al.above (a + data_header))) (omega (arith, at))
                  (omega (arith, at, v.new_room s.calls a n e small)))
      ]

  palloc_small-IsGranted :
      (n : ℕ) (p : Pool) (s : System) {m : ℕ}
      → IsAlign align
      → IsPool p
      → n ≤ p.max
      → let r =
          palloc_small align pool_header data_header large_header cleanup_header max_alloc memalign
            alloc true n p s in
        r.0 ≡ some m → IsGranted n p m r.1
  unfolding palloc_small
  palloc_small-IsGranted n p s {m} al v small =
      elim (Option-cases (small_from align true n p.current p.blocks)) [
        | inl e ↦ rw (e, palloc_small) (palloc_block-IsGranted n p s al v small)
        | inr ((m', bs), e) ↦
            rw (e, palloc_small)
              (λ h.
                let at : m' ≡ m = cc in
                cut_off
                  (small_from-IsCut align al true n p.current p.blocks v.blocks_valid (rw⁻¹ at e)))
      ]

  add_large-address :
      (a : ℕ) (p : Pool) (s : System) {m : ℕ}
      → (add_large align pool_header data_header large_header cleanup_header max_alloc memalign
          alloc a p s).0
        ≡ some m
      → a ≡ m
  unfolding add_large
  add_large-address a p s h =
      elim (Option-cases
        (palloc_small align pool_header data_header large_header cleanup_header max_alloc memalign
          alloc true large_header p s).0) [
            | inl e ↦ (let never = rw (e, add_large) at h in cc)
            | inr (node, e) ↦ (let same = rw (e, add_large) at h in cc)
          ]

  palloc_large-address :
      (n : ℕ) (p : Pool) (s : System) {m : ℕ}
      → (palloc_large align pool_header data_header large_header cleanup_header max_alloc memalign
          alloc n p s).0
        ≡ some m
      → alloc s.calls n ≡ some m
  unfolding palloc_large
  palloc_large-address n p s {m} h = elim (Option-cases (alloc s.calls n)) [
    | inl e ↦ (let never = rw (e, palloc_large) at h in cc)
    | inr (a, e) ↦ (elim (Option-cases (reuse max_reuse a p.large)) [
      | inr (ls, f) ↦
          (let got = rw (e, f, palloc_large) at h in let same : a ≡ m = cc in rw (sym same) e)
      | inl f ↦
          (let got = rw (e, f, palloc_large) at h in
            let same = add_large-address a p _ got in rw (sym same) e)
    ])
  ]

  -- The bytes that ngx_palloc hands out lie within a block of the pool, below its `last`, or are an
  -- answer of ngx_alloc to a request for as many bytes.
  pub palloc-IsGranted :
      (n : ℕ) (p : Pool) (s : System) {m : ℕ}
      → IsAlign align
      → IsPool p
      → let r =
          palloc align pool_header data_header large_header cleanup_header max_alloc memalign alloc
            n p s in
        r.0 ≡ some m → IsGranted n p m r.1
  unfolding palloc
  palloc-IsGranted n p s {m} al v = elim (Bool-cases (leb n p.max)) [
    | inl e ↦ rw (e, palloc) (palloc_small-IsGranted n p s al v (ground (arith, e)))
    | inr e ↦ rw (e, palloc) (λ h. allocated s.calls (palloc_large-address n p s h))
  ]

  -- A pool that ngx_create_pool has made is such a pool, if it is larger than its header, and memory
  -- from ngx_memalign leaves the pool an aligned end and the headers of a block and a pool in place.
  pub create_pool-IsPool :
      (size : ℕ) (s : System) {p : Pool}
      → pool_header ≤ size
      → ((call a : ℕ)
          → memalign call 16 size ≡ some a
          → (align (a + data_header) ≤ a + pool_header)
            × (align (a + size) ≡ a + size)
            × (a + size < 2 ^ 64))
      → (create_pool align pool_header data_header large_header cleanup_header max_alloc memalign
          alloc size s).0
        ≡ some p
      → IsPool p
  unfolding create_pool pool_size
  create_pool-IsPool size s {p} large_enough answers h =
      elim (Option-cases (memalign s.calls 16 size)) [
        | inl e ↦ (let never = rw (e, create_pool) at h in cc)
        | inr (a, e) ↦
            (let room = sub64 size pool_header in
              let made : Pool = record {
                blocks =
                    record { start = a; last = a + pool_header; end = a + size; failed = 0 } ∷ [];
                max = if ltb room max_alloc then room else max_alloc;
                current = 0;
                chain = none;
                large = [];
                cleanup = [];
              } in
              let got = rw (e, create_pool) at h in
              let same : made ≡ p = cc in
              let all = answers s.calls a e in
              let whole : pool_size made.blocks ≡ size = omega (arith, all.2) in
              subst IsPool same (record {
                blocks_valid = (
                  record { order = omega (arith, large_enough); word = all.2; even_end = all.1 },
                  tt,
                );
                new_room = λ call b n at small.
                    let again = answers call b (rw (sym whole) at) in
                    let bound : n + pool_header ≤ size =
                      ground (arith, small, large_enough, all.2) in
                    rw whole (omega (arith, again.0, bound));
              }))
      ]
