-- ===== src/Pool.antt =====
-- ngx_palloc.c: pools of memory. A pool is a chain of blocks that small allocations are cut from, and
-- a list of large allocations.
--
-- Addresses are numbers. The chain of blocks is a list, `current` is a position in it, and the block
-- that holds the pool itself is the first. What the program gives to the system and asks of it is in
-- System; the answers of ngx_memalign and ngx_alloc are parameters. The contents of memory are not
-- modelled, except that the regions cleared by ngx_memzero are noted.
pub mod Small
pub mod Free
pub mod Granted
mod Tests
use mathlib.Core.Option
use inside_nginx.Base.{
  ok, declined, map, ℕ, zero, suc, ◌+◌, ◌-◌, ◌*◌, ◌/◌, ◌%◌, ◌^◌, ◌≤◌, ◌<◌, ◌≡◌, refl, sym, ap, ap₂,
  ◌∙◌, ◌≢◌, ◌↔◌, ◌⊎◌, inl, inr, Bool, true, false, not, ◌&&◌, ◌||◌, Option, none, some, List, [],
  ◌∷◌, ◌++◌, arith, ltb, leb, ◌==◌, if◌then◌else◌, Bool-cases, Option-cases, Rc, length, get_elem?,
  get_or, set, modify, replicate, All,
}
use inside_nginx.Base.Int.{
  ℤ, pos, negsuc, ◌+ℤ◌, ◌-ℤ◌, ◌≤ℤ◌, ◌<ℤ◌, int_laws, parts_of_eq, ltb_ℤ, leb_ℤ, pos_part, neg_part,
}
use inside_nginx.Base.Words.{add64, mul64, sub64, to_u64}

-- ngx_pool_data_t, with the address of the block.
pub record Block : Type 0 where
  pub start : ℕ
  pub last : ℕ
  pub end : ℕ
  pub failed : ℕ

-- ngx_pool_large_t, with the address of the node.
pub record Large : Type 0 where
  pub place : ℕ
  pub alloc : Option ℕ

-- ngx_pool_cleanup_t, with its address; `argument` is its `data`. A handler is the address of a function.
pub record Cleanup : Type 0 where
  pub place : ℕ
  pub handler : Option ℕ
  pub argument : Option ℕ

-- ngx_pool_t. The newest large allocation and the newest cleanup come first.
pub record Pool : Type 0 where
  pub blocks : List Block
  pub max : ℕ
  pub current : ℕ
  pub chain : Option ℕ
  pub large : List Large
  pub cleanup : List Cleanup

-- The number of requests for memory so far, the addresses given back, the regions cleared, and the
-- handlers that were run, each the newest first.
pub record System : Type 0 where
  pub calls : ℕ
  pub freed : List ℕ
  pub cleared : List (ℕ × ℕ)
  pub ran : List (ℕ × Option ℕ)

-- Where an allocation starts in a block, aligned or not.
abbrev pub start_in : (ℕ → ℕ) → Bool → Block → ℕ
start_in align aligned b = if aligned then align b.last else b.last

-- A result from the blocks after one that the loop leaves alone.
abbrev pub behind : Block → ℕ × List Block → ℕ × List Block
behind b (m, bs) = (m, b ∷ bs)

-- The loop of ngx_palloc_small over the blocks, the first n of which come before `current`. `align`
-- is ngx_align_ptr to NGX_ALIGNMENT.
unfoldable pub small_from : (ℕ → ℕ) → Bool → ℕ → ℕ → List Block → Option (ℕ × List Block)
small_from align aligned size n [] = none
small_from align aligned size zero (b ∷ bs) =
    let m = start_in align aligned b in
    let rest = small_from align aligned size zero bs in
    if leb size (sub64 b.end m)
    then some (m, record b { last = m + size } ∷ bs)
    else Option.map (behind b) rest
small_from align aligned size (suc n) (b ∷ bs) =
    Option.map (behind b) (small_from align aligned size n bs)

-- The loop of ngx_palloc_block from `current` on, which is n blocks ahead: each block but the last
-- counts a failure, and `current` moves past a block that had more than four. i is the position.
unfoldable pub count_failures : ℕ → ℕ → List Block → ℕ → List Block × ℕ
count_failures n i [] current = ([], current)
count_failures (suc n) i (b ∷ bs) current =
    let (bs', current') = count_failures n (i + 1) bs current in (b ∷ bs', current')
count_failures zero i (b ∷ []) current = (b ∷ [], current)
count_failures zero i (b ∷ c ∷ bs) current =
    let (bs', current') =
      count_failures zero (i + 1) (c ∷ bs) (if ltb 4 b.failed then i + 1 else current) in
    (record b { failed = add64 b.failed 1 } ∷ bs', current')

-- The size of a pool: `pool->d.end - (u_char *) pool`.
unfoldable pub pool_size : List Block → ℕ
pool_size [] = 0
pool_size (b ∷ bs) = sub64 b.end b.start

-- The loop of ngx_palloc_large that looks for a node without memory among the first n.
unfoldable pub reuse : ℕ → ℕ → List Large → Option (List Large)
reuse zero block ls = none
reuse (suc n) block [] = none
reuse (suc n) block (l ∷ ls) =
    let rest = reuse n block ls in
    elim l.alloc [
      | none ↦ some (record l { alloc = some block } ∷ ls)
      | some a ↦ Option.map (λ r. l ∷ r) rest
    ]

-- `if (n++ > 3) break` comes after the fifth node.
abbrev pub max_reuse : ℕ
max_reuse = 5

-- `p == l->alloc`, for a p that is not NULL.
abbrev pub holds : ℕ → Option ℕ → Bool
holds p none = false
holds p (some a) = p == a

-- The loop of ngx_pfree: `none` where no node has the address.
unfoldable pub forget : ℕ → List Large → Option (List Large)
forget p [] = none
forget p (l ∷ ls) =
    let rest = forget p ls in
    if holds p l.alloc then some (record l { alloc = none } ∷ ls) else Option.map (λ r. l ∷ r) rest

-- The loops that free the memory of the large allocations.
unfoldable pub free_large : List Large → List ℕ → List ℕ
free_large [] freed = freed
free_large (l ∷ ls) freed = elim l.alloc [
  | none ↦ free_large ls freed
  | some a ↦ free_large ls (a ∷ freed)
]

unfoldable pub free_blocks : List Block → List ℕ → List ℕ
free_blocks [] freed = freed
free_blocks (b ∷ bs) freed = free_blocks bs (b.start ∷ freed)

-- The loop of ngx_destroy_pool over the cleanups.
unfoldable pub run_cleanups : List Cleanup → List (ℕ × Option ℕ) → List (ℕ × Option ℕ)
run_cleanups [] ran = ran
run_cleanups (c ∷ cs) ran = elim c.handler [
  | none ↦ run_cleanups cs ran
  | some h ↦ run_cleanups cs ((h, c.argument) ∷ ran)
]

-- ngx_destroy_pool
unfoldable pub destroy_pool : Pool → System → System
destroy_pool p s = record s {
  ran = run_cleanups p.cleanup s.ran;
  freed = free_blocks p.blocks (free_large p.large s.freed);
}

-- What ngx_pfree does with the outcome of its loop.
unfoldable pub end_pfree : Pool → ℕ → System → Option (List Large) → Rc × Pool × System
end_pfree p a s none = (declined, p, s)
end_pfree p a s (some ls) = (ok, record p { large = ls }, record s { freed = a ∷ s.freed })

-- ngx_pfree
unfoldable pub pfree : Pool → ℕ → System → Rc × Pool × System
pfree p a s = end_pfree p a s (forget a p.large)

-- ngx_align_ptr to NGX_ALIGNMENT; the sizes of ngx_pool_t, ngx_pool_data_t, ngx_pool_large_t and
-- ngx_pool_cleanup_t; NGX_MAX_ALLOC_FROM_POOL; and the answer of each request for memory, by its
-- number, its alignment (ngx_memalign) and its size.
module _ (align : ℕ → ℕ) (pool_header data_header large_header cleanup_header max_alloc : ℕ)
    (memalign : ℕ → ℕ → ℕ → Option ℕ) (alloc : ℕ → ℕ → Option ℕ) where
  -- ngx_create_pool
  unfoldable pub create_pool : ℕ → System → Option Pool × System
  create_pool size s =
      let s' = record s { calls = s.calls + 1 } in
      let room = sub64 size pool_header in
      elim (memalign s.calls 16 size) [
        | none ↦ (none, s')
        | some p ↦ (
          some (record {
            blocks = record { start = p; last = p + pool_header; end = p + size; failed = 0 } ∷ [];
            max = if ltb room max_alloc then room else max_alloc;
            current = 0;
            chain = none;
            large = [];
            cleanup = [];
          }),
          s',
        )
      ]

  -- ngx_reset_pool
  unfoldable pub reset_pool : Pool → System → Pool × System
  reset_pool p s = (
    record p {
      blocks = map (λ (b : Block). record b { last = b.start + pool_header; failed = 0 }) p.blocks;
      current = 0;
      chain = none;
      large = [];
    },
    record s { freed = free_large p.large s.freed },
  )

  -- ngx_palloc_block
  unfoldable pub palloc_block : ℕ → Pool → System → Option ℕ × Pool × System
  palloc_block size p s =
      let s' = record s { calls = s.calls + 1 } in
      let (blocks, current) = count_failures p.current 0 p.blocks p.current in
      elim (memalign s.calls 16 (pool_size p.blocks)) [
        | none ↦ (none, p, s')
        | some a ↦
            (let m = align (a + data_header) in
              let new : Block = record {
                start = a;
                last = m + size;
                end = a + pool_size p.blocks;
                failed = 0;
              } in
              (some m, record p { blocks = blocks ++ new ∷ []; current = current }, s'))
      ]

  -- ngx_palloc_small
  unfoldable pub palloc_small : Bool → ℕ → Pool → System → Option ℕ × Pool × System
  palloc_small aligned size p s = elim (small_from align aligned size p.current p.blocks) [
    | none ↦ palloc_block size p s
    | some (m, blocks) ↦ (some m, record p { blocks = blocks }, s)
  ]

  -- The end of ngx_palloc_large and of ngx_pmemalign: a new node for the memory a, or its release.
  unfoldable pub add_large : ℕ → Pool → System → Option ℕ × Pool × System
  add_large a p s =
      let (node, p', s') = palloc_small true large_header p s in
      elim node [
        | none ↦ (none, p', record s' { freed = a ∷ s'.freed })
        | some n ↦
            (some a, record p' { large = record { place = n; alloc = some a } ∷ p'.large }, s')
      ]

  -- ngx_palloc_large
  unfoldable pub palloc_large : ℕ → Pool → System → Option ℕ × Pool × System
  palloc_large size p s =
      let s' = record s { calls = s.calls + 1 } in
      elim (alloc s.calls size) [
        | none ↦ (none, p, s')
        | some a ↦ (elim (reuse max_reuse a p.large) [
          | some ls ↦ (some a, record p { large = ls }, s')
          | none ↦ add_large a p s'
        ])
      ]

  -- ngx_palloc and ngx_pnalloc
  unfoldable pub palloc : ℕ → Pool → System → Option ℕ × Pool × System
  palloc size p s = if leb size p.max then palloc_small true size p s else palloc_large size p s

  unfoldable pub pnalloc : ℕ → Pool → System → Option ℕ × Pool × System
  pnalloc size p s = if leb size p.max then palloc_small false size p s else palloc_large size p s

  -- ngx_pmemalign
  unfoldable pub pmemalign : ℕ → ℕ → Pool → System → Option ℕ × Pool × System
  pmemalign size alignment p s =
      let s' = record s { calls = s.calls + 1 } in
      elim (memalign s.calls alignment size) [ none ↦ (none, p, s') | some a ↦ add_large a p s' ]

  -- ngx_pcalloc
  unfoldable pub pcalloc : ℕ → Pool → System → Option ℕ × Pool × System
  pcalloc size p s =
      let (got, p', s') = palloc size p s in
      elim got [
        | none ↦ (none, p', s')
        | some a ↦ (some a, p', record s' { cleared = (a, size) ∷ s'.cleared })
      ]

  -- ngx_pool_cleanup_add: the address of the cleanup, without a handler.
  unfoldable pub cleanup_add : ℕ → Pool → System → Option ℕ × Pool × System
  cleanup_add size p s =
      let (got, p', s') = palloc cleanup_header p s in
      let (room, p'', s'') = palloc size p' s' in
      elim got [
        | none ↦ (none, p', s')
        | some c ↦
            (let with_data = λ (d : Option ℕ) (q : Pool). record q {
              cleanup = record { place = c; handler = none; argument = d } ∷ q.cleanup;
            } in
              if size == 0 then (some c, with_data none p', s') else elim room [
                | none ↦ (none, p'', s'')
                | some d ↦ (some c, with_data (some d) p'', s'')
              ])
      ]
