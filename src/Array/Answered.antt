-- ===== src/Array/Answered.antt =====
-- ngx_array_push_n on all branches: what it leaves when it returns an address, and when it does not.
use inside_nginx.Base.{
  ℕ, ◌+◌, ◌*◌, ◌≤◌, ◌<◌, ◌≡◌, refl, sym, subst, inl, inr, Option, none, some, arith, ltb, leb, ◌&&◌,
  ◌==◌, Bool-cases, Option-cases,
}
use inside_nginx.Base.Words.{add64}
use inside_nginx.Pool.Small.{IsAlign}
use inside_nginx.Pool.Granted.{IsPool}
use inside_nginx.Array.{
  Array, Store, first_last, first_end, elements_end, grow, take_bytes, take_new, push_n,
}
use inside_nginx.Array.Grown.{IsFit}
use inside_nginx.Array.Push.{IsPushed, push_n-IsPushed, nalloc-room}

-- The parameters of Pool.
module _ (align : ℕ → ℕ) (pool_header data_header large_header cleanup_header max_alloc : ℕ)
    (memalign : ℕ → ℕ → ℕ → Option ℕ) (alloc : ℕ → ℕ → Option ℕ) where
  -- The array and the memory are as before, the array has no room for n elements more, and ngx_palloc
  -- has denied the bytes of an array that has.
  pub record IsRefused (n : ℕ) (a : Array) (s : Store) (a' : Array) (s' : Store) : Type 0 where
    pub array : a' ≡ a
    pub memory : s'.memory ≡ s.memory
    pub full : a.capacity < a.count + n
    pub capacity : ℕ
    pub room : a.count + n ≤ capacity
    pub denied :
        (take_bytes align pool_header data_header large_header cleanup_header max_alloc memalign
          alloc
          (a.size * capacity)
          s).0
        ≡ none

  -- What a push of n elements leaves, by its answer.
  abbrev pub IsAnswered : ℕ → Option ℕ → Array → Store → Array → Store → Type 0
  IsAnswered n none a s a' s' = IsRefused n a s a' s'
  IsAnswered n (some elt) a s a' s' =
      IsPushed align pool_header data_header large_header cleanup_header max_alloc memalign alloc n
        elt a s a' s'

  take_bytes-kept :
      (n : ℕ) (s : Store)
      → (take_bytes align pool_header data_header large_header cleanup_header max_alloc memalign
          alloc n s).1.memory
        ≡ s.memory
  unfolding take_bytes
  take_bytes-kept n s = refl

  grow-IsRefused :
      (n more bytes copied capacity : ℕ) (a : Array) (s : Store)
      → a.capacity < a.count + n
      → a.count + n ≤ capacity
      → bytes ≡ a.size * capacity
      → let r = take_new n (
          grow align pool_header data_header large_header cleanup_header max_alloc memalign alloc n
            more bytes copied capacity a s) in
        r.0 ≡ none → IsRefused n a s r.1.0 r.1.1
  unfolding grow take_new
  grow-IsRefused n more bytes copied capacity a s full room eb h =
      elim (Bool-cases (
        (elements_end a == first_last s.pool)
        && leb (add64 (first_last s.pool) more) (first_end s.pool))) [
          | inl e ↦ absurd (let clash = rw (e, grow, take_new) at h in cc)
          | inr e ↦
              (elim (Option-cases
                (take_bytes align pool_header data_header large_header cleanup_header max_alloc
                  memalign alloc bytes s).0) [
                    | inr (b, p) ↦ absurd (let clash = rw (e, p, grow, take_new) at h in cc)
                    | inl p ↦
                        rw (e, p, grow, take_new)
                          (record {
                            array = refl;
                            memory = take_bytes-kept bytes s;
                            full = full;
                            capacity = capacity;
                            room = room;
                            denied = rw (sym eb) p;
                          })
                  ])
        ]

  push_n-IsRefused :
      (n : ℕ) (a : Array) (s : Store)
      → IsFit n a
      → (push_n align pool_header data_header large_header cleanup_header max_alloc memalign alloc n
          a s).0
        ≡ none
      → IsRefused n a s
          (push_n align pool_header data_header large_header cleanup_header max_alloc memalign alloc
            n a s).1.0
          (push_n align pool_header data_header large_header cleanup_header max_alloc memalign alloc
            n a s).1.1
  unfolding push_n take_new
  push_n-IsRefused n a s f h =
      let wanted : add64 a.count n ≡ a.count + n = omega (arith, f.count_small) in
      elim (Bool-cases (ltb a.capacity (add64 a.count n))) [
        | inr e ↦ absurd (let clash = rw (e, push_n, take_new) at h in cc)
        | inl e ↦
            (let (enough, bytes) = nalloc-room n a f in
              let at = rw (e, push_n) at h in
              rw (e, push_n)
                (grow-IsRefused n _ _ _ _ a s (ground (arith, e, wanted)) enough bytes at))
      ]

-- If ngx_array_push_n returns an address, this is the place behind the old elements, whose bytes are
-- kept, in place or moved. The n new elements lie within the capacity, and the memory of the whole
-- capacity is the one the array had, or the array ends at the new `last` of the first block, not
-- behind its `end`, or all of it was handed out by ngx_palloc: it is cut off a block of the pool,
-- within its `end`, or an answer of ngx_alloc to a request for as many bytes. If it returns NULL,
-- the array and the memory are as before, the new elements do not fit, and ngx_palloc has denied
-- the bytes for them. The numbers of elements and bytes of the grown array must fit a word, the ends
-- of the blocks be aligned addresses, and a new block have room for a small allocation, as in a pool
-- from ngx_create_pool.
pub push_n-IsAnswered :
    (align : ℕ → ℕ) (pool_header data_header large_header cleanup_header max_alloc : ℕ)
    (memalign : ℕ → ℕ → ℕ → Option ℕ) (alloc : ℕ → ℕ → Option ℕ) (n : ℕ) (a : Array) (s : Store)
    → IsAlign align
    → IsPool align pool_header data_header large_header cleanup_header max_alloc memalign alloc
        s.pool
    → IsFit n a
    → (let r =
          push_n align pool_header data_header large_header cleanup_header max_alloc memalign alloc
            n a s in
        IsAnswered align pool_header data_header large_header cleanup_header max_alloc memalign
          alloc n r.0 a s r.1.0 r.1.1)
push_n-IsAnswered align pool_header data_header large_header cleanup_header max_alloc memalign alloc
      n a s al v f =
    let r =
      push_n align pool_header data_header large_header cleanup_header max_alloc memalign alloc n a
        s in
    elim (Option-cases r.0) [
      | inl e ↦
          subst
            (λ (o : Option ℕ).
              IsAnswered align pool_header data_header large_header cleanup_header max_alloc
                memalign alloc n o a s r.1.0 r.1.1)
            (sym e)
            (push_n-IsRefused align pool_header data_header large_header cleanup_header max_alloc
              memalign alloc n a s f e)
      | inr (elt, e) ↦
          subst
            (λ (o : Option ℕ).
              IsAnswered align pool_header data_header large_header cleanup_header max_alloc
                memalign alloc n o a s r.1.0 r.1.1)
            (sym e)
            (push_n-IsPushed align pool_header data_header large_header cleanup_header max_alloc
              memalign alloc al n a s elt v f e)
    ]
