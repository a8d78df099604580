-- ===== src/Array/Push.antt =====
-- ngx_array_push and ngx_array_push_n: the memory of the new elements, and the old elements.
use inside_nginx.Base.{
  suc, zero, ℕ, ◌+◌, ◌*◌, ◌^◌, ◌≤◌, ◌<◌, ◌≡◌, refl, sym, ap, ◌∙◌, inl, inr, Bool, true, false,
  Option, some, arith, ltb, leb, ◌==◌, if◌then◌else◌, Bool-cases,
}
use inside_nginx.Base.Words.{add64, mul64}
use inside_nginx.Pool.Small.{IsAlign}
use inside_nginx.Pool.Granted.{IsPool}
use inside_nginx.Array.Grown.{moved, extended, kept, Keeps, IsHoused, IsGrown, IsFit, grow-IsGrown}
use inside_nginx.Array.{Array, Store, element_at, take_new, push, push_n}

grows : (m a b : ℕ) → a ≤ b → m * a ≤ m * b
grows zero a b h = omega arith
grows (suc m) a b h = omega (arith, h, grows m a b h)

-- The new capacity of ngx_array_push_n, and its bytes.
pub nalloc-room :
    (n : ℕ) (a : Array)
    → IsFit n a
    → (let nalloc = mul64 2 (if leb a.capacity n then n else a.capacity) in
        (a.count + n ≤ nalloc) × (mul64 nalloc a.size ≡ a.size * nalloc))
nalloc-room n a f = elim (Bool-cases (leb a.capacity n)) [
  | inl k ↦
      (let twice : mul64 2 n ≡ 2 * n = omega (arith, f.count_small) in
        rw (k, twice) (ground (arith, k, f.within), omega (arith, f.doubled)))
  | inr k ↦
      (let twice : mul64 2 a.capacity ≡ 2 * a.capacity = omega (arith, f.capacity_small) in
        rw (k, twice) (ground (arith, k, f.within), omega (arith, f.doubled)))
]

-- The parameters of Pool.
module _ (align : ℕ → ℕ) (pool_header data_header large_header cleanup_header max_alloc : ℕ)
    (memalign : ℕ → ℕ → ℕ → Option ℕ) (alloc : ℕ → ℕ → Option ℕ) where
  -- What a push of n elements does: the address is the one behind the old elements, these are the
  -- same, all fit into the capacity, and the memory of the capacity is the array's.
  pub record IsPushed (n elt : ℕ) (a : Array) (s : Store) (a' : Array) (s' : Store) : Type 0 where
    pub bytes : Keeps (a.size * a.count) a s a' s'
    pub place : elt ≡ element_at a' a.count
    pub count : a'.count ≡ a.count + n
    pub size : a'.size ≡ a.size
    pub room : a'.count ≤ a'.capacity
    pub housed :
        IsHoused align pool_header data_header large_header cleanup_header max_alloc memalign alloc
          a s a' s'

  -- The number of elements does not matter for it.
  recount :
      (a : Array) (s : Store) (a' : Array) (s' : Store) (count : ℕ)
      → IsHoused align pool_header data_header large_header cleanup_header max_alloc memalign alloc
          a s a' s'
      → IsHoused align pool_header data_header large_header cleanup_header max_alloc memalign alloc
          a s
          (record a' { count = count })
          s'
  recount a s a' s' count (kept e c r) = kept e c r
  recount a s a' s' count (extended e l r b) = extended e l r b
  recount a s a' s' count (moved b e g) = moved b e g

  module _ (al : IsAlign align) where
    take_new-IsPushed :
        (n copied elt : ℕ) (a : Array) (s : Store) (r : Bool × (Array × Store))
        → (r.0 ≡ true
            → IsGrown align pool_header data_header large_header cleanup_header max_alloc memalign
                alloc copied
                (a.count + n)
                a
                s
                r.1.0
                r.1.1)
        → a.size * a.count ≤ copied
        → a.count + n < 2 ^ 64
        → (take_new n r).0 ≡ some elt
        → IsPushed n elt a s (take_new n r).1.0 (take_new n r).1.1
    unfolding take_new element_at
    take_new-IsPushed n copied elt a s (false, (a', s')) g c w h = absurd (let clash = h in cc)
    take_new-IsPushed n copied elt a s (true, (a', s')) g c w h =
        let grown = g refl in
        let same : element_at a' a'.count ≡ elt = cc in
        let end : add64 a'.count n ≡ a.count + n = omega (arith, grown.count, w) in
        record {
          bytes = λ k x. grown.bytes k (omega (arith, x, c));
          place = sym same ∙ ap (λ i. element_at a' i) grown.count;
          count = end;
          size = grown.size;
          room = omega (arith, end, grown.room);
          housed = recount a s a' s' (add64 a'.count n) grown.housed;
        }

    -- Where there is room, a push takes what is there.
    fits-IsPushed :
        (n elt : ℕ) (a : Array) (s : Store)
        → IsFit n a
        → a.count + n ≤ a.capacity
        → (take_new n (true, (a, s))).0 ≡ some elt
        → IsPushed n elt a s (take_new n (true, (a, s))).1.0 (take_new n (true, (a, s))).1.1
    fits-IsPushed n elt a s f room h =
        take_new-IsPushed n (a.size * a.count) elt a s (true, (a, s))
          (λ good. record {
            bytes = λ k x. refl;
            count = refl;
            size = refl;
            room = room;
            housed = kept refl refl refl;
          })
          (omega arith) (omega (arith, f.count_small)) h

    -- If ngx_array_push on an array of a capacity other than 0 returns an element, this is the place
    -- behind the old elements, whose bytes are kept, in place or moved; it lies within the capacity, and
    -- the memory of the whole capacity is below `last` and `end` of the first block, or was handed
    -- out by ngx_palloc. The numbers of elements and bytes must fit a word.
    pub push-IsPushed :
        (a : Array) (s : Store) (elt : ℕ)
        → IsPool align pool_header data_header large_header cleanup_header max_alloc memalign alloc
            s.pool
        → IsFit 1 a
        → 0 < a.capacity
        → (push align pool_header data_header large_header cleanup_header max_alloc memalign alloc a
            s).0
          ≡ some elt
        → IsPushed 1 elt a s
            (push align pool_header data_header large_header cleanup_header max_alloc memalign alloc
              a s).1.0
            (push align pool_header data_header large_header cleanup_header max_alloc memalign alloc
              a s).1.1
    unfolding push
    push-IsPushed a s elt v f some_room h = elim (Bool-cases (a.count == a.capacity)) [
      | inl e ↦
          (let same : a.count ≡ a.capacity = ground (arith, e) in
            let copied : mul64 a.size a.capacity ≡ a.size * a.capacity = omega (arith, f.doubled) in
            let fits : a.size * a.count ≤ mul64 a.size a.capacity =
              rw (same, copied) (omega arith) in
            let twice : mul64 a.capacity 2 ≡ 2 * a.capacity = omega (arith, f.capacity_small) in
            let bytes : mul64 2 (mul64 a.size a.capacity) ≡ a.size * mul64 a.capacity 2 =
              rw (copied, twice) (omega (arith, f.doubled)) in
            let at = rw (e, push) at h in
            rw (e, push)
              (take_new-IsPushed 1 (mul64 a.size a.capacity) elt a s _
                (λ good.
                  grow-IsGrown align pool_header data_header large_header cleanup_header max_alloc
                    memalign alloc al 1 a.size (mul64 2 (mul64 a.size a.capacity))
                    (mul64 a.size a.capacity) (mul64 a.capacity 2) a s v f
                    (omega (arith, same, some_room, twice)) (omega arith) bytes good)
                fits (omega (arith, f.count_small)) at))
      | inr e ↦
          (let at = rw (e, push) at h in
            rw (e, push) (fits-IsPushed 1 elt a s f (ground (arith, e, f.within)) at))
    ]

    -- The same of ngx_array_push_n, of any capacity.
    pub push_n-IsPushed :
        (n : ℕ) (a : Array) (s : Store) (elt : ℕ)
        → IsPool align pool_header data_header large_header cleanup_header max_alloc memalign alloc
            s.pool
        → IsFit n a
        → (push_n align pool_header data_header large_header cleanup_header max_alloc memalign alloc
            n a s).0
          ≡ some elt
        → IsPushed n elt a s
            (push_n align pool_header data_header large_header cleanup_header max_alloc memalign
              alloc n a s).1.0
            (push_n align pool_header data_header large_header cleanup_header max_alloc memalign
              alloc n a s).1.1
    unfolding push_n
    push_n-IsPushed n a s elt v f h =
        let wanted : add64 a.count n ≡ a.count + n = omega (arith, f.count_small) in
        elim (Bool-cases (ltb a.capacity (add64 a.count n))) [
          | inl e ↦
              (let nalloc = mul64 2 (if leb a.capacity n then n else a.capacity) in
                let copied : mul64 a.count a.size ≡ a.size * a.count =
                  omega (arith, f.reach, grows a.size a.count a.capacity f.within) in
                let more : mul64 n a.size ≡ a.size * n = omega (arith, f.doubled) in
                let (enough, bytes) = nalloc-room n a f in
                let at = rw (e, push_n) at h in
                rw (e, push_n)
                  (take_new-IsPushed n (mul64 a.count a.size) elt a s _
                    (λ good.
                      grow-IsGrown align pool_header data_header large_header cleanup_header
                        max_alloc memalign alloc al n (mul64 n a.size) (mul64 nalloc a.size)
                        (mul64 a.count a.size) nalloc a s v f enough more bytes good)
                    (omega (arith, copied)) (omega (arith, f.count_small)) at))
          | inr e ↦
              (let at = rw (e, push_n) at h in
                rw (e, push_n) (fits-IsPushed n elt a s f (ground (arith, e, wanted)) at))
        ]
