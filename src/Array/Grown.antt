-- ===== src/Array/Grown.antt =====
-- The growth of an array, in place or by a move: the memory it gets, and the old elements.
use inside_nginx.Base.{
  ℕ, ◌+◌, ◌-◌, ◌*◌, ◌^◌, ◌≤◌, ◌<◌, ◌≡◌, refl, sym, ap, ◌∙◌, inl, inr, true, ◌&&◌, Option, some,
  arith, ltb, leb, ◌==◌, Bool-cases, Option-cases,
}
use inside_nginx.Base.Words.{add64}
use inside_nginx.Pool.Small.{IsAlign}
use inside_nginx.Pool.Granted.{IsPool, IsGranted, palloc-IsGranted}
use inside_nginx.Array.{take_bytes, first_last, first_end, set_last}
use inside_nginx.Array.{Array, Store, address_of, copy, elements_end, grow}

-- Reading what was copied.
copy-read :
    (to from n k : ℕ) (memory : ℕ → ℕ) → k < n → copy to from n memory (to + k) ≡ memory (from + k)
unfolding copy
copy-read to from n k memory h =
    let inside : (leb to (to + k) && ltb (to + k) (to + n)) ≡ true = ground (arith, h) in
    let same : from + (to + k - to) ≡ from + k = omega arith in rw (inside, same) refl

-- The first n bytes of the elements are the same.
abbrev pub Keeps : ℕ → Array → Store → Array → Store → Type 0
Keeps n a s a' s' =
    (k : ℕ) → k < n → s'.memory (address_of a'.elements + k) ≡ s.memory (address_of a.elements + k)

-- An array that n elements more can be asked for: its elements lie within its capacity, and neither
-- the numbers of elements nor the bytes of a grown array leave a word.
pub record IsFit (n : ℕ) (a : Array) : Type 0 where
  pub within : a.count ≤ a.capacity
  pub capacity_small : a.capacity < 2 ^ 63
  pub count_small : a.count + n < 2 ^ 63
  pub reach : address_of a.elements + a.size * (a.capacity + n) < 2 ^ 64
  pub doubled : a.size * (2 * (a.capacity + n)) < 2 ^ 64

-- The parameters of Pool.
module _ (align : ℕ → ℕ) (pool_header data_header large_header cleanup_header max_alloc : ℕ)
    (memalign : ℕ → ℕ → ℕ → Option ℕ) (alloc : ℕ → ℕ → Option ℕ) where
  -- Where the elements of an array lie after a push: where they were; or there with more bytes, which
  -- end at `last` of the first block, not behind its `end`; or in as many bytes from ngx_palloc as the
  -- capacity takes.
  pub data IsHoused (a : Array) (s : Store) (a' : Array) (s' : Store) : Type 0 where
    kept : a'.elements ≡ a.elements → a'.capacity ≡ a.capacity → s' ≡ s → IsHoused a s a' s'
    extended :
        a'.elements ≡ a.elements
        → address_of a.elements + a.size * a.capacity ≡ first_last s.pool
        → s' ≡ set_last (address_of a'.elements + a'.size * a'.capacity) s
        → address_of a'.elements + a'.size * a'.capacity ≤ first_end s.pool
        → IsHoused a s a' s'
    moved :
        (b : ℕ)
        → a'.elements ≡ some b
        → IsGranted align pool_header data_header large_header cleanup_header max_alloc memalign
            alloc
            (a'.size * a'.capacity)
            s.pool
            b
            s'.pool
        → IsHoused a s a' s'

  -- What a growth keeps, and the room that it leaves.
  pub record IsGrown (copied needed : ℕ) (a : Array) (s : Store) (a' : Array) (s' : Store)
      : Type 0 where
    pub bytes : Keeps copied a s a' s'
    pub count : a'.count ≡ a.count
    pub size : a'.size ≡ a.size
    pub room : needed ≤ a'.capacity
    pub housed : IsHoused a s a' s'

  module _ (al : IsAlign align) where
    take_bytes-IsGranted :
        (n : ℕ) (s : Store) {b : ℕ}
        → IsPool align pool_header data_header large_header cleanup_header max_alloc memalign alloc
            s.pool
        → (take_bytes align pool_header data_header large_header cleanup_header max_alloc memalign
            alloc n s).0
          ≡ some b
        → IsGranted align pool_header data_header large_header cleanup_header max_alloc memalign
            alloc n s.pool b
            (take_bytes align pool_header data_header large_header cleanup_header max_alloc memalign
              alloc n s).1.pool
    unfolding take_bytes
    take_bytes-IsGranted n s v h =
        palloc-IsGranted align pool_header data_header large_header cleanup_header max_alloc
          memalign alloc n s.pool s.system al v h

    take_bytes-memory :
        (n : ℕ) (s : Store)
        → (take_bytes align pool_header data_header large_header cleanup_header max_alloc memalign
            alloc n s).1.memory
          ≡ s.memory
    unfolding take_bytes
    take_bytes-memory n s = refl

    ends :
        (n : ℕ) (a : Array)
        → IsFit n a
        → elements_end a ≡ address_of a.elements + a.size * a.capacity
    unfolding elements_end
    ends n a f = omega (arith, f.reach)

    -- The growth in place.
    extended-IsGrown :
        (n more copied : ℕ) (a : Array) (s : Store)
        → IsFit n a
        → more ≡ a.size * n
        → ((elements_end a == first_last s.pool)
            && leb (add64 (first_last s.pool) more) (first_end s.pool))
          ≡ true
        → IsGrown copied
            (a.count + n)
            a
            s
            (record a { capacity = add64 a.capacity n })
            (set_last (add64 (first_last s.pool) more) s)
    extended-IsGrown n more copied a s f em e =
        let wide : add64 a.capacity n ≡ a.capacity + n =
          omega (arith, f.capacity_small, f.count_small) in
        let at : elements_end a ≡ first_last s.pool = ground (arith, e) in
        let here : address_of a.elements + a.size * a.capacity ≡ first_last s.pool =
          sym (ends n a f) ∙ at in
        let total : add64 (first_last s.pool) more
            ≡ address_of a.elements + a.size * add64 a.capacity n =
          rw (wide, em) (omega (arith, here, f.reach)) in
        let bound : add64 (first_last s.pool) more ≤ first_end s.pool = ground (arith, e) in
        record {
          bytes = λ k x. refl;
          count = refl;
          size = refl;
          room = omega (arith, wide, f.within);
          housed = extended refl here (ap (λ l. set_last l s) total) (omega (arith, total, bound));
        }

    -- The growth by a move to b.
    moved-IsGrown :
        (n bytes copied capacity b : ℕ) (a : Array) (s : Store)
        → IsPool align pool_header data_header large_header cleanup_header max_alloc memalign alloc
            s.pool
        → a.count + n ≤ capacity
        → bytes ≡ a.size * capacity
        → (got : (take_bytes align pool_header data_header large_header cleanup_header max_alloc
              memalign alloc bytes s).0
            ≡ some b)
        → (let s' =
              (take_bytes align pool_header data_header large_header cleanup_header max_alloc
                memalign alloc bytes s).1 in
            IsGrown copied
              (a.count + n)
              a
              s
              (record a { elements = some b; capacity = capacity })
              (record s' { memory = copy b (address_of a.elements) copied s'.memory }))
    moved-IsGrown n bytes copied capacity b a s v room eb got = record {
      bytes = λ k x.
          copy-read b (address_of a.elements) copied k
            (take_bytes align pool_header data_header large_header cleanup_header max_alloc memalign
              alloc bytes s).1.memory
            x
          ∙ ap (λ m. m (address_of a.elements + k)) (take_bytes-memory bytes s);
      count = refl;
      size = refl;
      room = room;
      housed = moved b refl (rw (sym eb) (take_bytes-IsGranted bytes s v got));
    }

    -- What ngx_array_push and ngx_array_push_n have in common when the array is full.
    pub grow-IsGrown :
        (n more bytes copied capacity : ℕ) (a : Array) (s : Store)
        → IsPool align pool_header data_header large_header cleanup_header max_alloc memalign alloc
            s.pool
        → IsFit n a
        → a.count + n ≤ capacity
        → more ≡ a.size * n
        → bytes ≡ a.size * capacity
        → let r =
            grow align pool_header data_header large_header cleanup_header max_alloc memalign alloc
              n more bytes copied capacity a s in
          r.0 ≡ true → IsGrown copied (a.count + n) a s r.1.0 r.1.1
    unfolding grow
    grow-IsGrown n more bytes copied capacity a s v f room em eb h =
        elim (Bool-cases (
          (elements_end a == first_last s.pool)
          && leb (add64 (first_last s.pool) more) (first_end s.pool))) [
            | inl e ↦ rw (e, grow) (extended-IsGrown n more copied a s f em e)
            | inr e ↦
                (elim (Option-cases
                  (take_bytes align pool_header data_header large_header cleanup_header max_alloc
                    memalign alloc bytes s).0) [
                      | inl p ↦ absurd (let clash = rw (e, p, grow) at h in cc)
                      | inr (b, p) ↦
                          rw (e, p, grow) (moved-IsGrown n bytes copied capacity b a s v room eb p)
                    ])
          ]
