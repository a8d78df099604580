-- ===== src/Array.antt =====
-- ngx_array.c and ngx_array.h: arrays that grow inside of a pool.
--
-- A store is the pool with the memory that holds the elements, which is a function of the address.
-- `p->d.last` and `p->d.end` are those of the first block of the pool. What the pool itself keeps in
-- memory is not a part of it.
pub mod Grown
pub mod Push
pub mod Answered
mod Tests
use inside_nginx.Base.{
  ℕ, zero, suc, ◌+◌, ◌-◌, ◌*◌, ◌/◌, ◌%◌, ◌^◌, ◌≤◌, ◌<◌, ◌≡◌, refl, sym, ap, ap₂, ◌∙◌, ◌≢◌, ◌↔◌, ◌⊎◌,
  inl, inr, Bool, true, false, not, ◌&&◌, ◌||◌, Option, none, some, List, [], ◌∷◌, ◌++◌, arith, ltb,
  leb, ◌==◌, if◌then◌else◌, Bool-cases, Option-cases, Rc, length, get_elem?, get_or, set, modify,
  replicate, All,
}
use inside_nginx.Base.Int.{
  ℤ, pos, negsuc, ◌+ℤ◌, ◌-ℤ◌, ◌≤ℤ◌, ◌<ℤ◌, int_laws, parts_of_eq, ltb_ℤ, leb_ℤ, pos_part, neg_part,
}
use inside_nginx.Pool.{Block, Pool, System, palloc}
use inside_nginx.Base.Words.{add64, mul64, sub64, to_u64}

-- ngx_array_t at its address `place`; `elements` is none for NULL.
pub record Array : Type 0 where
  pub place : ℕ
  pub elements : Option ℕ
  pub count : ℕ
  pub size : ℕ
  pub capacity : ℕ

pub record Store : Type 0 where
  pub pool : Pool
  pub system : System
  pub memory : ℕ → ℕ

-- `p->d.last` and `p->d.end`
abbrev pub first_last : Pool → ℕ
first_last p = elim p.blocks [ [] ↦ 0 | b ∷ bs ↦ b.last ]

abbrev pub first_end : Pool → ℕ
first_end p = elim p.blocks [ [] ↦ 0 | b ∷ bs ↦ b.end ]

-- `p->d.last = last`
abbrev pub set_last : ℕ → Store → Store
set_last last s = record s {
  pool = record (s.pool) {
    blocks = modify (s.pool.blocks) 0 (λ (b : Block). record b { last = last });
  };
}

-- The address as a number.
abbrev pub address_of : Option ℕ → ℕ
address_of none = 0
address_of (some a) = a

-- ngx_memcpy
unfoldable pub copy : ℕ → ℕ → ℕ → (ℕ → ℕ) → ℕ → ℕ
copy to from n memory a = if leb to a && ltb a (to + n) then memory (from + (a - to)) else memory a

-- ngx_array_init: it keeps the field `elements` as it finds it.
unfoldable pub init_array : ℕ → ℕ → Array → Bool × Array
init_array n size a =
    let a' : Array = record a { count = 0; size = size; capacity = n } in
    (elim a.elements [ none ↦ false | some e ↦ true ], a')

-- The first byte behind the elements.
unfoldable pub elements_end : Array → ℕ
elements_end a = add64 (address_of a.elements) (mul64 a.size a.capacity)

-- ngx_array_destroy, where `header` is sizeof(ngx_array_t).
unfoldable pub destroy_array : ℕ → Array → Store → Store
destroy_array header a s =
    let s' : Store =
      if elements_end a == first_last s.pool
      then set_last (sub64 (first_last s.pool) (mul64 a.size a.capacity)) s
      else s in
    if add64 a.place header == first_last s'.pool then set_last a.place s' else s'

-- The address of the element of a number.
unfoldable pub element_at : Array → ℕ → ℕ
element_at a i = add64 (address_of a.elements) (mul64 a.size i)

-- The end of both functions: n elements more, and the address of the first of them.
unfoldable pub take_new : ℕ → Bool × (Array × Store) → Option ℕ × (Array × Store)
take_new n (good, (a, s)) =
    if good
    then (some (element_at a a.count), (record a { count = add64 a.count n }, s))
    else (none, (a, s))

-- The parameters of Pool.
module _ (align : ℕ → ℕ) (pool_header data_header large_header cleanup_header max_alloc : ℕ)
    (memalign : ℕ → ℕ → ℕ → Option ℕ) (alloc : ℕ → ℕ → Option ℕ) where
  -- ngx_palloc on the pool of a store.
  unfoldable pub take_bytes : ℕ → Store → Option ℕ × Store
  take_bytes bytes s =
      let (got, p, sys) =
        palloc align pool_header data_header large_header cleanup_header max_alloc memalign alloc
          bytes s.pool s.system in
      (got, record s { pool = p; system = sys })

  -- ngx_array_create; `garbage` is what the fresh memory holds in place of the fields.
  unfoldable pub create_array : ℕ → (ℕ → Array) → ℕ → ℕ → Store → Option Array × Store
  create_array header garbage n size s =
      let (got, s') = take_bytes header s in
      elim got [
        | none ↦ (none, s')
        | some p ↦
            (let (good, a) = init_array n size (record (garbage p) { place = p }) in
              (if good then some a else none, s'))
      ]

  -- The growth by n elements of `more` bytes together: in place if the elements end where the block is
  -- cut off and the block has room, otherwise by a copy of `copied` bytes into `bytes` new ones for
  -- `capacity` elements. The flag says whether there is memory.
  unfoldable pub grow : (n more bytes copied capacity : ℕ) → Array → Store → Bool × (Array × Store)
  grow n more bytes copied capacity a s =
      let (got, s') = take_bytes bytes s in
      let last = first_last s.pool in
      if (elements_end a == last) && leb (add64 last more) (first_end s.pool)
      then (true, (record a { capacity = add64 a.capacity n }, set_last (add64 last more) s))
      else elim got [
        | none ↦ (false, (a, s'))
        | some b ↦ (
          true,
          (
            record a { elements = some b; capacity = capacity },
            record s' { memory = copy b (address_of a.elements) copied s'.memory },
          ),
        )
      ]

  -- ngx_array_push
  unfoldable pub push : Array → Store → Option ℕ × (Array × Store)
  push a s =
      let size = mul64 a.size a.capacity in
      let grown = grow 1 a.size (mul64 2 size) size (mul64 a.capacity 2) a s in
      take_new 1 (if a.count == a.capacity then grown else (true, (a, s)))

  -- ngx_array_push_n
  unfoldable pub push_n : ℕ → Array → Store → Option ℕ × (Array × Store)
  push_n n a s =
      let nalloc = mul64 2 (if leb a.capacity n then n else a.capacity) in
      let grown = grow n (mul64 n a.size) (mul64 nalloc a.size) (mul64 a.count a.size) nalloc a s in
      take_new n (if ltb a.capacity (add64 a.count n) then grown else (true, (a, s)))
