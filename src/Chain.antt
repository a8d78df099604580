-- ===== src/Chain.antt =====
-- ngx_list.h and ngx_list.c: lists of elements in parts.
--
-- A list is its full parts, in the order of `next`, and the part that `last` points to, whose `next`
-- is NULL. ngx_palloc is a parameter, with the pool as its state.
pub mod Pushed
mod Tests
use inside_nginx.Base.{
  ℕ, zero, suc, ◌+◌, ◌-◌, ◌*◌, ◌/◌, ◌%◌, ◌^◌, ◌≤◌, ◌<◌, ◌≡◌, refl, sym, ap, ap₂, ◌∙◌, ◌≢◌, ◌↔◌, ◌⊎◌,
  inl, inr, Bool, true, false, not, ◌&&◌, ◌||◌, Option, none, some, List, [], ◌∷◌, ◌++◌, arith, ltb,
  leb, ◌==◌, if◌then◌else◌, Bool-cases, Option-cases, Rc, length, get_elem?, get_or, set, modify,
  replicate, All,
}
use inside_nginx.Base.Int.{
  ℤ, pos, negsuc, ◌+ℤ◌, ◌-ℤ◌, ◌≤ℤ◌, ◌<ℤ◌, int_laws, parts_of_eq, ltb_ℤ, leb_ℤ, pos_part, neg_part,
}
use inside_nginx.Base.Words.{add64, mul64, sub64, to_u64}

-- ngx_list_part_t
pub record Part : Type 0 where
  pub elements : ℕ
  pub count : ℕ

-- ngx_list_t
pub record Chain : Type 0 where
  pub full : List Part
  pub last : Part
  pub size : ℕ
  pub capacity : ℕ

-- sizeof(ngx_list_t) and sizeof(ngx_list_part_t)
abbrev pub list_size : ℕ
list_size = 56

abbrev pub part_size : ℕ
part_size = 24

-- `elt`, and the count of it.
unfoldable pub take_last : Chain → ℕ × Chain
take_last l =
    let last : Part = l.last in
    (
      add64 last.elements (mul64 l.size last.count),
      record l { last = record last { count = last.count + 1 } },
    )

module _ {ℓ} {S : Type ℓ} (palloc : ℕ → S → Option ℕ × S) where
  -- ngx_list_init
  unfoldable pub init_list : ℕ → ℕ → S → Option Chain × S
  init_list n size s =
      let (elements, s') = palloc (mul64 n size) s in
      elim elements [
        | none ↦ (none, s')
        | some a ↦ (
          some (record {
            full = [];
            last = record { elements = a; count = 0 };
            size = size;
            capacity = n;
          }),
          s',
        )
      ]

  -- ngx_list_create
  unfoldable pub create_list : ℕ → ℕ → S → Option Chain × S
  create_list n size s =
      let (list, s') = palloc list_size s in
      elim list [ none ↦ (none, s') | some a ↦ init_list n size s' ]

  -- `the last part is full, allocate a new list part`: whether it succeeds, and the list.
  unfoldable pub grow_list : Chain → S → Bool × (Chain × S)
  grow_list l s =
      let (part, s1) = palloc part_size s in
      let (elements, s2) = palloc (mul64 l.capacity l.size) s1 in
      elim part [
        | none ↦ (false, (l, s1))
        | some p ↦ (elim elements [
          | none ↦ (false, (l, s2))
          | some a ↦ (
            true,
            (
              record l { full = l.full ++ l.last ∷ []; last = record { elements = a; count = 0 } },
              s2,
            ),
          )
        ])
      ]

  -- ngx_list_push: the element, the list and the pool.
  unfoldable pub push_list : Chain → S → Option ℕ × (Chain × S)
  push_list l s =
      let (good, (l', s')) = if l.last.count == l.capacity then grow_list l s else (true, (l, s)) in
      let (elt, l'') = take_last l' in if good then (some elt, (l'', s')) else (none, (l', s'))
