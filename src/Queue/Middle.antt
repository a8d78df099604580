-- ===== src/Queue/Middle.antt =====
-- ngx_queue_middle of ngx_queue.c.
--
-- The loop runs on fuel, one round for two nodes. Running out is none.
pub mod Half
use inside_nginx.Base.{
  ℕ, zero, suc, ◌+◌, ◌-◌, ◌*◌, ◌/◌, ◌%◌, ◌^◌, ◌≤◌, ◌<◌, ◌≡◌, refl, sym, ap, ap₂, ◌∙◌, ◌≢◌, ◌↔◌, ◌⊎◌,
  inl, inr, Bool, true, false, not, ◌&&◌, ◌||◌, Option, none, some, List, [], ◌∷◌, ◌++◌, arith, ltb,
  leb, ◌==◌, if◌then◌else◌, Bool-cases, Option-cases, Rc, length, get_elem?, get_or, set, modify,
  replicate, All,
}
use inside_nginx.Base.Int.{
  ℤ, pos, negsuc, ◌+ℤ◌, ◌-ℤ◌, ◌≤ℤ◌, ◌<ℤ◌, int_laws, parts_of_eq, ltb_ℤ, leb_ℤ, pos_part, neg_part,
}
use inside_nginx.Base.Words.{add64, mul64, sub64, to_u64}
use inside_nginx.Queue.{Nodes}

-- The rounds of the for loop.
unfoldable pub middle_from : ℕ → ℕ → ℕ → ℕ → Nodes → Option ℕ
middle_from zero queue next middle s = none
middle_from (suc fuel) queue next middle s =
    let middle' = s.next middle in
    let next' = s.next next in
    let rest = middle_from fuel queue (s.next next') middle' s in
    if next == s.prev queue
    then some middle
    else if next' == s.prev queue
    then some middle'
    else rest

-- ngx_queue_middle
unfoldable pub queue_middle : ℕ → ℕ → Nodes → Option ℕ
queue_middle fuel queue s = middle_from fuel queue (s.next queue) (s.next queue) s
