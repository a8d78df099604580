-- ===== src/Queue/Sort.antt =====
-- ngx_queue_sort of ngx_queue.c.
--
-- The loops over the nodes run on fuel: one round for each node, and one more for the end of the outer
-- loop. Running out is none.
pub mod Spec
pub mod Place
pub mod Rounds
pub mod Sorted
use inside_nginx.Base.{
  ℕ, zero, suc, ◌+◌, ◌-◌, ◌*◌, ◌/◌, ◌%◌, ◌^◌, ◌≤◌, ◌<◌, ◌≡◌, refl, sym, ap, ap₂, ◌∙◌, ◌≢◌, ◌↔◌, ◌⊎◌,
  inl, inr, Bool, true, false, not, ◌&&◌, ◌||◌, Option, none, some, List, [], ◌∷◌, ◌++◌, arith, ltb,
  leb, ◌==◌, if◌then◌else◌, Bool-cases, Option-cases, Rc, length, get_elem?, get_or, set, modify,
  replicate, All,
}
use inside_nginx.Base.Int.{
  ℤ, pos, negsuc, ◌+ℤ◌, ◌-ℤ◌, ◌≤ℤ◌, ◌<ℤ◌, int_laws, parts_of_eq, ltb_ℤ, leb_ℤ, pos_part, neg_part,
}
use inside_nginx.Base.Words.{add64, mul64, sub64, to_u64}
use inside_nginx.Queue.{Nodes, insert_head, remove}

module _ (cmp : ℕ → ℕ → ℤ) (queue : ℕ) where
  -- The do loop: the node, or the sentinel, after which q belongs.
  unfoldable pub find_place : ℕ → ℕ → ℕ → Nodes → Option ℕ
  find_place zero q prev s = none
  find_place (suc fuel) q prev s =
      let before = s.prev prev in
      let rest = find_place fuel q before s in
      if leb_ℤ (cmp prev q) (pos 0)
      then some prev
      else if before == queue
      then some before
      else rest

  -- The for loop; `rounds` is the fuel of each inner loop.
  unfoldable pub sort_from : ℕ → ℕ → ℕ → Nodes → Option Nodes
  sort_from rounds zero q s = none
  sort_from rounds (suc fuel) q s =
      if q == queue then some s else elim (find_place rounds q (s.prev q) (remove q s)) [
        | none ↦ none
        | some place ↦ sort_from rounds fuel (s.next q) (insert_head place q (remove q s))
      ]

  -- ngx_queue_sort
  unfoldable pub sort_queue : ℕ → Nodes → Option Nodes
  sort_queue rounds s =
      let q = s.next queue in
      if q == s.prev queue then some s else sort_from rounds rounds (s.next q) s
