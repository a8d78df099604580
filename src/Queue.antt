-- ===== src/Queue.antt =====
-- ngx_queue.h: the nodes of queues and the macros on them.
--
-- The nodes are the memory: for each address the two fields of the node there, 0 for NULL. A queue is
-- the address of its sentinel.
pub mod Middle
pub mod Sort
pub mod Ring
pub mod Splice
pub mod Parts
mod Tests
use inside_nginx.Base.{
  ℕ, zero, suc, ◌+◌, ◌-◌, ◌*◌, ◌/◌, ◌%◌, ◌^◌, ◌≤◌, ◌<◌, ◌≡◌, refl, sym, ap, ap₂, ◌∙◌, ◌≢◌, ◌↔◌, ◌⊎◌,
  inl, inr, Bool, true, false, not, ◌&&◌, ◌||◌, Option, none, some, List, [], ◌∷◌, ◌++◌, arith, ltb,
  leb, ◌==◌, if◌then◌else◌, Bool-cases, Option-cases, Rc, length, get_elem?, get_or, set, modify,
  replicate, All,
}
use inside_nginx.Base.Int.{
  ℤ, pos, negsuc, ◌+ℤ◌, ◌-ℤ◌, ◌≤ℤ◌, ◌<ℤ◌, int_laws, parts_of_eq, ltb_ℤ, leb_ℤ, pos_part, neg_part,
}
use inside_nginx.Base.Words.{add64, mul64, sub64, to_u64}

-- The fields of the ngx_queue_t at every address.
pub record Nodes : Type 0 where
  pub prev : ℕ → ℕ
  pub next : ℕ → ℕ

abbrev pub put_prev : ℕ → ℕ → Nodes → Nodes
put_prev p v s = record s { prev = λ a. if p == a then v else s.prev a }

abbrev pub put_next : ℕ → ℕ → Nodes → Nodes
put_next p v s = record s { next = λ a. if p == a then v else s.next a }

-- ngx_queue_init
unfoldable pub init_node : ℕ → Nodes → Nodes
init_node q s = put_next q q (put_prev q q s)

-- ngx_queue_empty
unfoldable pub is_empty : ℕ → Nodes → Bool
is_empty h s = h == s.prev h

-- ngx_queue_insert_head, which is also ngx_queue_insert_after
unfoldable pub insert_head : ℕ → ℕ → Nodes → Nodes
insert_head h x s =
    let s1 = put_next x (s.next h) s in
    let s2 = put_prev (s1.next x) x s1 in put_next h x (put_prev x h s2)

-- ngx_queue_insert_tail
unfoldable pub insert_tail : ℕ → ℕ → Nodes → Nodes
insert_tail h x s =
    let s1 = put_prev x (s.prev h) s in
    let s2 = put_next (s1.prev x) x s1 in put_prev h x (put_next x h s2)

-- ngx_queue_remove
unfoldable pub remove : ℕ → Nodes → Nodes
remove x s =
    let s1 = put_prev (s.next x) (s.prev x) s in
    let s2 = put_next (s1.prev x) (s1.next x) s1 in put_next x 0 (put_prev x 0 s2)

-- ngx_queue_split
unfoldable pub split : ℕ → ℕ → ℕ → Nodes → Nodes
split h q n s =
    let s1 = put_prev n (s.prev h) s in
    let s2 = put_next (s1.prev n) n s1 in
    let s3 = put_next n q s2 in
    let s4 = put_prev h (s3.prev q) s3 in let s5 = put_next (s4.prev h) h s4 in put_prev q n s5

-- ngx_queue_merge
unfoldable pub merge : ℕ → ℕ → Nodes → Nodes
merge h n s =
    let s1 = put_next (s.prev h) (s.next n) s in
    let s2 = put_prev (s1.next n) (s1.prev h) s1 in
    let s3 = put_prev h (s2.prev n) s2 in put_next (s3.prev h) h s3
