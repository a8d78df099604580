-- ===== src/Timer.antt =====
-- ngx_event_timer.c and ngx_event_timer.h: the timers of events, in a red-black tree by the time at
-- which they expire.
--
-- An event is the address of its timer node. The current time in milliseconds and the handlers of
-- events are parameters. The loops run on fuel; running out is none, as is a fault of the tree.
pub mod Wait
mod Tests
use inside_nginx.Base.{
  ℕ, zero, suc, ◌+◌, ◌-◌, ◌*◌, ◌/◌, ◌%◌, ◌^◌, ◌≤◌, ◌<◌, ◌≡◌, refl, sym, ap, ap₂, ◌∙◌, ◌≢◌, ◌↔◌, ◌⊎◌,
  inl, inr, Bool, true, false, not, ◌&&◌, ◌||◌, Option, none, some, List, [], ◌∷◌, ◌++◌, arith, ltb,
  leb, ◌==◌, if◌then◌else◌, Bool-cases, Option-cases, Rc, length, get_elem?, get_or, set, modify,
  replicate, All,
}
use inside_nginx.Base.Int.{
  ℤ, pos, negsuc, ◌+ℤ◌, ◌-ℤ◌, ◌≤ℤ◌, ◌<ℤ◌, int_laws, parts_of_eq, ltb_ℤ, leb_ℤ, pos_part, neg_part,
}
use inside_nginx.Base.Words.{add64, mul64, sub64, to_u64}
use inside_nginx.RbTree.{RedBlack, read, ◌>>=◌, update_at, init_tree}
use inside_nginx.RbTree.Walk.{tree_min, tree_next}
use inside_nginx.RbTree.Insert.{tree_insert, timer_less}
use inside_nginx.RbTree.Delete.{tree_delete}

-- The tree of the timers and the flags of the event at every address.
pub record Timers : Type 0 where
  pub tree : RedBlack
  pub timer_set : ℕ → Bool
  pub timedout : ℕ → Bool
  pub cancelable : ℕ → Bool

-- NGX_TIMER_INFINITE
abbrev pub timer_infinite : ℕ
timer_infinite = 2 ^ 64 - 1

-- NGX_TIMER_LAZY_DELAY
abbrev pub lazy_delay : ℕ
lazy_delay = 300

-- ngx_event_timer_init
unfoldable pub init_timers : ℕ → Timers → Option Timers
init_timers sentinel s = do tree ← init_tree sentinel s.tree; some (record s { tree = tree })

-- `(ngx_msec_int_t) d > 0`
unfoldable pub is_positive : ℕ → Bool
is_positive d = ltb 0 d && ltb d (2 ^ 63)

-- ngx_event_find_timer
unfoldable pub find_timer : ℕ → ℕ → Timers → Option ℕ
find_timer fuel now s = if s.tree.root == s.tree.sentinel then some timer_infinite else do
  node ← tree_min fuel s.tree.root s.tree
  key ← read s.tree.key node
  let timer = sub64 key now
  some (if is_positive timer then timer else 0)

-- ngx_event_del_timer
unfoldable pub del_timer : ℕ → ℕ → Timers → Option Timers
del_timer fuel ev s = do
  tree ← tree_delete fuel ev s.tree
  some (record s { tree = tree; timer_set = update_at ev false s.timer_set })

-- `ngx_abs(diff) < NGX_TIMER_LAZY_DELAY`
unfoldable pub is_lazy : ℕ → Bool
is_lazy diff = ltb diff lazy_delay || ltb (2 ^ 64 - diff) lazy_delay

-- ngx_event_add_timer
unfoldable pub add_timer : ℕ → ℕ → ℕ → ℕ → Timers → Option Timers
add_timer fuel now ev timer s =
    let key = add64 now timer in
    if s.timer_set ev && is_lazy (sub64 key (s.tree.key ev)) then some s else do
      s1 ← if s.timer_set ev then del_timer fuel ev s else some s
      let keyed : RedBlack = record s1.tree { key = update_at ev key s1.tree.key }
      tree ← tree_insert timer_less fuel ev keyed
      some (record s1 { tree = tree; timer_set = update_at ev true s1.timer_set })

-- ngx_event_expire_timers; `now` is ngx_current_msec in the state that the handlers leave.
unfoldable pub expire_timers : (Timers → ℕ) → (ℕ → Timers → Timers) → ℕ → ℕ → Timers → Option Timers
expire_timers now handler fuel zero s = none
expire_timers now handler fuel (suc rounds) s =
    if s.tree.root == s.tree.sentinel then some s else do
      node ← tree_min fuel s.tree.root s.tree
      key ← read s.tree.key node
      if is_positive (sub64 key (now s)) then some s else do
        s1 ← del_timer fuel node s
        expire_timers now handler fuel rounds
            (handler node (record s1 { timedout = update_at node true s1.timedout }))

-- The loop of ngx_event_no_timers_left: whether all events from the node on are cancelable.
unfoldable pub all_cancelable : ℕ → ℕ → ℕ → Timers → Option Bool
all_cancelable fuel zero node s = none
all_cancelable fuel (suc rounds) node s =
    if node == 0
    then some true
    else if not (s.cancelable node)
    then some false
    else do following ← tree_next fuel node s.tree; all_cancelable fuel rounds following s

-- ngx_event_no_timers_left: NGX_OK or NGX_AGAIN.
unfoldable pub no_timers_left : ℕ → ℕ → Timers → Option Bool
no_timers_left fuel rounds s =
    if s.tree.root == s.tree.sentinel
    then some true
    else do node ← tree_min fuel s.tree.root s.tree; all_cancelable fuel rounds node s
