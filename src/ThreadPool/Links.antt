-- ===== src/ThreadPool/Links.antt =====
-- The linked queues of tasks: `first`, the address `last` of the last link, and `task->next`.
use inside_nginx.Base.{
  occurrences, ℕ, ◌≡◌, refl, sym, ap, true, false, Option, none, some, List, [], ◌∷◌, ◌++◌, arith,
  ◌==◌, if◌then◌else◌,
}

-- ngx_thread_pool_queue_t and the links of the tasks. `last` is the task whose `next` it points to,
-- or none where it points to `first`.
pub record Links : Type 0 where
  pub first : Option ℕ
  pub last : Option ℕ
  pub next : ℕ → Option ℕ

unfoldable pub set_next : ℕ → Option ℕ → (ℕ → Option ℕ) → ℕ → Option ℕ
set_next t o next u = if u == t then o else next u

-- ngx_thread_pool_queue_init
unfoldable pub init_queue : Links → Links
init_queue l = record l { first = none; last = none }

-- `task->next = NULL; *queue.last = task; queue.last = &task->next`
unfoldable pub append_task : ℕ → Links → Links
append_task t l =
    let ended = set_next t none l.next in
    elim l.last [
      | none ↦ record { first = some t; last = some t; next = ended }
      | some b ↦ record { first = l.first; last = some t; next = set_next b (some t) ended }
    ]

-- The removal of the first task in ngx_thread_pool_cycle; none where the queue is empty.
unfoldable pub remove_task : Links → Option (ℕ × Links)
remove_task l = elim l.first [
  | none ↦ none
  | some t ↦
      some
        (t, record l { first = l.next t; last = elim (l.next t) [ none ↦ none | some u ↦ l.last ] })
]

set_next_self : (t : ℕ) (o : Option ℕ) (next : ℕ → Option ℕ) → set_next t o next t ≡ o
unfolding set_next
set_next_self t o next = let self : (t == t) ≡ true = ground arith in rw self

-- From a link on, the tasks of a list follow, and then NULL.
abbrev pub IsChain : (ℕ → Option ℕ) → Option ℕ → List ℕ → Type 0
IsChain next o [] = o ≡ none
IsChain next o (x ∷ xs) = (o ≡ some x) × IsChain next (next x) xs

abbrev pub IsDistinct : List ℕ → Type 0
IsDistinct [] = Unit
IsDistinct (x ∷ xs) = (occurrences x xs ≡ 0) × IsDistinct xs

abbrev pub last_or : ℕ → List ℕ → ℕ
last_or x [] = x
last_or x (y ∷ ys) = last_or y ys

abbrev pub last_of : List ℕ → Option ℕ
last_of [] = none
last_of (x ∷ xs) = some (last_or x xs)

-- The links hold the tasks of the list, in this order.
pub record IsLinked (l : Links) (xs : List ℕ) : Type 0 where
  pub chain : IsChain l.next l.first xs
  pub end : l.last ≡ last_of xs
  pub distinct : IsDistinct xs

IsChain-set_next :
    (next : ℕ → Option ℕ) (t : ℕ) (v o : Option ℕ) (xs : List ℕ)
    → occurrences t xs ≡ 0
    → IsChain next o xs
    → IsChain (set_next t v next) o xs
unfolding set_next
IsChain-set_next next t v o [] f h = h
IsChain-set_next next t v o (x ∷ xs) f h =
    let other : (x == t) ≡ false = ground (arith, f) in
    let rest : occurrences t xs ≡ 0 = ground (arith, f) in
    (h.0, rw other (IsChain-set_next next t v (next x) xs rest h.1))

not_last : (x y : ℕ) (ys : List ℕ) → occurrences x (y ∷ ys) ≡ 0 → (x == last_or y ys) ≡ false
not_last x y [] h = ground (arith, h)
not_last x y (z ∷ zs) h = not_last x z zs (ground (arith, h))

-- The last task links to a new one.
IsChain-append :
    (next : ℕ → Option ℕ) (t : ℕ) (o : Option ℕ) (x : ℕ) (xs : List ℕ)
    → IsDistinct (x ∷ xs)
    → occurrences t (x ∷ xs) ≡ 0
    → IsChain next o (x ∷ xs)
    → IsChain (set_next (last_or x xs) (some t) (set_next t none next)) o (x ∷ (xs ++ t ∷ []))
unfolding set_next
IsChain-append next t o x [] d f h =
    let self : (x == x) ≡ true = ground arith in
    let other : (t == x) ≡ false = ground (arith, f) in
    let new : (t == t) ≡ true = ground arith in (h.0, (rw self refl, rw (other, new) refl))
IsChain-append next t o x (y ∷ ys) d f h =
    let inner : (x == last_or y ys) ≡ false = not_last x y ys d.0 in
    let other : (x == t) ≡ false = ground (arith, f) in
    let rest : occurrences t (y ∷ ys) ≡ 0 = ground (arith, f) in
    (h.0, rw (inner, other) (IsChain-append next t (next x) y ys d.1 rest h.1))

last_or-append : (x : ℕ) (xs : List ℕ) (t : ℕ) → last_or x (xs ++ t ∷ []) ≡ t
last_or-append x [] t = refl
last_or-append x (y ∷ ys) t = last_or-append y ys t

occurrences-append_one :
    (x t : ℕ) (xs : List ℕ)
    → (x == t) ≡ false
    → occurrences x xs ≡ 0
    → occurrences x (xs ++ t ∷ []) ≡ 0
occurrences-append_one x t [] e h = ground (arith, e)
occurrences-append_one x t (y ∷ ys) e h = ground (arith, e, h, occurrences-append_one x t ys e)

IsDistinct-append :
    (xs : List ℕ) (t : ℕ) → IsDistinct xs → occurrences t xs ≡ 0 → IsDistinct (xs ++ t ∷ [])
IsDistinct-append [] t d f = (refl, tt)
IsDistinct-append (x ∷ xs) t d f =
    let other : (x == t) ≡ false = ground (arith, f) in
    let rest : occurrences t xs ≡ 0 = ground (arith, f) in
    (occurrences-append_one x t xs other d.0, IsDistinct-append xs t d.1 rest)

-- Putting a task into a linked queue that does not hold it appends it to the list of tasks.
pub append_task-IsLinked :
    (t : ℕ) (l : Links) (xs : List ℕ)
    → occurrences t xs ≡ 0
    → IsLinked l xs
    → IsLinked (append_task t l) (xs ++ t ∷ [])
unfolding append_task
append_task-IsLinked t l [] f h =
    rw h.end
      (record { chain = (refl, set_next_self t none l.next); end = refl; distinct = (refl, tt) })
append_task-IsLinked t l (x ∷ xs) f h = rw h.end (record {
  chain = IsChain-append l.next t l.first x xs h.distinct f h.chain;
  end = ap (λ r. some r) (sym (last_or-append x xs t));
  distinct = IsDistinct-append (x ∷ xs) t h.distinct f;
})

-- Taking a task out of a linked queue that is not empty yields the first task of its list and leaves a
-- linked queue of the others.
pub remove_task-IsLinked :
    (l : Links) (x : ℕ) (xs : List ℕ)
    → IsLinked l (x ∷ xs)
    → (l' : Links) × (remove_task l ≡ some (x, l')) × IsLinked l' xs
unfolding remove_task
remove_task-IsLinked l x [] h =
    let f = h.chain.0 in
    let n = h.chain.1 in
    (
      record l { first = none; last = none },
      rw (f, n, remove_task) refl,
      record { chain = refl; end = refl; distinct = tt },
    )
remove_task-IsLinked l x (y ∷ ys) h =
    let f = h.chain.0 in
    let n = h.chain.1.0 in
    (
      record l { first = some y },
      rw (f, n, remove_task) refl,
      record { chain = (refl, h.chain.1.1); end = h.end; distinct = h.distinct.1 },
    )
