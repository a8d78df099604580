-- ===== src/Process/Spawn.antt =====
-- ngx_spawn_process: the slot of a new process, and what a failure leaves behind.
use inside_nginx.Base.{
  ℕ, ◌≤◌, ◌<◌, ◌≡◌, refl, sym, ap, ◌∙◌, ◌≢◌, ◌⊎◌, inl, inr, Bool, true, false, none, some, [], ◌∷◌,
  arith, Bool-cases, Option-cases,
}
use inside_nginx.Process.Slots.{put_other, put_self, first_free-bounds}
use inside_nginx.Process.{
  Channel, Process, Table, Respawn, Answers, process_norespawn, process_just_spawn, process_respawn,
  process_just_respawn, process_detached, at_slot, is_free, first_free, choose_slot, set_channel,
  open_pair, is_detached, no_channel, open_channel, configures, set_mode, register, register_new,
  spawn, max_processes,
}

-- A mode other than the slot of an earlier process.
abbrev pub is_new : Respawn → Bool
is_new (at_slot s) = false
is_new mode = true

choose_slot-is_new :
    (mode : Respawn) (t : Table) → is_new mode ≡ true → choose_slot mode t ≡ first_free t
unfolding choose_slot
choose_slot-is_new (at_slot s) t h = absurd (ground (arith, h))
choose_slot-is_new process_norespawn t h = refl
choose_slot-is_new process_just_spawn t h = refl
choose_slot-is_new process_respawn t h = refl
choose_slot-is_new process_just_respawn t h = refl
choose_slot-is_new process_detached t h = refl

register-is_new :
    (pid proc argument name : ℕ) (mode : Respawn) (s : ℕ) (t : Table)
    → is_new mode ≡ true
    → register pid proc argument name mode s t ≡ register_new pid proc argument name mode s t
unfolding register
register-is_new pid proc argument name (at_slot r) s t h = absurd (ground (arith, h))
register-is_new pid proc argument name process_norespawn s t h = refl
register-is_new pid proc argument name process_just_spawn s t h = refl
register-is_new pid proc argument name process_respawn s t h = refl
register-is_new pid proc argument name process_just_respawn s t h = refl
register-is_new pid proc argument name process_detached s t h = refl

-- The tables differ at most in the channel of the slot s.
pub record IsRewired (s : ℕ) (t t' : Table) : Type 0 where
  pub last : t'.last ≡ t.last
  pub others : (u : ℕ) → u ≢ s → t'.processes u ≡ t.processes u
  pub own : (c : Channel) × (t'.processes s ≡ record (t.processes s) { channel = c })

pub set_channel-IsRewired : (s : ℕ) (c : Channel) (t : Table) → IsRewired s t (set_channel s c t)
unfolding set_channel
set_channel-IsRewired s c t = record {
  last = refl;
  others = λ u h. put_other s u _ t.processes h;
  own = (c, put_self s _ t.processes);
}

open_pair-IsRewired : (a : Answers) (s : ℕ) (t : Table) → IsRewired s t (open_pair a s t).1.0
unfolding open_pair
open_pair-IsRewired a s t = elim (Option-cases a.pair) [
  | inl e ↦
      rw e (record { last = refl; others = λ u h. refl; own = ((t.processes s).channel, refl) })
  | inr ((x, y), e) ↦
      (let wired = set_channel-IsRewired s (record { first = some x; second = some y }) t in
        elim (Bool-cases (configures a)) [
          | inl k ↦
              rw (e, k, open_pair)
                (record { last = wired.last; others = wired.others; own = wired.own })
          | inr k ↦ rw (e, k, open_pair) wired
        ])
]

pub open_channel-IsRewired :
    (a : Answers) (mode : Respawn) (s : ℕ) (t : Table) → IsRewired s t (open_channel a mode s t).1.0
unfolding open_channel
open_channel-IsRewired a mode s t = elim (Bool-cases (is_detached mode)) [
  | inl d ↦ rw d (set_channel-IsRewired s no_channel t)
  | inr d ↦ rw d (open_pair-IsRewired a s t)
]

-- A pair of sockets that is not configured is closed.
open_pair-closed :
    (a : Answers) (s : ℕ) (t : Table) (x y : ℕ)
    → a.pair ≡ some (x, y)
    → (open_pair a s t).0 ≡ false
    → (open_pair a s t).1.1 ≡ record { first = some x; second = some y } ∷ []
unfolding open_pair
open_pair-closed a s t x y e h = elim (Bool-cases (configures a)) [
  | inl k ↦ absurd (let clash = rw (e, k, open_pair) at h in cc)
  | inr k ↦ rw (e, k, open_pair) refl
]

open_pair-opened :
    (a : Answers) (s : ℕ) (t : Table) (x y : ℕ)
    → a.pair ≡ some (x, y)
    → (open_pair a s t).0 ≡ true
    → ((open_pair a s t).1.1 ≡ [])
      × (((open_pair a s t).1.0.processes s).channel ≡ record { first = some x; second = some y })
unfolding open_pair set_channel
open_pair-opened a s t x y e h = elim (Bool-cases (configures a)) [
  | inl k ↦ rw (e, k, open_pair) (refl, ap (λ p. p.channel) (put_self s _ t.processes))
  | inr k ↦ absurd (let clash = rw (e, k, open_pair) at h in cc)
]

-- If ngx_spawn_process fails, it changes no process but for the channel of one slot, and the number
-- of slots stays.
spawn-IsRewired :
    (a : Answers) (proc argument name : ℕ) (mode : Respawn) (t : Table)
    → (spawn a proc argument name mode t).0 ≡ none
    → (s : ℕ) × IsRewired s t (spawn a proc argument name mode t).1.0
unfolding spawn
spawn-IsRewired a proc argument name mode t h = elim (Option-cases (choose_slot mode t)) [
  | inl e ↦
      rw (e, spawn)
        (0, record { last = refl; others = λ u k. refl; own = ((t.processes 0).channel, refl) })
  | inr (s, e) ↦ (
    s,
    (let wired = open_channel-IsRewired a mode s t in
        elim (Bool-cases (open_channel a mode s t).0) [
          | inr o ↦ rw (e, o, spawn) wired
          | inl o ↦ (elim (Option-cases a.fork) [
            | inl f ↦
                rw (e, o, f, spawn)
                  (record { last = wired.last; others = wired.others; own = wired.own })
            | inr (pid, f) ↦ absurd (let clash = rw (e, o, f, spawn) at h in cc)
          ])
        ]),
  )
]

open_channel-open_pair :
    (a : Answers) (mode : Respawn) (s : ℕ) (t : Table)
    → is_detached mode ≡ false
    → open_channel a mode s t ≡ open_pair a s t
unfolding open_channel
open_channel-open_pair a mode s t d = rw d refl

spawn-closed :
    (a : Answers) (proc argument name : ℕ) (mode : Respawn) (t : Table) (s x y : ℕ)
    → (spawn a proc argument name mode t).0 ≡ none
    → choose_slot mode t ≡ some s
    → is_detached mode ≡ false
    → a.pair ≡ some (x, y)
    → (spawn a proc argument name mode t).1.1 ≡ record { first = some x; second = some y } ∷ []
unfolding spawn
spawn-closed a proc argument name mode t s x y h e d p =
    let c = open_channel-open_pair a mode s t d in
    elim (Bool-cases (open_pair a s t).0) [
      | inr o ↦ rw (e, c, o, spawn) (open_pair-closed a s t x y p o)
      | inl o ↦ (elim (Option-cases a.fork) [
        | inl f ↦
            (let opened = open_pair-opened a s t x y p o in
              rw (e, c, o, f, spawn) (rw (c, opened.0, opened.1) refl))
        | inr (pid, f) ↦ absurd (let clash = rw (e, c, o, f, spawn) at h in cc)
      ])
    ]

-- If ngx_spawn_process fails, it leaves the number of slots and each process as they were, but for
-- the channel of at most one slot; and if it has found a slot for a process that is not detached and
-- socketpair has succeeded, both sockets of the pair have been handed to ngx_close_channel, once.
pub spawn-failed :
    (a : Answers) (proc argument name : ℕ) (mode : Respawn) (t : Table)
    → (spawn a proc argument name mode t).0 ≡ none
    → ((s : ℕ) × IsRewired s t (spawn a proc argument name mode t).1.0)
      × ((s x y : ℕ)
          → choose_slot mode t ≡ some s
          → is_detached mode ≡ false
          → a.pair ≡ some (x, y)
          → (spawn a proc argument name mode t).1.1
            ≡ record { first = some x; second = some y } ∷ [])
spawn-failed a proc argument name mode t h = (
  spawn-IsRewired a proc argument name mode t h,
  λ s x y e d p. spawn-closed a proc argument name mode t s x y h e d p,
)

set_mode-pid :
    (mode : Respawn) (p : Process)
    → ((set_mode mode p).pid ≡ p.pid)
      × ((set_mode mode p).exited ≡ p.exited)
      × ((set_mode mode p).exiting ≡ p.exiting)
unfolding set_mode
set_mode-pid process_norespawn p = (refl, refl, refl)
set_mode-pid process_just_spawn p = (refl, refl, refl)
set_mode-pid process_respawn p = (refl, refl, refl)
set_mode-pid process_just_respawn p = (refl, refl, refl)
set_mode-pid process_detached p = (refl, refl, refl)
set_mode-pid (at_slot s) p = (refl, refl, refl)

-- A new process stands in a slot that was free.
pub record IsPlaced (child : ℕ) (t t' : Table) : Type 0 where
  pub bound : t'.last ≤ max_processes
  pub below : t'.slot < t'.last
  pub free : (t'.slot ≡ t.last) ⊎ (is_free (t.processes t'.slot) ≡ true)
  pub pid : (t'.processes t'.slot).pid ≡ some child
  pub runs : (t'.processes t'.slot).exited ≡ false
  pub others : (u : ℕ) → u ≢ t'.slot → t'.processes u ≡ t.processes u

register_new-IsPlaced :
    (pid proc argument name : ℕ) (mode : Respawn) (s : ℕ) (t t' : Table)
    → IsRewired s t t'
    → (s < max_processes) × (s ≤ t.last) × ((s ≡ t.last) ⊎ (is_free (t.processes s) ≡ true))
    → t.last ≤ max_processes
    → IsPlaced pid t (register_new pid proc argument name mode s (record t' { slot = s }))
unfolding register_new
register_new-IsPlaced pid proc argument name mode s t t' wired place h = record {
  bound = ground (arith, wired.last, place.0, place.1, h);
  below = ground (arith, wired.last, place.0, place.1);
  free = place.2;
  pid = ap (λ p. p.pid) (put_self s _ t'.processes) ∙ (set_mode-pid mode _).0;
  runs = ap (λ p. p.exited) (put_self s _ t'.processes) ∙ (set_mode-pid mode _).1;
  others = λ u k. put_other s u _ t'.processes k ∙ wired.others u k;
}

-- A new process that ngx_spawn_process reports has been put into a slot that was free or had never
-- been used; the table has at most 1024 slots as before, and all other slots are unchanged.
pub spawn-IsPlaced :
    (a : Answers) (proc argument name pid : ℕ) (mode : Respawn) (t : Table)
    → is_new mode ≡ true
    → t.last ≤ max_processes
    → (spawn a proc argument name mode t).0 ≡ some pid
    → IsPlaced pid t (spawn a proc argument name mode t).1.0
unfolding spawn
spawn-IsPlaced a proc argument name pid mode t new h k = elim (Option-cases (choose_slot mode t)) [
  | inl e ↦ absurd (let clash = rw (e, spawn) at k in cc)
  | inr (s, e) ↦ (elim (Bool-cases (open_channel a mode s t).0) [
    | inr o ↦ absurd (let clash = rw (e, o, spawn) at k in cc)
    | inl o ↦ (elim (Option-cases a.fork) [
      | inl f ↦ absurd (let clash = rw (e, o, f, spawn) at k in cc)
      | inr (child, f) ↦
          (let same : child ≡ pid = (let at = rw (e, o, f, spawn) at k in cc) in
            let place = first_free-bounds t s h (sym (choose_slot-is_new mode t new) ∙ e) in
            rw (e, o, f, spawn)
              (rw (register-is_new child proc argument name mode s _ new, same)
                (register_new-IsPlaced pid proc argument name mode s t (open_channel a mode s t).1.0
                  (open_channel-IsRewired a mode s t) place h)))
    ])
  ])
]
