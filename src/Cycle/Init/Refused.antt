-- ===== src/Cycle/Init/Refused.antt =====
-- ngx_init_cycle when it returns NULL: what it leaves of the new cycle and of the old one.
use inside_nginx.Base.{
  ℕ, ◌≤◌, ◌≡◌, refl, ap, ◌≢◌, inl, inr, false, some, List, [], ◌∷◌, arith, if◌then◌else◌,
  Bool-cases, All,
}
use inside_nginx.Base.{occurrences}
use inside_nginx.Cycle.Zones.{create_zones}
use inside_nginx.Cycle.Sockets.{Listening, inherit_sockets, close_opened}
use inside_nginx.Cycle.Sockets.Carried.{IsNew, close_opened-inherit_sockets}
use inside_nginx.Cycle.Files.{open_files, opened, close_files}
use inside_nginx.Cycle.Files.Balance.{IsFresh, close_files-IsFresh, close_files-open_files}
use inside_nginx.Cycle.Init.{
  Resources, CycleSteps, Result, refused, ready, exits, prepare, roll_back, commit, finish_sockets,
  finish_zones, finish_files, init_cycle, moves_pid,
}

-- The files are closed, the socket t is not, and the old cycle keeps all that it has.
abbrev pub IsUndone : ℕ → List ℕ → Result → Type 0
IsUndone t files r =
    (r.effects.closed_files ≡ files)
    × (occurrences t r.effects.closed_sockets ≡ 0)
    × (r.effects.freed ≡ [])
    × (r.effects.keeps_old ≡ false)

roll_back-IsUndone :
    (t : ℕ) (s : CycleSteps) (new old : Resources) (files : List ℕ)
    → close_files s.stderr new.files ≡ files
    → occurrences t (close_opened new.listening) ≡ 0
    → IsUndone t files (roll_back s new old)
unfolding roll_back
roll_back-IsUndone t s new old files h k = (h, ground (arith, k), refl, refl)

ready_clash : {P : Type 0} → ready ≡ refused → P
ready_clash h = absurd (cc)

exits_clash : {P : Type 0} → exits ≡ refused → P
exits_clash h = absurd (cc)

close_opened-IsNew : (ls : List Listening) → All IsNew ls → close_opened ls ≡ []
unfolding close_opened
close_opened-IsNew [] h = refl
close_opened-IsNew (l ∷ ls) h = rw (h.0.0, close_opened) (close_opened-IsNew ls h.1)

-- The code that opens the sockets does not open t.
abbrev pub IsLeft : ℕ → CycleSteps → Type 0
IsLeft t s =
    (ls : List Listening)
    → occurrences t (close_opened (s.open_sockets ls).1) ≤ occurrences t (close_opened ls)

finish_sockets-IsUndone :
    (t : ℕ) (s : CycleSteps) (new old : Resources) (files : List ℕ)
    → IsLeft t s
    → All IsNew new.listening
    → close_files s.stderr new.files ≡ files
    → (finish_sockets s new old).outcome ≡ refused
    → IsUndone t files (finish_sockets s new old)
unfolding finish_sockets roll_back commit
finish_sockets-IsUndone t s new old files left h k r =
    let inherited = (inherit_sockets s.same_address new.listening old.listening).0 in
    let olds = (inherit_sockets s.same_address new.listening old.listening).1 in
    elim (Bool-cases ((s.open_sockets inherited).0)) [
      | inr e ↦
          rw (finish_sockets, e)
            (roll_back-IsUndone t s (record new { listening = (s.open_sockets inherited).1 })
              (record old { listening = olds }) files k
              (let none_open : occurrences t (close_opened inherited) ≡ 0 =
                  ap (λ x. occurrences t x)
                    (close_opened-inherit_sockets s.same_address new.listening old.listening h) in
                omega (arith, left inherited, none_open)))
      | inl e ↦ elim (Bool-cases s.init_modules) [
        | inr f ↦ exits_clash (rw (finish_sockets, e, f) at r)
        | inl f ↦ ready_clash (rw (finish_sockets, e, f) at r)
      ]
    ]

finish_zones-IsUndone :
    (t : ℕ) (s : CycleSteps) (new old : Resources) (files : List ℕ)
    → IsLeft t s
    → All IsNew new.listening
    → close_files s.stderr new.files ≡ files
    → (finish_zones s new old).outcome ≡ refused
    → IsUndone t files (finish_zones s new old)
unfolding finish_zones
finish_zones-IsUndone t s new old files left h k r =
    let new' : Resources = record new {
      zones = (create_zones s.init s.memory old.zones 0 new.zones).1;
    } in
    elim (Bool-cases ((create_zones s.init s.memory old.zones 0 new.zones).0)) [
      | inl e ↦ rw e (finish_sockets-IsUndone t s new' old files left h k (rw e at r))
      | inr e ↦ rw e (
          roll_back-IsUndone t s new' old files k
            (ap (λ x. occurrences t x) (close_opened-IsNew new.listening h)))
    ]

finish_files-IsUndone :
    (t : ℕ) (s : CycleSteps) (new old : Resources)
    → IsLeft t s
    → All IsNew new.listening
    → All IsFresh new.files
    → ((j : ℕ) → s.opens j ≢ some s.stderr)
    → (finish_files s new old).outcome ≡ refused
    → IsUndone t (opened s.opens s.cloexec 0 new.files) (finish_files s new old)
unfolding finish_files
finish_files-IsUndone t s new old left h fresh other r =
    let new' : Resources = record new { files = (open_files s.opens s.cloexec 0 new.files).1 } in
    let files = opened s.opens s.cloexec 0 new.files in
    let closed = close_files-open_files s.stderr s.opens s.cloexec 0 new.files fresh other in
    elim (Bool-cases ((open_files s.opens s.cloexec 0 new.files).0)) [
      | inl e ↦ rw e (finish_zones-IsUndone t s new' old files left h closed (rw e at r))
      | inr e ↦ rw e (
          roll_back-IsUndone t s new' old files closed
            (ap (λ x. occurrences t x) (close_opened-IsNew new.listening h)))
    ]

-- When ngx_init_cycle returns NULL for a configuration whose files are not open and whose sockets are
-- new, it closes the files that it opened and no others (none when it fails before it opens any),
-- closes no socket that the code which opens sockets did not open, such as one of the old cycle, and
-- gives back no memory of the old cycle. The descriptors that it opens are not that of stderr.
pub init_cycle-IsUndone :
    (t : ℕ) (s : CycleSteps) (new old : Resources)
    → s.loaded ≡ some new
    → IsLeft t s
    → All IsNew new.listening
    → All IsFresh new.files
    → ((j : ℕ) → s.opens j ≢ some s.stderr)
    → (init_cycle s old).outcome ≡ refused
    → IsUndone t (if prepare s then opened s.opens s.cloexec 0 new.files else []) (init_cycle s old)
unfolding init_cycle prepare finish_files finish_zones roll_back finish_sockets moves_pid commit
init_cycle-IsUndone t s new old e left h fresh other r = elim (Bool-cases s.signaller) [
  | inl f ↦ ready_clash (rw (e, f) at r)
  | inr f ↦ elim (Bool-cases (prepare s)) [
    | inl g ↦
        rw (e, f, g) (finish_files-IsUndone t s new old left h fresh other (rw (e, f, g) at r))
    | inr g ↦
        rw (e, f, g)
          (roll_back-IsUndone t s new old [] (close_files-IsFresh s.stderr new.files fresh)
            (ap (λ x. occurrences t x) (close_opened-IsNew new.listening h)))
  ]
]
