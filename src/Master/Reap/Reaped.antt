-- ===== src/Master/Reap/Reaped.antt =====
-- ngx_reap_children: what it leaves in the table of processes.
use inside_nginx.Base.{
  ℕ, zero, suc, ◌+◌, ◌≤◌, ◌<◌, ◌≡◌, refl, ◌∙◌, ◌≢◌, inl, inr, Bool, true, arith, ltb, ◌==◌,
  Bool-cases,
}
use inside_nginx.Process.{Process, Answers}
use inside_nginx.Process.Signals.{Flags}
use inside_nginx.Master.{Master}
use inside_nginx.Master.Reap.{first_round, Round, process_at, reap_slot, reap_from, reap_children}
use inside_nginx.Master.Reap.Steps.{IsReaped, reap_slot-IsRound}

IsReaped-live :
    (a : Answers) (u : ℕ) (live live' : Bool) (f : Flags) (p : Process)
    → (live ≡ true → live' ≡ true)
    → IsReaped a u live f p
    → IsReaped a u live' f p
IsReaped-live a u live live' f p h (inl e) = inl e
IsReaped-live a u live live' f p h (inr (inl (x, inl l))) = inr (inl (x, inl (h l)))
IsReaped-live a u live live' f p h (inr (inl (x, inr d))) = inr (inl (x, inr d))
IsReaped-live a u live live' f p h (inr (inr e)) = inr (inr e)

-- The slots below i are reaped.
abbrev IsReapedTo : (ℕ → Answers) → ℕ → Round → Type 0
IsReapedTo answers i r =
    (u : ℕ)
    → u < i
    → u < r.master.table.last
    → IsReaped (answers u) u r.live r.master.flags (process_at r u)

reap_slot-IsReapedTo :
    (answers : ℕ → Answers) (i : ℕ) (r : Round)
    → IsReapedTo answers i r
    → IsReapedTo answers (i + 1) (reap_slot (answers i) i r)
reap_slot-IsReapedTo answers i r h u below used =
    let round = reap_slot-IsRound (answers i) i r in
    let r' = reap_slot (answers i) i r in
    elim (Bool-cases (u == i)) [
      | inl e ↦
          (let same : u ≡ i = ground (arith, e) in
            elim round.own [
              | inl last ↦ absurd (omega (arith, last, used, same))
              | inr reaped ↦ rw same reaped
            ])
      | inr e ↦
          (let other : u ≢ i = ground (arith, e) in
            let old = h u (omega (arith, below, other)) (omega (arith, used, round.last)) in
            rw (round.others u other, round.flags)
              (IsReaped-live (answers u) u r.live r'.live r.master.flags (process_at r u) round.live
                old))
    ]

reap_from-IsReapedTo :
    (answers : ℕ → Answers) (i n : ℕ) (r : Round)
    → r.master.table.last ≤ i + n
    → IsReapedTo answers i r
    → let r' = reap_from answers i n r in
      (r'.master.flags ≡ r.master.flags) × IsReapedTo answers r'.master.table.last r'
unfolding reap_from
reap_from-IsReapedTo answers i zero r l h =
    (refl, λ u below used. h u (omega (arith, l, used)) used)
reap_from-IsReapedTo answers i (suc n) r l h = elim (Bool-cases (ltb i r.master.table.last)) [
  | inl e ↦
      (let round = reap_slot-IsRound (answers i) i r in
        let rest =
          reap_from-IsReapedTo answers (i + 1) n (reap_slot (answers i) i r)
            (omega (arith, l, round.last)) (reap_slot-IsReapedTo answers i r h) in
        rw (e, reap_from) (rest.0 ∙ round.flags, rest.1))
  | inr e ↦ rw (e, reap_from) (refl, λ u below used. h u (ground (arith, e, used)) used)
]

-- After ngx_reap_children each slot in use is free; or its process has not exited, and then `live` is
-- returned unless the process is detached and not exiting; or its process has exited and is to be
-- spawned again, and with the answers for its slot ngx_spawn_process there returns NGX_INVALID_PID.
-- The flags of the signals are unchanged.
pub reap_children-IsReaped :
    (answers : ℕ → Answers) (m : Master)
    → let r = reap_children answers m in
      (r.master.flags ≡ m.flags)
      × ((u : ℕ)
          → u < r.master.table.last
          → IsReaped (answers u) u r.live m.flags (r.master.table.processes u))
unfolding reap_children process_at
reap_children-IsReaped answers m =
    let none_yet : IsReapedTo answers 0 (first_round m) =
      λ u below used. absurd (omega (arith, below)) in
    let all = reap_from-IsReapedTo answers 0 m.table.last (first_round m) (omega arith) none_yet in
    (all.0, λ u used. (let at = all.1 u used used in rw all.0 at at))
