-- ===== src/Master/Reap/Steps.antt =====
-- ngx_reap_children: what one round of its loop does to the table of processes.
use inside_nginx.Base.{
  ℕ, ◌+◌, ◌≤◌, ◌≡◌, refl, sym, ap, ◌∙◌, ◌≢◌, ◌⊎◌, inl, inr, Bool, true, false, not, ◌||◌, Option,
  none, arith, ◌==◌, Bool-cases, Option-cases,
}
use inside_nginx.Process.{
  Channel, Process, Table, Answers, is_free, spawn, at_slot, choose_slot, open_channel, register,
  register_again,
}
use inside_nginx.Process.Slots.{put_other, put_self}
use inside_nginx.Process.Spawn.{set_channel-IsRewired, open_channel-IsRewired}
use inside_nginx.Process.Signals.{Flags}
use inside_nginx.Master.{Master}
use inside_nginx.Master.Reap.{
  Round, process_at, set_table, close_exited, spawn_again, same_pid, forget_binary, free_slot,
  drop_exited, respawns, reap_exited, reap_slot,
}

-- The slot u after the loop has passed it: free; or a process that has not exited, and then `live` is
-- set unless it is detached and not exiting; or a process that has exited and is to be spawned again,
-- and with the answers a the spawning in its slot returns NGX_INVALID_PID.
abbrev pub IsReaped : Answers → ℕ → Bool → Flags → Process → Type 0
IsReaped a u live f p =
    (is_free p ≡ true)
    ⊎ ((p.exited ≡ false) × ((live ≡ true) ⊎ ((p.exiting ≡ false) × (p.detached ≡ true))))
    ⊎ ((p.exited ≡ true)
        × (respawns f p ≡ true)
        × (t : Table) × ((spawn a p.proc p.argument p.name (at_slot u) t).0 ≡ none))

-- What a round for the slot i keeps.
pub record IsRound (a : Answers) (i : ℕ) (r r' : Round) : Type 0 where
  pub flags : r'.master.flags ≡ r.master.flags
  pub last : r'.master.table.last ≤ r.master.table.last
  pub live : r.live ≡ true → r'.live ≡ true
  pub others : (u : ℕ) → u ≢ i → process_at r' u ≡ process_at r u
  pub own : (r'.master.table.last ≤ i) ⊎ IsReaped a i r'.live r'.master.flags (process_at r' i)

-- What stays of a table when a process is spawned again in the slot s.
record IsAgain (s : ℕ) (pid : Option ℕ) (t t' : Table) : Type 0 where
  last : t'.last ≡ t.last
  others : (u : ℕ) → u ≢ s → t'.processes u ≡ t.processes u
  own :
      ((t'.processes s).exited ≡ false × (pid ≢ none))
      ⊎ ((pid ≡ none) × ((c : Channel) × (t'.processes s ≡ record (t.processes s) { channel = c })))

spawn-IsAgain :
    (a : Answers) (proc argument name s : ℕ) (t : Table)
    → IsAgain s
        (spawn a proc argument name (at_slot s) t).0
        t
        (spawn a proc argument name (at_slot s) t).1.0
unfolding spawn choose_slot register register_again process_at
spawn-IsAgain a proc argument name s t =
    let wired = open_channel-IsRewired a (at_slot s) s t in
    elim (Bool-cases (open_channel a (at_slot s) s t).0) [
      | inr o ↦
          rw (o, spawn)
            (record { last = wired.last; others = wired.others; own = inr (refl, wired.own) })
      | inl o ↦ (elim (Option-cases a.fork) [
        | inl f ↦
            rw (o, f, spawn)
              (record { last = wired.last; others = wired.others; own = inr (refl, wired.own) })
        | inr (pid, f) ↦
            rw (o, f, spawn)
              (record {
                last = wired.last;
                others = λ u h.
                    put_other s u _ (open_channel a (at_slot s) s t).1.0.processes h
                    ∙ wired.others u h;
                own = inl (
                  ap (λ p. p.exited) (put_self s _ (open_channel a (at_slot s) s t).1.0.processes),
                  λ e. cc,
                );
              })
      ])
    ]

respawns-channel :
    (f : Flags) (p : Process) (c : Channel) → respawns f (record p { channel = c }) ≡ respawns f p
unfolding respawns
respawns-channel f p c = refl

spawn_again-IsRound :
    (a : Answers) (i : ℕ) (r : Round)
    → (process_at r i).exited ≡ true
    → respawns r.master.flags (process_at r i) ≡ true
    → IsRound a i r (spawn_again a i r)
unfolding spawn_again process_at set_table
spawn_again-IsRound a i r x h =
    let p = process_at r i in
    let again = spawn-IsAgain a p.proc p.argument p.name i r.master.table in
    elim (Option-cases (spawn a p.proc p.argument p.name (at_slot i) r.master.table).0) [
      | inl e ↦
          rw (e, spawn_again)
            (record {
              flags = refl;
              last = omega (arith, again.last);
              live = λ l. l;
              others = again.others;
              own = elim again.own [
                | inl (runs, had) ↦ absurd (had e)
                | inr (failed, (c, own)) ↦ inr (
                    inr (
                      inr (
                        ap (λ q. q.exited) own ∙ x,
                        ap (λ q. respawns r.master.flags q) own
                            ∙ respawns-channel r.master.flags p c
                            ∙ h,
                        r.master.table,
                        ap (λ q. (spawn a q.proc q.argument q.name (at_slot i) r.master.table).0)
                              own
                            ∙ e,
                      )))
              ];
            })
      | inr (pid, e) ↦
          rw (e, spawn_again)
            (record {
              flags = refl;
              last = omega (arith, again.last);
              live = λ l. refl;
              others = again.others;
              own = elim again.own [
                | inl (runs, had) ↦ inr (inr (inl (runs, inl refl)))
                | inr (failed, kept) ↦ absurd (let clash = sym failed ∙ e in cc)
              ];
            })
    ]

free_slot-own :
    (i : ℕ) (t : Table)
    → ((free_slot i t).last ≤ i) ⊎ (is_free ((free_slot i t).processes i) ≡ true)
unfolding free_slot is_free
free_slot-own i t = elim (Bool-cases (i + 1 == t.last)) [
  | inl e ↦ rw e (inl (ground (arith, e)))
  | inr e ↦ rw e (inr (ap (λ p. is_free p) (put_self i _ t.processes)))
]

free_slot-rest :
    (i : ℕ) (t : Table)
    → ((free_slot i t).last ≤ t.last)
      × ((u : ℕ) → u ≢ i → (free_slot i t).processes u ≡ t.processes u)
unfolding free_slot
free_slot-rest i t = elim (Bool-cases (i + 1 == t.last)) [
  | inl e ↦ rw e (omega arith, λ u h. refl)
  | inr e ↦ rw e (omega arith, λ u h. put_other i u _ t.processes h)
]

forget_binary-rest :
    (pid : Option ℕ) (m : Master)
    → ((forget_binary pid m).flags ≡ m.flags) × ((forget_binary pid m).table ≡ m.table)
unfolding forget_binary
forget_binary-rest pid m = elim (Bool-cases (same_pid pid m.new_binary)) [
  | inr e ↦ rw e (refl, refl)
  | inl e ↦ (elim (Bool-cases m.noaccepting) [
    | inl n ↦ rw (e, n) (refl, refl)
    | inr n ↦ rw (e, n) (refl, refl)
  ])
]

drop_exited-IsRound : (a : Answers) (i : ℕ) (r : Round) → IsRound a i r (drop_exited i r)
unfolding drop_exited process_at
drop_exited-IsRound a i r =
    let kept = forget_binary-rest (process_at r i).pid r.master in
    let rest = free_slot-rest i r.master.table in
    record {
      flags = kept.0;
      last = rw (kept.1) rest.0;
      live = λ l. l;
      others = rw (kept.1) rest.1;
      own =
          rw (kept.1)
            (elim (free_slot-own i r.master.table) [ inl e ↦ inl e | inr e ↦ inr (inl e) ]);
    }

reap_exited-IsRound :
    (a : Answers) (i : ℕ) (r : Round)
    → (process_at r i).exited ≡ true
    → IsRound a i r (reap_exited a i r)
unfolding reap_exited
reap_exited-IsRound a i r x = elim (Bool-cases (respawns r.master.flags (process_at r i))) [
  | inl e ↦ rw e (spawn_again-IsRound a i r x e)
  | inr e ↦ rw e (drop_exited-IsRound a i r)
]

-- Closing the channel first makes no difference.
close_exited-IsRound :
    (a : Answers) (i : ℕ) (r r' : Round) → IsRound a i (close_exited i r) r' → IsRound a i r r'
unfolding close_exited process_at set_table
close_exited-IsRound a i r r' h =
    let wired = set_channel-IsRewired i (record { first = none; second = none }) r.master.table in
    record {
      flags = h.flags;
      last = omega (arith, h.last, wired.last);
      live = h.live;
      others = λ u k. h.others u k ∙ wired.others u k;
      own = h.own;
    }

close_exited-exited :
    (i : ℕ) (r : Round) → (process_at (close_exited i r) i).exited ≡ (process_at r i).exited
unfolding close_exited process_at set_table
close_exited-exited i r =
    let (c, own) =
      (set_channel-IsRewired i (record { first = none; second = none }) r.master.table).own in
    ap (λ p. p.exited) own

pub reap_slot-IsRound : (a : Answers) (i : ℕ) (r : Round) → IsRound a i r (reap_slot a i r)
unfolding reap_slot process_at
reap_slot-IsRound a i r = elim (Bool-cases (is_free (process_at r i))) [
  | inl e ↦
      rw (e, reap_slot)
        (record {
          flags = refl;
          last = omega arith;
          live = λ l. l;
          others = λ u h. refl;
          own = inr (inl e);
        })
  | inr e ↦ (elim (Bool-cases (process_at r i).exited) [
    | inl x ↦ (elim (Bool-cases (process_at r i).detached) [
      | inl d ↦ rw (e, x, d, reap_slot) (reap_exited-IsRound a i r x)
      | inr d ↦
          rw (e, x, d, reap_slot)
            (close_exited-IsRound a i r _
              (reap_exited-IsRound a i (close_exited i r) (close_exited-exited i r ∙ x)))
    ])
    | inr x ↦ (elim (Bool-cases ((process_at r i).exiting || not (process_at r i).detached)) [
      | inl d ↦
          rw (e, x, d, reap_slot)
            (record {
              flags = refl;
              last = omega arith;
              live = λ l. refl;
              others = λ u h. refl;
              own = inr (inr (inl (x, inl refl)));
            })
      | inr d ↦
          rw (e, x, d, reap_slot)
            (record {
              flags = refl;
              last = omega arith;
              live = λ l. l;
              others = λ u h. refl;
              own = inr (inr (inl (x, inr (ground (arith, d), ground (arith, d)))));
            })
    ])
  ])
]
