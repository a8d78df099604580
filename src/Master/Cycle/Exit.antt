-- ===== src/Master/Cycle/Exit.antt =====
-- ngx_master_process_cycle: when the master exits.
use inside_nginx.Base.{
  ℕ, ◌<◌, ◌≡◌, sym, ◌∙◌, ◌⊎◌, inl, inr, Bool, true, false, not, ◌&&◌, ◌||◌, arith, Bool-cases,
}
use inside_nginx.Process.{Process, Answers, is_free}
use inside_nginx.Process.Signals.{Flags}
use inside_nginx.Master.{Master}
use inside_nginx.Master.Reap.{respawns, reap_children}
use inside_nginx.Master.Reap.Reaped.{reap_children-IsReaped}
use inside_nginx.Master.Reap.Steps.{IsReaped}
use inside_nginx.Master.Cycle.{Outside, Loop, flags_of, reap_all, wake_up}

-- A slot that the master may leave behind.
abbrev pub IsLeft : Process → Type 0
IsLeft p = (is_free p ≡ true) ⊎ ((p.exited ≡ false) × (p.exiting ≡ false) × (p.detached ≡ true))

respawns-stopped : (f : Flags) (p : Process) → (f.terminate || f.quit) ≡ true → respawns f p ≡ false
unfolding respawns
respawns-stopped f p h = ground (arith, h)

IsReaped-IsLeft :
    (a : Answers) (u : ℕ) (f : Flags) (p : Process) (live : Bool)
    → live ≡ false
    → (f.terminate || f.quit) ≡ true
    → IsReaped a u live f p
    → IsLeft p
IsReaped-IsLeft a u f p live l h (inl e) = inl e
IsReaped-IsLeft a u f p live l h (inr (inl (x, inl e))) = absurd (let clash = sym l ∙ e in cc)
IsReaped-IsLeft a u f p live l h (inr (inl (x, inr d))) = inr (x, d.0, d.1)
IsReaped-IsLeft a u f p live l h (inr (inr e)) =
    absurd (let clash = sym (respawns-stopped f p h) ∙ e.1 in cc)

both : (a b : Bool) → (not a && b) ≡ true → (a ≡ false) × (b ≡ true)
both a b h = (ground (arith, h), ground (arith, h))

-- The state of the loop after the children are reaped.
reap_all-IsLeft :
    (o : Outside) (l : Loop) (u : ℕ)
    → (flags_of l).reap ≡ true
    → (not (reap_all o l).0.live
        && ((flags_of (reap_all o l).0).terminate || (flags_of (reap_all o l).0).quit))
      ≡ true
    → u < (reap_all o l).0.master.table.last
    → IsLeft ((reap_all o l).0.master.table.processes u)
unfolding reap_all
reap_all-IsLeft o l u h over used =
    let m : Master = record l.master { flags = record (flags_of l) { reap = false } } in
    let r = reap_children o.reaping m in
    let reaped = reap_children-IsReaped o.reaping m in
    let stopped =
      both r.live (r.master.flags.terminate || r.master.flags.quit) (rw (h, reap_all) at over) in
    let flags : (m.flags.terminate || m.flags.quit) ≡ true = rw reaped.0 at stopped.1 in
    let used' = rw (h, reap_all) at used in
    rw (h, reap_all)
      (IsReaped-IsLeft (o.reaping u) u m.flags (r.master.table.processes u) r.live stopped.0 flags
        (reaped.1 u used'))

-- If the master exits in a round in which it has reaped its children, then ngx_terminate or ngx_quit
-- is set, and no slot in use is left but of detached processes that are not exiting.
pub wake_up-over :
    (o : Outside) (l : Loop)
    → (flags_of l).reap ≡ true
    → (wake_up o l).over ≡ true
    → let l' = (wake_up o l).loop in
      (((flags_of l').terminate || (flags_of l').quit) ≡ true)
      × ((u : ℕ) → u < l'.master.table.last → IsLeft (l'.master.table.processes u))
unfolding wake_up
wake_up-over o l h over =
    let l1 = (reap_all o l).0 in
    elim (Bool-cases (not l1.live && ((flags_of l1).terminate || (flags_of l1).quit))) [
      | inr e ↦ absurd (let clash = rw (e, wake_up) at over in cc)
      | inl e ↦ rw (e, wake_up) (ground (arith, e), λ u used. reap_all-IsLeft o l u h e used)
    ]
