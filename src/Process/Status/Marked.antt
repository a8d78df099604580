-- ===== src/Process/Status/Marked.antt =====
-- ngx_process_get_status: which processes are marked as exited.
use inside_nginx.Base.{
  ℕ, zero, suc, ◌+◌, ◌≤◌, ◌<◌, ◌≡◌, refl, sym, ap, ap₂, ◌∙◌, ◌≢◌, inl, inr, Bool, true, false, ◌&&◌,
  ◌||◌, List, [], ◌∷◌, arith, ltb, ◌==◌, Bool-cases,
}
use inside_nginx.Process.{Process, Table}
use inside_nginx.Process.Slots.{put_other, put_self}
use inside_nginx.Process.Status.{
  Waited, exits, none_yet, interrupted, no_child, fails, has_pid, find_pid, mark_at, drop_respawn,
  mark, get_status,
}

-- No two slots in use have the same pid.
abbrev pub IsDistinct : Table → Type 0
IsDistinct t =
    (n i j : ℕ)
    → i < t.last
    → j < t.last
    → has_pid n (t.processes i) ≡ true
    → has_pid n (t.processes j) ≡ true
    → i ≡ j

-- The pids that waitpid returns before the result that ends the loop.
unfoldable pub reported : List Waited → List ℕ
reported [] = []
reported (exits pid status ∷ ws) = pid ∷ reported ws
reported (interrupted ∷ ws) = reported ws
reported (w ∷ ws) = []

unfoldable pub has_one_of : List ℕ → Process → Bool
has_one_of [] p = false
has_one_of (n ∷ ns) p = has_pid n p || has_one_of ns p

find_pid-has_pid :
    (pid i n : ℕ) (processes : ℕ → Process)
    → find_pid pid i n processes < i + n
    → has_pid pid (processes (find_pid pid i n processes)) ≡ true
unfolding find_pid
find_pid-has_pid pid i zero processes h = absurd (omega (arith, h))
find_pid-has_pid pid i (suc n) processes h = elim (Bool-cases (has_pid pid (processes i))) [
  | inl e ↦ rw e e
  | inr e ↦
      (let less = rw e at h in
        rw e (find_pid-has_pid pid (i + 1) n processes (omega (arith, less))))
]

find_pid-first :
    (pid i n j : ℕ) (processes : ℕ → Process)
    → i ≤ j
    → j < i + n
    → has_pid pid (processes j) ≡ true
    → find_pid pid i n processes ≤ j
unfolding find_pid
find_pid-first pid i zero j processes l h e = omega (arith, l, h)
find_pid-first pid i (suc n) j processes l h e = elim (Bool-cases (has_pid pid (processes i))) [
  | inl k ↦ rw k l
  | inr k ↦
      (let other : i ≢ j =
          λ same. (let clash = rw (sym same) at e in absurd (let bad = rw k at clash in cc)) in
        rw k
          (find_pid-first pid (i + 1) n j processes (omega (arith, l, other)) (omega (arith, h)) e))
]

drop_respawn-fields :
    (i code u : ℕ) (processes : ℕ → Process)
    → ((drop_respawn i code processes u).exited ≡ (processes u).exited)
      × ((drop_respawn i code processes u).pid ≡ (processes u).pid)
unfolding drop_respawn
drop_respawn-fields i code u processes = elim (Bool-cases ((code == 2) && (processes i).respawn)) [
  | inr e ↦ rw e (refl, refl)
  | inl e ↦ (elim (Bool-cases (u == i)) [
    | inl k ↦
        (let same : u ≡ i = ground (arith, k) in
          let at = put_self i (record (processes i) { respawn = false }) processes in
          rw (e, same, at) (refl, refl))
    | inr k ↦
        (let other : u ≢ i = ground (arith, k) in
          let at = put_other i u (record (processes i) { respawn = false }) processes other in
          rw (e, at) (refl, refl))
  ])
]

mark_at-pid : (i status : ℕ) (t : Table) (u : ℕ) → (mark_at i status t u).pid ≡ (t.processes u).pid
unfolding mark_at
mark_at-pid i status t u = elim (Bool-cases (ltb i t.last)) [
  | inr e ↦ rw e refl
  | inl e ↦ (elim (Bool-cases (u == i)) [
    | inl k ↦
        (let same : u ≡ i = ground (arith, k) in
          let at =
            put_self i (record (t.processes i) { status = status; exited = true }) t.processes in
          rw (e, same, at) refl)
    | inr k ↦
        (let other : u ≢ i = ground (arith, k) in
          let at =
            put_other i u (record (t.processes i) { status = status; exited = true }) t.processes
              other in
          rw (e, at) refl)
  ])
]

mark_at-exited :
    (i status : ℕ) (t : Table) (u : ℕ)
    → (mark_at i status t u).exited ≡ ((t.processes u).exited || (ltb i t.last && (u == i)))
unfolding mark_at
mark_at-exited i status t u = elim (Bool-cases (ltb i t.last)) [
  | inr e ↦ rw e (ground arith)
  | inl e ↦ (elim (Bool-cases (u == i)) [
    | inl k ↦
        (let same : u ≡ i = ground (arith, k) in
          let at =
            put_self i (record (t.processes i) { status = status; exited = true }) t.processes in
          rw (e, same, at) (ground arith))
    | inr k ↦
        (let other : u ≢ i = ground (arith, k) in
          let at =
            put_other i u (record (t.processes i) { status = status; exited = true }) t.processes
              other in
          rw (e, k, at) (ground arith))
  ])
]

-- Where a pid is found.
found :
    (pid : ℕ) (t : Table) (u : ℕ)
    → IsDistinct t
    → u < t.last
    → (ltb (find_pid pid 0 t.last t.processes) t.last && (u == find_pid pid 0 t.last t.processes))
      ≡ has_pid pid (t.processes u)
found pid t u d h = elim (Bool-cases (has_pid pid (t.processes u))) [
  | inl e ↦
      (let i = find_pid pid 0 t.last t.processes in
        let up_to : i ≤ u =
          find_pid-first pid 0 t.last u t.processes (omega arith) (omega (arith, h)) e in
        let range : i < t.last = omega (arith, up_to, h) in
        let at = find_pid-has_pid pid 0 t.last t.processes (omega (arith, range)) in
        let same = d pid i u range h at e in ground (arith, range, same, e))
  | inr e ↦ elim (Bool-cases (ltb (find_pid pid 0 t.last t.processes) t.last)) [
    | inr k ↦ rw k (sym e)
    | inl k ↦ (elim (Bool-cases (u == find_pid pid 0 t.last t.processes)) [
      | inr o ↦ rw (k, o) (sym e)
      | inl o ↦
          (let range : find_pid pid 0 t.last t.processes < 0 + t.last = ground (arith, k) in
            let at = find_pid-has_pid pid 0 t.last t.processes range in
            let same : find_pid pid 0 t.last t.processes ≡ u = ground (arith, o) in
            absurd (let clash = rw same at at in cc))
    ])
  ]
]

has_pid_cong : (n : ℕ) (p q : Process) → p.pid ≡ q.pid → has_pid n p ≡ has_pid n q
unfolding has_pid
has_pid_cong n p q e = rw e refl

has_one_of_cong : (ns : List ℕ) (p q : Process) → p.pid ≡ q.pid → has_one_of ns p ≡ has_one_of ns q
unfolding has_one_of
has_one_of_cong [] p q e = refl
has_one_of_cong (n ∷ ns) p q e =
    ap₂ (λ a b. a || b) (has_pid_cong n p q e) (has_one_of_cong ns p q e)

or_assoc : (a b c : Bool) → ((a || b) || c) ≡ (a || (b || c))
or_assoc true b c = refl
or_assoc false b c = refl

or_false : (a : Bool) → a ≡ (a || false)
or_false true = refl
or_false false = refl

module _ (exit_code : ℕ → ℕ) where
  mark-pid :
      (pid status : ℕ) (t : Table) (u : ℕ)
      → ((mark exit_code pid status t).processes u).pid ≡ (t.processes u).pid
  unfolding mark
  mark-pid pid status t u =
      let i = find_pid pid 0 t.last t.processes in
      (drop_respawn-fields i (exit_code status) u (mark_at i status t)).1 ∙ mark_at-pid i status t u

  mark-exited :
      (pid status : ℕ) (t : Table) (u : ℕ)
      → IsDistinct t
      → u < t.last
      → ((mark exit_code pid status t).processes u).exited
        ≡ ((t.processes u).exited || has_pid pid (t.processes u))
  unfolding mark
  mark-exited pid status t u d h =
      let i = find_pid pid 0 t.last t.processes in
      (drop_respawn-fields i (exit_code status) u (mark_at i status t)).0
      ∙ mark_at-exited i status t u
      ∙ ap (λ b. (t.processes u).exited || b) (found pid t u d h)

  mark-last : (pid status : ℕ) (t : Table) → (mark exit_code pid status t).last ≡ t.last
  unfolding mark
  mark-last pid status t = refl

  mark-IsDistinct :
      (pid status : ℕ) (t : Table) → IsDistinct t → IsDistinct (mark exit_code pid status t)
  mark-IsDistinct pid status t d n i j hi hj ei ej =
      let end = mark-last pid status t in
      d n i j (omega (arith, hi, end)) (omega (arith, hj, end))
        (sym (has_pid_cong n _ (t.processes i) (mark-pid pid status t i)) ∙ ei)
        (sym (has_pid_cong n _ (t.processes j) (mark-pid pid status t j)) ∙ ej)

  -- With distinct pids, ngx_process_get_status marks a process in use as exited exactly if it was
  -- marked before or waitpid reports its pid before the loop ends; it changes no pid.
  pub get_status-exited :
      (ws : List Waited) (t : Table) (u : ℕ)
      → IsDistinct t
      → u < t.last
      → (((get_status exit_code ws t).0.processes u).exited
          ≡ ((t.processes u).exited || has_one_of (reported ws) (t.processes u)))
        × (((get_status exit_code ws t).0.processes u).pid ≡ (t.processes u).pid)
  unfolding get_status reported has_one_of
  get_status-exited [] t u d h = (or_false (t.processes u).exited, refl)
  get_status-exited (exits pid status ∷ ws) t u d h =
      let t' = mark exit_code pid status t in
      let same = mark-pid pid status t u in
      let rest =
        get_status-exited ws t' u (mark-IsDistinct pid status t d)
          (omega (arith, h, mark-last pid status t)) in
      (
        rest.0
            ∙ ap₂ (λ a b. a || b) (mark-exited pid status t u d h)
                (has_one_of_cong (reported ws) (t'.processes u) (t.processes u) same)
            ∙ or_assoc (t.processes u).exited (has_pid pid (t.processes u))
                (has_one_of (reported ws) (t.processes u)),
        rest.1 ∙ same,
      )
  get_status-exited (interrupted ∷ ws) t u d h = get_status-exited ws t u d h
  get_status-exited (none_yet ∷ ws) t u d h = (or_false (t.processes u).exited, refl)
  get_status-exited (no_child ∷ ws) t u d h = (or_false (t.processes u).exited, refl)
  get_status-exited (fails ∷ ws) t u d h = (or_false (t.processes u).exited, refl)
