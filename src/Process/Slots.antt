-- ===== src/Process/Slots.antt =====
-- ngx_process.c: the table as an array, and the search of a free slot.
use inside_nginx.Base.{
  ℕ, zero, suc, ◌+◌, ◌≤◌, ◌<◌, ◌≡◌, refl, sym, ◌≢◌, ◌⊎◌, inl, inr, true, false, some, arith, ◌==◌,
  Bool-cases,
}
use inside_nginx.Process.{Process, Table, put, is_free, find_free, first_free, max_processes}

pub put_other :
    (s u : ℕ) (p : Process) (processes : ℕ → Process) → u ≢ s → put s p processes u ≡ processes u
unfolding put
put_other s u p processes h = let other : (u == s) ≡ false = ground (arith, h) in rw other refl

pub put_self : (s : ℕ) (p : Process) (processes : ℕ → Process) → put s p processes s ≡ p
unfolding put
put_self s p processes = let self : (s == s) ≡ true = ground arith in rw self refl

find_free-bounds :
    (s n : ℕ) (processes : ℕ → Process)
    → (s ≤ find_free s n processes) × (find_free s n processes ≤ s + n)
unfolding find_free
find_free-bounds s zero processes = (omega arith, omega arith)
find_free-bounds s (suc n) processes = elim (Bool-cases (is_free (processes s))) [
  | inl e ↦ rw e (omega arith, omega arith)
  | inr e ↦
      (let rest = find_free-bounds (s + 1) n processes in
        rw e (omega (arith, rest.0), omega (arith, rest.1)))
]

find_free-is_free :
    (s n : ℕ) (processes : ℕ → Process)
    → (find_free s n processes ≡ s + n) ⊎ (is_free (processes (find_free s n processes)) ≡ true)
unfolding find_free
find_free-is_free s zero processes = inl (omega arith)
find_free-is_free s (suc n) processes = elim (Bool-cases (is_free (processes s))) [
  | inl e ↦ rw e (inr e)
  | inr e ↦ rw e (elim (find_free-is_free (s + 1) n processes) [
    | inl end ↦ inl (omega (arith, end))
    | inr free ↦ inr free
  ])
]

-- The slot that is found lies below 1024 and is free, or it is the first one that was never used.
pub first_free-bounds :
    (t : Table) (s : ℕ)
    → t.last ≤ max_processes
    → first_free t ≡ some s
    → (s < max_processes) × (s ≤ t.last) × ((s ≡ t.last) ⊎ (is_free (t.processes s) ≡ true))
unfolding first_free
first_free-bounds t s h e = elim (Bool-cases (find_free 0 t.last t.processes == max_processes)) [
  | inl k ↦ absurd (let clash = rw k at e in cc)
  | inr k ↦
      (let same : find_free 0 t.last t.processes ≡ s = (let at = rw (k, first_free) at e in cc) in
        let range = find_free-bounds 0 t.last t.processes in
        rw (sym same) (
          ground (arith, h, k, range.1),
          omega (arith, range.1),
          elim (find_free-is_free 0 t.last t.processes) [
            | inl end ↦ inl (omega (arith, end))
            | inr free ↦ inr free
          ],
        ))
]
