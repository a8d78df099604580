-- ===== src/Cycle/Sockets/Carried.antt =====
-- The listening sockets of the old cycle: each goes to one new socket or is closed.
use inside_nginx.Base.{
  ℕ, ◌+◌, ◌≡◌, refl, ◌∙◌, inl, inr, Bool, true, false, none, some, List, [], ◌∷◌, arith, ◌==◌,
  if◌then◌else◌, Bool-cases, Option-cases, All,
}
use inside_nginx.Base.{occurrences}
use inside_nginx.Cycle.Sockets.{
  Listening, clear_remain, fits, inherit_one, open_missing, inherit_all, mark_open, inherit_sockets,
  close_old, close_opened,
}

-- The descriptors of the sockets.
abbrev pub fds : List Listening → List ℕ
fds [] = []
fds (l ∷ ls) = let rest = fds ls in elim l.fd [ none ↦ rest | some fd ↦ fd ∷ rest ]

-- A new socket as the configuration makes it.
abbrev pub IsNew : Listening → Type 0
IsNew l = (l.fd ≡ none) × (l.opens ≡ false)

-- How often a socket has the descriptor.
abbrev one : ℕ → Listening → ℕ
one t l = elim l.fd [ none ↦ 0 | some fd ↦ (if fd == t then 1 else 0) ]

occurrences-fds :
    (t : ℕ) (l : Listening) (ls : List Listening)
    → occurrences t (fds (l ∷ ls)) ≡ one t l + occurrences t (fds ls)
occurrences-fds t l ls = elim (Option-cases l.fd) [
  | inl e ↦ rw e (omega arith)
  | inr (fd, e) ↦ rw e (omega arith)
]

occurrences-close_old :
    (t : ℕ) (l : Listening) (ls : List Listening)
    → occurrences t (close_old (l ∷ ls))
      ≡ (if l.remain then 0 else one t l) + occurrences t (close_old ls)
unfolding close_old
occurrences-close_old t l ls = elim (Bool-cases l.remain) [
  | inl r ↦ rw (r, close_old) (omega arith)
  | inr r ↦ (elim (Option-cases l.fd) [
    | inl e ↦ rw (r, e, close_old) (omega arith)
    | inr (fd, e) ↦ rw (r, e, close_old) (omega arith)
  ])
]

one-open_missing : (t : ℕ) (l : Listening) → one t (open_missing l) ≡ one t l
unfolding open_missing
one-open_missing t l = ground arith

close_opened_nil : close_opened [] ≡ []
unfolding close_opened
close_opened_nil = refl

close_old_nil : (t : ℕ) → occurrences t (close_old []) ≡ 0
unfolding close_old
close_old_nil t = refl

close_opened-open_missing :
    (l : Listening) (ls : List Listening)
    → l.opens ≡ false
    → close_opened (open_missing l ∷ ls) ≡ close_opened ls
unfolding close_opened open_missing
close_opened-open_missing l ls h = ground (arith, h)

fds-mark_open :
    (t : ℕ) (ns : List Listening) → All IsNew ns → occurrences t (fds (mark_open ns)) ≡ 0
unfolding mark_open
fds-mark_open t [] h = refl
fds-mark_open t (n ∷ ns) h = rw h.0.0 (fds-mark_open t ns h.1)

close_opened-mark_open : (ns : List Listening) → All IsNew ns → close_opened (mark_open ns) ≡ []
unfolding mark_open close_opened
close_opened-mark_open [] h = refl
close_opened-mark_open (n ∷ ns) h = rw (h.0.0, close_opened) (close_opened-mark_open ns h.1)

close_old-clear_remain :
    (t : ℕ) (ls : List Listening)
    → occurrences t (close_old (clear_remain ls)) ≡ occurrences t (fds ls)
unfolding clear_remain
close_old-clear_remain t [] = close_old_nil t
close_old-clear_remain t (l ∷ ls) = omega (
  arith,
  occurrences-close_old t (record l { remain = false }) (clear_remain ls),
  occurrences-fds t l ls,
  close_old-clear_remain t ls,
)

module _ (same_address : ℕ → ℕ → Bool) where
  fits-remain : (n l : Listening) → fits same_address n l ≡ true → l.remain ≡ false
  unfolding fits
  fits-remain n l h = ground (arith, h)

  inherit_one-occurrences :
      (t : ℕ) (n : Listening) (i : ℕ) (ls : List Listening)
      → n.fd ≡ none
      → let (n', ls') = inherit_one same_address n i ls in
        one t n' + occurrences t (close_old ls') ≡ occurrences t (close_old ls)
  unfolding inherit_one
  inherit_one-occurrences t n i [] h = rw h (omega arith)
  inherit_one-occurrences t n i (l ∷ ls) h = elim (Bool-cases (fits same_address n l)) [
    | inl e ↦
        rw (e, inherit_one)
          (let taken = fits-remain n l e in
            ground (
              arith,
              occurrences-close_old t l ls,
              occurrences-close_old t (record l { remain = true }) ls,
              taken,
            ))
    | inr e ↦
        rw (e, inherit_one)
          (omega (
            arith,
            occurrences-close_old t l ls,
            occurrences-close_old t l (inherit_one same_address n (i + 1) ls).1,
            inherit_one-occurrences t n (i + 1) ls h,
          ))
  ]

  inherit_all-occurrences :
      (t : ℕ) (ns ls : List Listening)
      → All IsNew ns
      → let (ns', ls') = inherit_all same_address ns ls in
        occurrences t (fds ns') + occurrences t (close_old ls') ≡ occurrences t (close_old ls)
  unfolding inherit_all
  inherit_all-occurrences t [] ls h = omega arith
  inherit_all-occurrences t (n ∷ ns) ls h =
      let first = inherit_one same_address n 0 ls in
      let rest = inherit_all same_address ns first.1 in
      omega (
        arith,
        occurrences-fds t (open_missing first.0) rest.0,
        one-open_missing t first.0,
        inherit_one-occurrences t n 0 ls h.0.0,
        inherit_all-occurrences t ns first.1 h.1,
      )

  inherit_one-opens :
      (n : Listening) (i : ℕ) (ls : List Listening)
      → (inherit_one same_address n i ls).0.opens ≡ n.opens
  unfolding inherit_one
  inherit_one-opens n i [] = refl
  inherit_one-opens n i (l ∷ ls) = elim (Bool-cases (fits same_address n l)) [
    | inl e ↦ rw (e, inherit_one) refl
    | inr e ↦ rw (e, inherit_one) (inherit_one-opens n (i + 1) ls)
  ]

  close_opened-inherit_all :
      (ns ls : List Listening) → All IsNew ns → close_opened (inherit_all same_address ns ls).0 ≡ []
  unfolding inherit_all
  close_opened-inherit_all [] ls h = close_opened_nil
  close_opened-inherit_all (n ∷ ns) ls h =
      let first = inherit_one same_address n 0 ls in
      close_opened-open_missing first.0 (inherit_all same_address ns first.1).0
        (inherit_one-opens n 0 ls ∙ h.0.1)
      ∙ close_opened-inherit_all ns first.1 h.1

  -- Each descriptor of a listening socket of the old cycle is as often in a new socket or among the
  -- ones that are closed at the end; so no socket that is taken over is closed or taken twice.
  pub inherit_sockets-balance :
      (t : ℕ) (news olds : List Listening)
      → All IsNew news
      → let (news', olds') = inherit_sockets same_address news olds in
        occurrences t (fds news') + occurrences t (close_old olds') ≡ occurrences t (fds olds)
  unfolding inherit_sockets
  inherit_sockets-balance t news [] h = omega (arith, fds-mark_open t news h, close_old_nil t)
  inherit_sockets-balance t news (l ∷ ls) h =
      inherit_all-occurrences t news (clear_remain (l ∷ ls)) h ∙ close_old-clear_remain t (l ∷ ls)

  -- Before the missing sockets are opened, a failure would close none.
  pub close_opened-inherit_sockets :
      (news olds : List Listening)
      → All IsNew news
      → close_opened (inherit_sockets same_address news olds).0 ≡ []
  unfolding inherit_sockets
  close_opened-inherit_sockets news [] h = close_opened-mark_open news h
  close_opened-inherit_sockets news (l ∷ ls) h =
      close_opened-inherit_all news (clear_remain (l ∷ ls)) h
