-- ===== src/Cycle/Files/Balance.antt =====
-- ngx_reopen_files and the opening of files: no descriptor is lost.
use inside_nginx.Base.{
  ℕ, ◌+◌, ◌≡◌, refl, ap, ◌∙◌, ◌≢◌, inl, inr, Bool, false, ◌&&◌, Option, none, some, List, [], ◌∷◌,
  ◌++◌, arith, ◌==◌, Bool-cases, Option-cases, All,
}
use inside_nginx.Base.{occurrences, occurrences-append}
use inside_nginx.Cycle.Files.{
  File, Reopening, is_nameless, open_files, opened, stays_open, fd_of, close_files, adopts,
  reopen_file, reopen_files,
}

-- The descriptors of the files.
abbrev pub fds : List File → List ℕ
fds [] = []
fds (f ∷ fs) = fd_of f ++ fds fs

reopen_file-balance :
    (t : ℕ) (user : Option ℕ) (a : Reopening) (f : File)
    → let (f', (new, gone)) = reopen_file user a f in
      occurrences t (fd_of f) + occurrences t new ≡ occurrences t (fd_of f') + occurrences t gone
unfolding reopen_file
reopen_file-balance t user a f = elim (Bool-cases (is_nameless f)) [
  | inl e ↦ rw e refl
  | inr e ↦ (elim (Option-cases a.fd) [
    | inl n ↦ rw (e, n, reopen_file) refl
    | inr (fd, n) ↦ (elim (Bool-cases (adopts user a && a.cloexec)) [
      | inl k ↦ rw (e, n, k, reopen_file) (omega arith)
      | inr k ↦ rw (e, n, k, reopen_file) refl
    ])
  ])
]

-- Whatever fails, each descriptor is as often among the files before and the ones that
-- ngx_reopen_files opens as it is among the files afterwards and the ones that it closes.
pub reopen_files-balance :
    (t : ℕ) (user : Option ℕ) (answers : ℕ → Reopening) (i : ℕ) (fs : List File)
    → let (fs', (new, gone)) = reopen_files user answers i fs in
      occurrences t (fds fs) + occurrences t new ≡ occurrences t (fds fs') + occurrences t gone
unfolding reopen_files
reopen_files-balance t user answers i [] = refl
reopen_files-balance t user answers i (f ∷ fs) =
    let one = reopen_file user (answers i) f in
    let rest = reopen_files user answers (i + 1) fs in
    omega (
      arith,
      occurrences-append t (fd_of f) (fds fs),
      occurrences-append t (fd_of one.0) (fds rest.0),
      occurrences-append t one.1.0 rest.1.0,
      occurrences-append t one.1.1 rest.1.1,
      reopen_file-balance t user (answers i) f,
      reopen_files-balance t user answers (i + 1) fs,
    )

-- A file that has no descriptor yet.
abbrev pub IsFresh : File → Type 0
IsFresh f = f.fd ≡ none

pub close_files-IsFresh :
    (stderr : ℕ) (fs : List File) → All IsFresh fs → close_files stderr fs ≡ []
unfolding close_files stays_open
close_files-IsFresh stderr [] h = refl
close_files-IsFresh stderr (f ∷ fs) h = rw (h.0, close_files) (close_files-IsFresh stderr fs h.1)

not_stderr : (stderr fd : ℕ) → fd ≢ stderr → (fd == stderr) ≡ false
not_stderr stderr fd h = ground (arith, h)

-- The files that are open after the opening, or after its failure, are the ones that were opened.
pub close_files-open_files :
    (stderr : ℕ) (opens : ℕ → Option ℕ) (cloexec : ℕ → Bool) (i : ℕ) (fs : List File)
    → All IsFresh fs
    → ((j : ℕ) → opens j ≢ some stderr)
    → close_files stderr (open_files opens cloexec i fs).1 ≡ opened opens cloexec i fs
unfolding close_files open_files opened stays_open
close_files-open_files stderr opens cloexec i [] h other = refl
close_files-open_files stderr opens cloexec i (f ∷ fs) h other = elim (Bool-cases (is_nameless f)) [
  | inl e ↦
      rw (e, h.0, open_files, opened, close_files)
        (close_files-open_files stderr opens cloexec (i + 1) fs h.1 other)
  | inr e ↦ (elim (Option-cases (opens i)) [
    | inl n ↦ rw (e, n, open_files, opened, close_files) (close_files-IsFresh stderr fs h.1)
    | inr (fd, n) ↦
        (let no_stderr : (fd == stderr) ≡ false =
            not_stderr stderr fd (λ same. other i (n ∙ ap (λ k. some k) same)) in
          elim (Bool-cases (cloexec i)) [
            | inl k ↦
                rw (e, n, k, no_stderr, open_files, opened, close_files)
                  (ap (λ r. fd ∷ r)
                    (close_files-open_files stderr opens cloexec (i + 1) fs h.1 other))
            | inr k ↦
                rw (e, n, k, no_stderr, open_files, opened, close_files)
                  (ap (λ r. fd ∷ r) (close_files-IsFresh stderr fs h.1))
          ])
  ])
]
