-- ===== src/Cycle/Files.antt =====
-- ngx_cycle.c: the open files of a cycle, and ngx_reopen_files.
--
-- What a pass over the files opens and closes comes with its result, as lists of descriptors. The
-- answers of the system are records by the position of the file.
pub mod Balance
use inside_nginx.Base.{
  ℕ, zero, suc, ◌+◌, ◌-◌, ◌*◌, ◌/◌, ◌%◌, ◌^◌, ◌≤◌, ◌<◌, ◌≡◌, refl, sym, ap, ap₂, ◌∙◌, ◌≢◌, ◌↔◌, ◌⊎◌,
  inl, inr, Bool, true, false, not, ◌&&◌, ◌||◌, Option, none, some, List, [], ◌∷◌, ◌++◌, arith, ltb,
  leb, ◌==◌, if◌then◌else◌, Bool-cases, Option-cases, Rc, length, get_elem?, get_or, set, modify,
  replicate, All,
}
use inside_nginx.Base.Int.{
  ℤ, pos, negsuc, ◌+ℤ◌, ◌-ℤ◌, ◌≤ℤ◌, ◌<ℤ◌, int_laws, parts_of_eq, ltb_ℤ, leb_ℤ, pos_part, neg_part,
}
use inside_nginx.Base.Words.{add64, mul64, sub64, to_u64}

-- ngx_open_file_t; NGX_INVALID_FILE is none.
pub record File : Type 0 where
  pub name : List ℕ
  pub fd : Option ℕ

unfoldable pub is_nameless : File → Bool
is_nameless f = elim f.name [ [] ↦ true | c ∷ cs ↦ false ]

-- `open the new files`: whether all could be opened, and the files. `opens` is what ngx_open_file
-- returns and `cloexec` whether fcntl succeeds, by the position of the file.
unfoldable pub open_files : (ℕ → Option ℕ) → (ℕ → Bool) → ℕ → List File → Bool × List File
open_files opens cloexec i [] = (true, [])
open_files opens cloexec i (f ∷ fs) =
    let (all, fs') = open_files opens cloexec (i + 1) fs in
    if is_nameless f then (all, f ∷ fs') else elim (opens i) [
      | none ↦ (false, record f { fd = none } ∷ fs)
      | some fd ↦
          (if cloexec i
            then (all, record f { fd = some fd } ∷ fs')
            else (false, record f { fd = some fd } ∷ fs))
    ]

-- The descriptors that are opened, in the order of the calls.
unfoldable pub opened : (ℕ → Option ℕ) → (ℕ → Bool) → ℕ → List File → List ℕ
opened opens cloexec i [] = []
opened opens cloexec i (f ∷ fs) =
    let rest = opened opens cloexec (i + 1) fs in
    if is_nameless f
    then rest
    else elim (opens i) [ none ↦ [] | some fd ↦ (if cloexec i then fd ∷ rest else fd ∷ []) ]

-- `file[i].fd == NGX_INVALID_FILE || file[i].fd == ngx_stderr`
unfoldable pub stays_open : ℕ → File → Bool
stays_open stderr f = elim f.fd [ none ↦ true | some fd ↦ fd == stderr ]

abbrev pub fd_of : File → List ℕ
fd_of f = elim f.fd [ none ↦ [] | some fd ↦ fd ∷ [] ]

-- The closing of the files of an old cycle, and of a new one after a failure.
unfoldable pub close_files : ℕ → List File → List ℕ
close_files stderr [] = []
close_files stderr (f ∷ fs) =
    let rest = close_files stderr fs in if stays_open stderr f then rest else fd_of f ++ rest

-- What the system answers while a file is reopened: ngx_open_file, ngx_file_info with the owner and
-- the two permissions, chown, chmod and fcntl.
pub record Reopening : Type 0 where
  pub fd : Option ℕ
  pub info : Option (ℕ × Bool)
  pub chown : Bool
  pub chmod : Bool
  pub cloexec : Bool

-- `if (user != NGX_CONF_UNSET_UINT) { ... }`: whether the new file is taken so far. `user` is none
-- for NGX_CONF_UNSET_UINT.
unfoldable pub adopts : Option ℕ → Reopening → Bool
adopts none a = true
adopts (some user) a = elim a.info [
  | none ↦ false
  | some (uid, readable) ↦ (if not (uid == user) && not a.chown then false else readable || a.chmod)
]

-- One round of ngx_reopen_files: the file, and the descriptors that are opened and closed.
unfoldable pub reopen_file : Option ℕ → Reopening → File → File × (List ℕ × List ℕ)
reopen_file user a f = if is_nameless f then (f, ([], [])) else elim a.fd [
  | none ↦ (f, ([], []))
  | some fd ↦
      (if adopts user a && a.cloexec
        then (record f { fd = some fd }, (fd ∷ [], fd_of f))
        else (f, (fd ∷ [], fd ∷ [])))
]

-- ngx_reopen_files
unfoldable pub reopen_files :
    Option ℕ → (ℕ → Reopening) → ℕ → List File → List File × (List ℕ × List ℕ)
reopen_files user answers i [] = ([], ([], []))
reopen_files user answers i (f ∷ fs) =
    let (f', (new, gone)) = reopen_file user (answers i) f in
    let (fs', (news, gones)) = reopen_files user answers (i + 1) fs in
    (f' ∷ fs', (new ++ news, gone ++ gones))
