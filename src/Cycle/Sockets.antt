-- ===== src/Cycle/Sockets.antt =====
-- ngx_cycle.c: the listening sockets that ngx_init_cycle takes over from the old cycle, opens and
-- closes.
--
-- Optional features of the system (deferred accept, accept filters, SO_REUSEPORT, the files of Unix
-- domain sockets) are left out. ngx_cmp_sockaddr is a parameter.
pub mod Carried
use inside_nginx.Base.{
  ℕ, zero, suc, ◌+◌, ◌-◌, ◌*◌, ◌/◌, ◌%◌, ◌^◌, ◌≤◌, ◌<◌, ◌≡◌, refl, sym, ap, ap₂, ◌∙◌, ◌≢◌, ◌↔◌, ◌⊎◌,
  inl, inr, Bool, true, false, not, ◌&&◌, ◌||◌, Option, none, some, List, [], ◌∷◌, ◌++◌, arith, ltb,
  leb, ◌==◌, if◌then◌else◌, Bool-cases, Option-cases, Rc, length, get_elem?, get_or, set, modify,
  replicate, All,
}
use inside_nginx.Base.Int.{
  ℤ, pos, negsuc, ◌+ℤ◌, ◌-ℤ◌, ◌≤ℤ◌, ◌<ℤ◌, int_laws, parts_of_eq, ltb_ℤ, leb_ℤ, pos_part, neg_part,
}
use inside_nginx.Base.Words.{add64, mul64, sub64, to_u64}

-- ngx_listening_t: `kind` is the field `type`, `address` stands for `sockaddr` and `socklen`, and
-- `previous` is a position in the old array, and `opens` is the field `open`. The descriptor -1 is
-- none.
pub record Listening : Type 0 where
  pub fd : Option ℕ
  pub kind : ℕ
  pub address : ℕ
  pub backlog : ℕ
  pub previous : Option ℕ
  pub ignore : Bool
  pub remain : Bool
  pub opens : Bool
  pub listen : Bool

-- `ls[i].remain = 0`
unfoldable pub clear_remain : List Listening → List Listening
clear_remain [] = []
clear_remain (l ∷ ls) = record l { remain = false } ∷ clear_remain ls

-- `if (nls[n].fd == -1) nls[n].open = 1`
unfoldable pub open_missing : Listening → Listening
open_missing n = elim n.fd [ none ↦ record n { opens = true } | some fd ↦ n ]

unfoldable pub mark_open : List Listening → List Listening
mark_open [] = []
mark_open (n ∷ ns) = record n { opens = true } ∷ mark_open ns

module _ (same_address : ℕ → ℕ → Bool) where
  -- An old socket that a new one can take over.
  unfoldable pub fits : Listening → Listening → Bool
  fits n l = not l.ignore && not l.remain && (l.kind == n.kind) && same_address n.address l.address

  abbrev pub take_over : Listening → ℕ → Listening → Listening
  take_over n i l = record n {
    fd = l.fd;
    previous = some i;
    listen = if l.backlog == n.backlog then n.listen else true;
  }

  -- The loop over the old sockets from position i on, for one new socket.
  unfoldable pub inherit_one : Listening → ℕ → List Listening → Listening × List Listening
  inherit_one n i [] = (n, [])
  inherit_one n i (l ∷ ls) =
      let (n', ls') = inherit_one n (i + 1) ls in
      if fits n l then (take_over n i l, record l { remain = true } ∷ ls) else (n', l ∷ ls')

  unfoldable pub inherit_all : List Listening → List Listening → List Listening × List Listening
  inherit_all [] olds = ([], olds)
  inherit_all (n ∷ ns) olds =
      let (n', olds') = inherit_one n 0 olds in
      let (ns', olds'') = inherit_all ns olds' in (open_missing n' ∷ ns', olds'')

  -- `handle the listening sockets`: the new and the old ones.
  unfoldable pub inherit_sockets : List Listening → List Listening → List Listening × List Listening
  inherit_sockets news [] = (mark_open news, [])
  inherit_sockets news (l ∷ ls) = inherit_all news (clear_remain (l ∷ ls))

-- `close the unnecessary listening sockets`: the descriptors that are closed.
unfoldable pub close_old : List Listening → List ℕ
close_old [] = []
close_old (l ∷ ls) =
    let rest = close_old ls in
    if l.remain then rest else elim l.fd [ none ↦ rest | some fd ↦ fd ∷ rest ]

-- The closing after a failure.
unfoldable pub close_opened : List Listening → List ℕ
close_opened [] = []
close_opened (l ∷ ls) =
    let rest = close_opened ls in
    elim l.fd [ none ↦ rest | some fd ↦ (if l.opens then fd ∷ rest else rest) ]
