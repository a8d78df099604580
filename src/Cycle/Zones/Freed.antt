-- ===== src/Cycle/Zones/Freed.antt =====
-- `free the unnecessary shared memory`: no memory in use is freed, and no memory is lost.
use inside_nginx.Base.{
  subst, ℕ, ◌≡◌, refl, sym, ap, ap₂, ◌∙◌, ◌≢◌, ◌⊎◌, inl, inr, Bool, true, false, not, ◌&&◌, Option,
  some, List, [], ◌∷◌, arith, Bool-cases, Option-cases, All,
}
use mathlib.Core.List.{Memᴰ}
use inside_nginx.Cycle.Zones.{
  Zone, ZoneMemory, find_zone, same_use, create_zones, is_freed, free_zones,
}
use inside_nginx.Cycle.Zones.Names.{IsNamed, find_zone-Memᴰ, find_zone-IsNamed, All-Memᴰ}
use inside_nginx.Cycle.Zones.Created.{
  IsSeparate, IsAgreed, IsFreshMemory, IsCreated, create_zones-All, create_zones-IsNamed,
}

same_use_sym : (z o : Zone) → same_use z o ≡ same_use o z
unfolding same_use
same_use_sym z o = ground arith

-- Two old zones at one address are one.
IsSeparate-eq :
    (os : List Zone) (o p : Zone) → IsSeparate os → Memᴰ o os → Memᴰ p os → o.addr ≡ p.addr → o ≡ p
IsSeparate-eq [] o p h m n e = elim m [ ]
IsSeparate-eq (d ∷ ds) o p h (Memᴰ.head a) (Memᴰ.head b) e = a ∙ sym b
IsSeparate-eq (d ∷ ds) o p h (Memᴰ.head a) (Memᴰ.tail n) e =
    absurd (All-Memᴰ (λ x. d.addr ≢ x.addr) ds p h.0 n (ap (λ x. x.addr) (sym a) ∙ e))
IsSeparate-eq (d ∷ ds) o p h (Memᴰ.tail m) (Memᴰ.head b) e =
    absurd (All-Memᴰ (λ x. d.addr ≢ x.addr) ds o h.0 m (ap (λ x. x.addr) (sym b) ∙ sym e))
IsSeparate-eq (d ∷ ds) o p h (Memᴰ.tail m) (Memᴰ.tail n) e = IsSeparate-eq ds o p h.1 m n e

find_zone-here :
    (zs : List Zone) (z : Zone)
    → IsNamed zs
    → Memᴰ z zs
    → (j : ℕ) × (find_zone z.name 0 zs ≡ some (j, z))
find_zone-here zs z h m = find_zone-IsNamed 0 zs z h m

Memᴰ-uncons : {x y : Zone} {ys : List Zone} → Memᴰ x (y ∷ ys) → (x ≡ y) ⊎ Memᴰ x ys
Memᴰ-uncons (Memᴰ.head e) = inl e
Memᴰ-uncons (Memᴰ.tail m) = inr m

free_zones-is_freed :
    (news olds : List Zone) (o : Zone) → Memᴰ o (free_zones news olds) → is_freed news o ≡ true
unfolding free_zones
free_zones-is_freed news [] o m = elim m [ ]
free_zones-is_freed news (d ∷ ds) o m = elim (Bool-cases (is_freed news d)) [
  | inr e ↦ free_zones-is_freed news ds o (rw e at m)
  | inl e ↦ elim (Memᴰ-uncons (rw e at m)) [
    | inl same ↦ rw same e
    | inr n ↦ free_zones-is_freed news ds o n
  ]
]

is_freed-free_zones :
    (news olds : List Zone) (o : Zone)
    → Memᴰ o olds
    → is_freed news o ≡ true
    → Memᴰ o (free_zones news olds)
unfolding free_zones
is_freed-free_zones news [] o m h = elim m [ ]
is_freed-free_zones news (d ∷ ds) o m h = elim (Bool-cases (is_freed news d)) [
  | inl e ↦ rw e (elim (Memᴰ-uncons m) [
    | inl same ↦ Memᴰ.head same
    | inr n ↦ Memᴰ.tail (is_freed-free_zones news ds o n h)
  ])
  | inr e ↦ rw e (elim (Memᴰ-uncons m) [
    | inl same ↦ absurd (let clash = rw (same, e) at h in cc)
    | inr n ↦ is_freed-free_zones news ds o n h
  ])
]

All-of : (P : Zone → Type 0) (zs : List Zone) → ((z : Zone) → Memᴰ z zs → P z) → All P zs
All-of P [] h = tt
All-of P (z ∷ zs) h = (h z (Memᴰ.head refl), All-of P zs (λ x m. h x (Memᴰ.tail m)))

-- The new zones are created from the old ones, and each list has its zones apart.
module _ (init : Zone → Option ℕ → Bool × Option ℕ) (memory : ℕ → ZoneMemory) (olds : List Zone)
    (old_names : IsNamed olds) (apart : IsSeparate olds) (fresh : IsFreshMemory memory olds) where
  -- A zone of the new cycle at the address of an old one has taken it over, and that keeps it.
  created-shares :
      (news : List Zone) (z o : Zone)
      → IsNamed news
      → Memᴰ z news
      → IsCreated init memory olds z
      → Memᴰ o olds
      → z.addr ≡ o.addr
      → is_freed news o ≡ false
  unfolding is_freed
  created-shares news z o named m made n e = elim made.1 [
    | inr (i, (exists, at, unused)) ↦ absurd (fresh i z.addr exists o at n (sym e))
    | inl (k, p, found, used, at) ↦
        (let (q, called) = find_zone-Memᴰ z.name 0 olds k p found in
          let same : p ≡ o = IsSeparate-eq olds p o apart q n (sym at ∙ e) in
          let name : z.name ≡ o.name = called ∙ ap (λ x. x.name) same in
          let agree : z.noreuse ≡ o.noreuse = made.0 o n name in
          let (j, here) = find_zone-here news z named m in
          let both : same_use o z && not o.noreuse ≡ true =
            ap₂ (λ a b. a && not b) (same_use_sym o z) (sym agree)
            ∙ subst (λ x. same_use z x && not z.noreuse ≡ true) same used in
          let there : find_zone o.name 0 news ≡ some (j, z) =
            subst (λ a. find_zone a 0 news ≡ some (j, z)) name here in
          rw (is_freed, there, both) refl)
  ]

  -- An old zone that is kept is in use.
  kept-IsShared :
      (news : List Zone) (o : Zone)
      → All (IsCreated init memory olds) news
      → Memᴰ o olds
      → is_freed news o ≡ false
      → (z : Zone) × Memᴰ z news × (z.addr ≡ o.addr)
  unfolding is_freed
  kept-IsShared news o made n h = elim (Option-cases (find_zone o.name 0 news)) [
    | inl e ↦ absurd (let clash = rw (is_freed, e) at h in cc)
    | inr ((k, z), e) ↦
        (let (m, called) = find_zone-Memᴰ o.name 0 news k z e in
          let good = All-Memᴰ (IsCreated init memory olds) news z made m in
          let agree : z.noreuse ≡ o.noreuse = good.0 o n (sym called) in
          let used : same_use z o && not z.noreuse ≡ true =
            ap₂ (λ a b. a && not b) (same_use_sym z o) agree
            ∙ (let h' = rw (is_freed, e) at h in ground (arith, h')) in
          let (j, here) = find_zone-here olds o old_names n in
          elim good.1 [
            | inr (i, (exists, at, unused)) ↦
                absurd (let clash = unused j o (rw (sym called) here) in cc)
            | inl (i, p, found, used', at) ↦
                (let both : ◌≡◌ {A = Option (ℕ × Zone)} (some (i, p)) (some (j, o)) =
                    sym found ∙ rw (sym called) here in
                  let same : p ≡ o = cc in (z, m, at ∙ ap (λ x. x.addr) same))
          ])
  ]

  -- When the zones of either list have different names, the old ones different addresses, no
  -- allocation returns the address of an old zone, and zones of one name agree on `noreuse`: once all
  -- zones of the new cycle are created, no new zone is at the address of an old zone that is freed,
  -- and each old zone is freed or a new zone is at its address.
  pub free_zones-create_zones :
      (news : List Zone)
      → IsNamed news
      → All (IsAgreed olds) news
      → let (good, zones) = create_zones init memory olds 0 news in
        good ≡ true
        → (o : Zone) → Memᴰ o olds
        → (Memᴰ o (free_zones zones olds) → All (λ z. z.addr ≢ o.addr) zones)
          × (Memᴰ o (free_zones zones olds) ⊎ ((z : Zone) × Memᴰ z zones × (z.addr ≡ o.addr)))
  free_zones-create_zones news named agreed good o n =
      let zones = (create_zones init memory olds 0 news).1 in
      let made = create_zones-All init memory olds 0 news good agreed in
      let named' = create_zones-IsNamed init memory olds 0 news good named in
      (
        λ m.
            All-of (λ z. z.addr ≢ o.addr) zones
              (λ z k e.
                let shares =
                  created-shares zones z o named' k
                    (All-Memᴰ (IsCreated init memory olds) zones z made k) n e in
                let freed = free_zones-is_freed zones olds o m in absurd (cc)),
        elim (Bool-cases (is_freed zones o)) [
          | inl e ↦ inl (is_freed-free_zones zones olds o n e)
          | inr e ↦ inr (kept-IsShared zones o made n e)
        ],
      )
