-- ===== src/Cycle/Zones/Created.antt =====
-- ngx_init_cycle: what the zones of the new cycle share with those of the old one.
use inside_nginx.Base.{
  ℕ, ◌+◌, ◌≡◌, refl, sym, ap, ◌∙◌, ◌≢◌, ◌⊎◌, inl, inr, Bool, true, false, not, ◌&&◌, Option, none,
  some, List, [], ◌∷◌, ◌==◌, Bool-cases, Option-cases, All,
}
use inside_nginx.Base.{same_name}
use mathlib.Core.List.{Memᴰ}
use inside_nginx.Cycle.Zones.{
  Zone, ZoneMemory, find_zone, same_use, init_zone_pool, run_init, alloc_zone, create_zone,
  create_zones,
}
use inside_nginx.Cycle.Zones.Names.{IsNamed}

-- The zones have different addresses.
abbrev pub IsSeparate : List Zone → Type 0
IsSeparate [] = Unit
IsSeparate (o ∷ os) = All (λ d. o.addr ≢ d.addr) os × IsSeparate os

-- The zones of the same name agree on `noreuse` with z.
abbrev pub IsAgreed : List Zone → Zone → Type 0
IsAgreed olds z = (o : Zone) → Memᴰ o olds → z.name ≡ o.name → z.noreuse ≡ o.noreuse

-- No memory that is allocated has the address of an old zone.
abbrev pub IsFreshMemory : (ℕ → ZoneMemory) → List Zone → Type 0
IsFreshMemory memory olds =
    (i addr : ℕ) (exists : Bool) (o : Zone)
    → (memory i).alloc ≡ some (addr, exists)
    → Memᴰ o olds
    → o.addr ≢ addr

abbrev pub IsReused : List Zone → Zone → Type 0
IsReused olds z =
    (n : ℕ) × (o : Zone) × (find_zone z.name 0 olds ≡ some (n, o))
    × (same_use z o && not z.noreuse ≡ true)
    × (z.addr ≡ o.addr)

abbrev pub IsAllocated : List Zone → ZoneMemory → Zone → Type 0
IsAllocated olds m z =
    (exists : Bool) × (m.alloc ≡ some (z.addr, exists))
    × ((n : ℕ) (o : Zone)
        → find_zone z.name 0 olds ≡ some (n, o)
        → same_use z o && not z.noreuse ≡ false)

-- What a zone keeps.
abbrev IsKept : Zone → Zone → Type 0
IsKept z z' = (z'.name ≡ z.name) × (z'.size ≡ z.size) × (z'.tag ≡ z.tag) × (z'.noreuse ≡ z.noreuse)

module _ (init : Zone → Option ℕ → Bool × Option ℕ) where
  run_init_lem :
      (z z' : Zone) (d : Option ℕ)
      → run_init init z d ≡ (true, z')
      → IsKept z z' × (z'.addr ≡ z.addr)
  unfolding run_init
  run_init_lem z z' d h =
      let same : record z { argument = (init z d).1 } ≡ z' = ap (λ p. p.1) h in
      (
        (
          ap (λ x. x.name) (sym same),
          ap (λ x. x.size) (sym same),
          ap (λ x. x.tag) (sym same),
          ap (λ x. x.noreuse) (sym same),
        ),
        ap (λ x. x.addr) (sym same),
      )

  alloc_zone_lem :
      (m : ZoneMemory) (z z' : Zone)
      → alloc_zone init m z ≡ (true, z')
      → IsKept z z' × (exists : Bool) × (m.alloc ≡ some (z'.addr, exists))
  unfolding alloc_zone
  alloc_zone_lem m z z' h = elim (Option-cases m.alloc) [
    | inl e ↦ absurd (let clash = rw e at h in cc)
    | inr ((addr, exists), e) ↦
        (let got : Zone = record z { addr = addr; exists = exists } in
          elim (Bool-cases (init_zone_pool m.sp_addr m.named m.locks got)) [
            | inr f ↦ absurd (let clash = rw (e, f) at h in cc)
            | inl f ↦
                (let (kept, at) = run_init_lem got z' none (rw (e, f) at h) in
                  (kept, exists, rw (e, at) refl))
          ])
  ]

  create_zone_lem :
      (m : ZoneMemory) (olds : List Zone) (z z' : Zone)
      → create_zone init m olds z ≡ (true, z')
      → IsKept z z' × (IsReused olds z' ⊎ IsAllocated olds m z')
  unfolding create_zone same_use
  create_zone_lem m olds z z' h = elim (Bool-cases (z.size == 0)) [
    | inl e ↦ absurd (let clash = rw e at h in cc)
    | inr e ↦ elim (Option-cases (find_zone z.name 0 olds)) [
      | inl f ↦
          (let (kept, exists, got) = alloc_zone_lem m z z' (rw (e, f) at h) in
            (kept, inr (exists, got, λ n o k. absurd (let k' = rw (kept.0, f) at k in cc))))
      | inr ((n, o), f) ↦ elim (Bool-cases (same_use z o && not z.noreuse)) [
        | inl g ↦
            (let (kept, at) =
                run_init_lem (record z { addr = o.addr }) z' o.argument
                  (rw (e, f, same_use, g) at h) in
              (kept, inl (n, o, rw kept.0 f, rw (kept.1, kept.2, kept.3) g, at)))
        | inr g ↦
            (let (kept, exists, got) = alloc_zone_lem m z z' (rw (e, f, same_use, g) at h) in
              (
                kept,
                inr (
                  exists,
                  got,
                  λ n' o' k.
                      let both : ◌≡◌ {A = Option (ℕ × Zone)} (some (n, o)) (some (n', o')) =
                        sym f ∙ rw kept.0 at k in
                      let same : o ≡ o' = cc in rw (sym same, kept.1, kept.2, kept.3) g,
                ),
              ))
      ]
    ]
  ]

  module _ (memory : ℕ → ZoneMemory) (olds : List Zone) where
    -- A zone of the new cycle.
    abbrev pub IsCreated : Zone → Type 0
    IsCreated z = IsAgreed olds z × (IsReused olds z ⊎ ((i : ℕ) × IsAllocated olds (memory i) z))

    pub create_zones-All :
        (i : ℕ) (zs : List Zone)
        → (create_zones init memory olds i zs).0 ≡ true
        → All (IsAgreed olds) zs
        → All IsCreated (create_zones init memory olds i zs).1
    unfolding create_zones
    create_zones-All i [] h k = tt
    create_zones-All i (z ∷ zs) h k =
        let z' = (create_zone init (memory i) olds z).1 in
        elim (Bool-cases ((create_zone init (memory i) olds z).0)) [
          | inr e ↦ absurd (let clash = rw e at h in cc)
          | inl e ↦
              (let (kept, made) = create_zone_lem (memory i) olds z z' (ap (λ b. (b, z')) e) in
                rw e (
                  (
                    λ o m n. kept.3 ∙ k.0 o m (sym kept.0 ∙ n),
                    elim made [ inl r ↦ inl r | inr a ↦ inr (i, a) ],
                  ),
                  create_zones-All (i + 1) zs (rw e at h) k.1,
                ))
        ]

    create_zones-other :
        (name : List ℕ) (i : ℕ) (zs : List Zone)
        → (create_zones init memory olds i zs).0 ≡ true
        → All (λ d. same_name name d.name ≡ false) zs
        → All (λ d. same_name name d.name ≡ false) (create_zones init memory olds i zs).1
    unfolding create_zones
    create_zones-other name i [] h k = tt
    create_zones-other name i (z ∷ zs) h k =
        let z' = (create_zone init (memory i) olds z).1 in
        elim (Bool-cases ((create_zone init (memory i) olds z).0)) [
          | inr e ↦ absurd (let clash = rw e at h in cc)
          | inl e ↦
              (let (kept, made) = create_zone_lem (memory i) olds z z' (ap (λ b. (b, z')) e) in
                rw e (rw kept.0 k.0, create_zones-other name (i + 1) zs (rw e at h) k.1))
        ]

    pub create_zones-IsNamed :
        (i : ℕ) (zs : List Zone)
        → (create_zones init memory olds i zs).0 ≡ true
        → IsNamed zs
        → IsNamed (create_zones init memory olds i zs).1
    unfolding create_zones
    create_zones-IsNamed i [] h k = tt
    create_zones-IsNamed i (z ∷ zs) h k =
        let z' = (create_zone init (memory i) olds z).1 in
        elim (Bool-cases ((create_zone init (memory i) olds z).0)) [
          | inr e ↦ absurd (let clash = rw e at h in cc)
          | inl e ↦
              (let (kept, made) = create_zone_lem (memory i) olds z z' (ap (λ b. (b, z')) e) in
                rw e (
                  rw kept.0 (create_zones-other z.name (i + 1) zs (rw e at h) k.0),
                  create_zones-IsNamed (i + 1) zs (rw e at h) k.1,
                ))
        ]
