-- ===== src/Cycle/Zones/Names.antt =====
-- The names of shared memory zones: ngx_shared_memory_add and the search of a zone.
use inside_nginx.Base.{
  subst, ℕ, zero, suc, ◌+◌, ◌≡◌, refl, sym, ap, ◌∙◌, ◌⊎◌, inl, inr, Bool, true, false, not, ◌&&◌,
  Option, none, some, List, [], ◌∷◌, ◌++◌, arith, ◌==◌, if◌then◌else◌, Bool-cases, Option-cases,
  length, get_elem?, set, All,
}
use inside_nginx.Base.{same_name, same_name-eq, same_name_refl, All-append}
use mathlib.Core.List.{Memᴰ}
use inside_nginx.Cycle.Zones.{Zone, find_zone, new_zone, redeclare, shared_memory_add}

-- The zones have different names.
abbrev pub IsNamed : List Zone → Type 0
IsNamed [] = Unit
IsNamed (z ∷ zs) = All (λ d. same_name z.name d.name ≡ false) zs × IsNamed zs

pub find_zone-at :
    (name : List ℕ) (i : ℕ) (zs : List Zone) (j : ℕ) (z : Zone)
    → find_zone name i zs ≡ some (j, z)
    → (k : ℕ) × (j ≡ i + k) × (get_elem? zs k ≡ some z) × (same_name name z.name ≡ true)
unfolding find_zone
find_zone-at name i [] j z h = absurd (cc)
find_zone-at name i (d ∷ ds) j z h = elim (Bool-cases (same_name name d.name)) [
  | inl e ↦
      (let at : ◌≡◌ {A = Option (ℕ × Zone)} (some (i, d)) (some (j, z)) = rw e at h in
        let here : i ≡ j = cc in
        let same : d ≡ z = cc in (0, omega (arith, here), ap (λ x. some x) same, rw (sym same) e))
  | inr e ↦
      (let (k, place, at, named) = find_zone-at name (i + 1) ds j z (rw e at h) in
        (suc k, omega (arith, place), at, named))
]

pub find_zone-none :
    (name : List ℕ) (i : ℕ) (zs : List Zone)
    → find_zone name i zs ≡ none
    → All (λ z. same_name name z.name ≡ false) zs
unfolding find_zone
find_zone-none name i [] h = tt
find_zone-none name i (d ∷ ds) h = elim (Bool-cases (same_name name d.name)) [
  | inl e ↦ absurd (let clash = rw e at h in cc)
  | inr e ↦ (e, find_zone-none name (i + 1) ds (rw e at h))
]

pub Memᴰ-get_elem? : (zs : List Zone) (k : ℕ) (z : Zone) → get_elem? zs k ≡ some z → Memᴰ z zs
Memᴰ-get_elem? [] k z h = absurd (cc)
Memᴰ-get_elem? (d ∷ ds) zero z h = let same : d ≡ z = cc in Memᴰ.head (sym same)
Memᴰ-get_elem? (d ∷ ds) (suc k) z h = Memᴰ.tail (Memᴰ-get_elem? ds k z h)

pub find_zone-Memᴰ :
    (name : List ℕ) (i : ℕ) (zs : List Zone) (j : ℕ) (z : Zone)
    → find_zone name i zs ≡ some (j, z)
    → Memᴰ z zs × (name ≡ z.name)
find_zone-Memᴰ name i zs j z h =
    let (k, place, at, named) = find_zone-at name i zs j z h in
    (Memᴰ-get_elem? zs k z at, same_name-eq name z.name named)

pub All-Memᴰ : (P : Zone → Type 0) (zs : List Zone) (z : Zone) → All P zs → Memᴰ z zs → P z
All-Memᴰ P [] z h m = elim m [ ]
All-Memᴰ P (d ∷ ds) z h (Memᴰ.head e) = subst P (sym e) h.0
All-Memᴰ P (d ∷ ds) z h (Memᴰ.tail m) = All-Memᴰ P ds z h.1 m

pub same_name_sym : (xs ys : List ℕ) → same_name xs ys ≡ same_name ys xs
same_name_sym [] [] = refl
same_name_sym [] (y ∷ ys) = refl
same_name_sym (x ∷ xs) [] = refl
same_name_sym (x ∷ xs) (y ∷ ys) = ground (arith, same_name_sym xs ys)

-- Among zones with different names the search finds each of them.
pub find_zone-IsNamed :
    (i : ℕ) (zs : List Zone) (z : Zone)
    → IsNamed zs
    → Memᴰ z zs
    → (j : ℕ) × (find_zone z.name i zs ≡ some (j, z))
unfolding find_zone
find_zone-IsNamed i [] z h m = elim m [ ]
find_zone-IsNamed i (d ∷ ds) z h (Memᴰ.head e) =
    (i, rw e (let found = same_name_refl d.name in rw found refl))
find_zone-IsNamed i (d ∷ ds) z h (Memᴰ.tail m) =
    let other = All-Memᴰ (λ e. same_name d.name e.name ≡ false) ds z h.0 m in
    let (j, rest) = find_zone-IsNamed (i + 1) ds z h.1 m in
    (j, rw (same_name_sym z.name d.name ∙ other) rest)

IsNamed-append :
    (zs : List Zone) (z : Zone)
    → IsNamed zs
    → All (λ d. same_name z.name d.name ≡ false) zs
    → IsNamed (zs ++ z ∷ [])
IsNamed-append [] z h k = (tt, tt)
IsNamed-append (d ∷ ds) z h k = (
  All-append (λ e. same_name d.name e.name ≡ false) ds (z ∷ []) h.0
      (same_name_sym d.name z.name ∙ k.0, tt),
  IsNamed-append ds z h.1 k.1,
)

All-set_name :
    (name : List ℕ) (zs : List Zone) (i : ℕ) (z z' : Zone)
    → get_elem? zs i ≡ some z
    → z'.name ≡ z.name
    → All (λ d. same_name name d.name ≡ false) zs
    → All (λ d. same_name name d.name ≡ false) (set zs i z')
All-set_name name [] i z z' at e h = tt
All-set_name name (d ∷ ds) zero z z' at e h = let same : d ≡ z = cc in (rw (e, sym same) h.0, h.1)
All-set_name name (d ∷ ds) (suc i) z z' at e h = (h.0, All-set_name name ds i z z' at e h.1)

IsNamed-set :
    (zs : List Zone) (i : ℕ) (z z' : Zone)
    → get_elem? zs i ≡ some z
    → z'.name ≡ z.name
    → IsNamed zs
    → IsNamed (set zs i z')
IsNamed-set [] i z z' at e h = tt
IsNamed-set (d ∷ ds) zero z z' at e h = let same : d ≡ z = cc in (rw (e, sym same) h.0, h.1)
IsNamed-set (d ∷ ds) (suc i) z z' at e h =
    (All-set_name d.name ds i z z' at e h.0, IsNamed-set ds i z z' at e h.1)

get_elem?-set :
    (zs : List Zone) (i : ℕ) (z z' : Zone)
    → get_elem? zs i ≡ some z
    → get_elem? (set zs i z') i ≡ some z'
get_elem?-set [] i z z' h = absurd (cc)
get_elem?-set (d ∷ ds) zero z z' h = refl
get_elem?-set (d ∷ ds) (suc i) z z' h = get_elem?-set ds i z z' h

get_elem?-append_last : (zs : List Zone) (z : Zone) → get_elem? (zs ++ z ∷ []) (length zs) ≡ some z
get_elem?-append_last [] z = refl
get_elem?-append_last (d ∷ ds) z = get_elem?-append_last ds z

-- The zone that a declaration asks for.
abbrev pub IsDeclared : List ℕ → ℕ → ℕ → Zone → Type 0
IsDeclared name size tag z = (z.name ≡ name) × (z.tag ≡ tag) × ((size ≡ 0) ⊎ (z.size ≡ size))

-- A zone that keeps its name and its tag is written back.
set-IsDeclared :
    (size tag i : ℕ) (z sized : Zone) (zones : List Zone)
    → get_elem? zones i ≡ some z
    → IsNamed zones
    → sized.name ≡ z.name
    → sized.tag ≡ tag
    → let (got, zones') : Option ℕ × List Zone =
        if not (size == 0) && not (size == sized.size)
        then (none, set zones i sized)
        else (some i, set zones i sized) in
      IsNamed zones'
      × ((j : ℕ)
          → got ≡ some j
          → (z' : Zone) × (get_elem? zones' j ≡ some z') × IsDeclared z.name size tag z')
set-IsDeclared size tag i z sized zones at h named tagged =
    let kept = IsNamed-set zones i z sized at named h in
    elim (Bool-cases (not (size == 0) && not (size == sized.size))) [
      | inl e ↦ rw e (kept, λ j k. absurd (cc))
      | inr e ↦ rw e (
        kept,
        λ j k. (
          sized,
          (let same : i ≡ j = cc in rw (sym same) (get_elem?-set zones i z sized at)),
          (named, tagged, ground (arith, e)),
        ),
      )
    ]

redeclare-IsDeclared :
    (size tag i : ℕ) (z : Zone) (zones : List Zone)
    → get_elem? zones i ≡ some z
    → IsNamed zones
    → let (got, zones') = redeclare size tag i z zones in
      IsNamed zones'
      × ((j : ℕ)
          → got ≡ some j
          → (z' : Zone) × (get_elem? zones' j ≡ some z') × IsDeclared z.name size tag z')
unfolding redeclare
redeclare-IsDeclared size tag i z zones at h = elim (Bool-cases (tag == z.tag)) [
  | inr e ↦ rw e (h, λ j k. absurd (cc))
  | inl e ↦
      (let tagged : z.tag ≡ tag = ground (arith, e) in
        rw e (elim (Bool-cases (z.size == 0)) [
          | inl f ↦
              rw f (set-IsDeclared size tag i z (record z { size = size }) zones at h refl tagged)
          | inr f ↦ rw f (set-IsDeclared size tag i z z zones at h refl tagged)
        ]))
]

-- ngx_shared_memory_add keeps the names of the zones distinct, and a zone that it returns has the name
-- and the tag that were asked for, and the size unless that was 0.
pub shared_memory_add-IsDeclared :
    (pushes : Bool) (name : List ℕ) (size tag : ℕ) (zones : List Zone)
    → IsNamed zones
    → let (got, zones') = shared_memory_add pushes name size tag zones in
      IsNamed zones'
      × ((i : ℕ)
          → got ≡ some i
          → (z : Zone) × (get_elem? zones' i ≡ some z) × IsDeclared name size tag z)
unfolding shared_memory_add
shared_memory_add-IsDeclared pushes name size tag zones h =
    elim (Option-cases (find_zone name 0 zones)) [
      | inl e ↦ (elim (Bool-cases pushes) [
        | inr p ↦ rw (e, p, shared_memory_add) (h, λ i k. absurd (cc))
        | inl p ↦
            rw (e, p, shared_memory_add)
              (
                IsNamed-append zones (new_zone name size tag) h (find_zone-none name 0 zones e),
                λ i k. (
                  new_zone name size tag,
                  (let last : length zones ≡ i = cc in
                      rw (sym last) (get_elem?-append_last zones (new_zone name size tag))),
                  (refl, refl, inr refl),
                ),
              )
      ])
      | inr ((i, z), e) ↦
          (let (k, place, at, named) = find_zone-at name 0 zones i z e in
            let here : get_elem? zones i ≡ some z =
              subst (λ n. get_elem? zones n ≡ some z) (omega (arith, place)) at in
            rw (e, shared_memory_add)
              (rw (same_name-eq name z.name named)
                (redeclare-IsDeclared size tag i z zones here h)))
    ]
