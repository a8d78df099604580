-- ===== src/Chain/Pushed.antt =====
-- What ngx_list_push does to the elements of a list.
use inside_nginx.Base.{ℕ, zero, suc, ◌≤◌, ◌<◌, ◌≡◌, Bool, true, false, List, [], ◌∷◌, ◌++◌, All}
use inside_nginx.Base.Words.{add64, mul64}
use inside_nginx.Chain.{Part, Chain}

-- The addresses of the first n elements of a part.
abbrev pub part_addresses : ℕ → ℕ → ℕ → List ℕ
part_addresses elements size zero = []
part_addresses elements size (suc n) =
    part_addresses elements size n ++ add64 elements (mul64 size n) ∷ []

abbrev pub full_addresses : ℕ → List Part → List ℕ
full_addresses size [] = []
full_addresses size (p ∷ ps) = part_addresses p.elements size p.count ++ full_addresses size ps

-- The addresses of the elements, in the order of the iteration through the list.
abbrev pub addresses : Chain → List ℕ
addresses l = full_addresses l.size (l.full ++ l.last ∷ [])

-- The parts before the last one are full, and the last one has no more elements than fit.
abbrev pub IsFilled : Chain → Type 0
IsFilled l = (0 < l.capacity) × All (λ p. p.count ≡ l.capacity) l.full × (l.last.count ≤ l.capacity)

-- A part that is added is empty, and a list that does not grow stays as it is.
abbrev IsGrown : Chain → Bool → Chain → Type 0
IsGrown l good l' =
    (good ≡ false → l' ≡ l)
    × (good ≡ true
        → (addresses l' ≡ addresses l)
          × (l'.capacity ≡ l.capacity)
          × (l'.last.count ≡ 0)
          × All (λ p. p.count ≡ l.capacity) l'.full)
