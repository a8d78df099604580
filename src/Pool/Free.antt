-- ===== src/Pool/Free.antt =====
-- ngx_pfree: which large allocations it finds.
use inside_nginx.Base.{
  declined, declined, ℕ, ◌≡◌, refl, ◌↔◌, inl, inr, false, Option, none, some, List, [], ◌∷◌, arith,
  Bool-cases, All,
}
use mathlib.Core.Option
use inside_nginx.Pool.{Large, Pool, System, forget, pfree, end_pfree, holds}

map-none_iff :
    (l : Large) (o : Option (List Large)) → (Option.map (λ r. l ∷ r) o ≡ none) ↔ (o ≡ none)
map-none_iff l none = ((λ h. refl), λ h. refl)
map-none_iff l (some r) = ((λ h. cc), λ h. cc)

forget-none_iff :
    (p : ℕ) (ls : List Large) → (forget p ls ≡ none) ↔ All (λ l. holds p l.alloc ≡ false) ls
unfolding forget
forget-none_iff p [] = ((λ h. tt), λ h. refl)
forget-none_iff p (l ∷ ls) =
    let rest = forget-none_iff p ls in
    let same = map-none_iff l (forget p ls) in
    elim (Bool-cases (holds p l.alloc)) [
      | inl e ↦ rw e ((λ h. cc), λ h. absurd (ground (arith, h.0)))
      | inr e ↦ rw e ((λ h. (refl, rest.0 (same.0 h))), λ h. same.1 (rest.1 h.1))
    ]

ended-declined_iff :
    (p : Pool) (a : ℕ) (s : System) (o : Option (List Large))
    → ((end_pfree p a s o).0 ≡ declined) ↔ (o ≡ none)
unfolding end_pfree
ended-declined_iff p a s none = ((λ h. refl), λ h. refl)
ended-declined_iff p a s (some ls) = ((λ h. cc), λ h. cc)

-- ngx_pfree answers NGX_DECLINED exactly if no large allocation of the pool has the address.
pub pfree-declined_iff :
    (p : Pool) (a : ℕ) (s : System)
    → ((pfree p a s).0 ≡ declined) ↔ All (λ l. holds a l.alloc ≡ false) p.large
unfolding pfree
pfree-declined_iff p a s =
    let found = ended-declined_iff p a s (forget a p.large) in
    let all = forget-none_iff a p.large in ((λ h. all.0 (found.0 h)), λ h. found.1 (all.1 h))
