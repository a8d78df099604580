-- ===== src/Pool/Small.antt =====
-- ngx_palloc_small: the place of a small allocation in its block.
use mathlib.Core.Option
use inside_nginx.Base.{
  All-modify, ℕ, zero, suc, ◌+◌, ◌^◌, ◌≤◌, ◌<◌, ◌≡◌, refl, sym, ap, ◌∙◌, inl, inr, Bool, true,
  false, Option, none, some, List, [], ◌∷◌, arith, leb, Bool-cases, get_elem?, modify, All,
}
use inside_nginx.Base.Words.{sub64}
use inside_nginx.Pool.{behind, start_in, Block, small_from}

module _ (align : ℕ → ℕ) where
  -- ngx_align_ptr: the least aligned address that is not below the given one.
  pub record IsAlign : Type 0 where
    pub above : (m : ℕ) → m ≤ align m
    pub least : (m e : ℕ) → m ≤ e → align e ≡ e → align m ≤ e

  -- A block whose end is an aligned address.
  pub record IsBlock (b : Block) : Type 0 where
    pub order : b.last ≤ b.end
    pub word : b.end < 2 ^ 64
    pub even_end : align b.end ≡ b.end

-- `p->d.last = m + size`
unfoldable pub cut : ℕ → Block → Block
cut last b = record b { last = last }

-- An allocation at m: it starts at or after `last` of one of the blocks and ends within this block;
-- this `last` is then its end, and nothing else changes.
pub record IsCut (size : ℕ) (bs : List Block) (m : ℕ) (bs' : List Block) : Type 0 where
  pub index : ℕ
  pub block : Block
  pub found : get_elem? bs index ≡ some block
  pub low : block.last ≤ m
  pub high : m + size ≤ block.end
  pub changed : bs' ≡ modify bs index (cut (m + size))

IsCut-cons :
    (size : ℕ) (b : Block) (bs : List Block) (m : ℕ) (bs' : List Block)
    → IsCut size bs m bs'
    → IsCut size (b ∷ bs) m (b ∷ bs')
IsCut-cons size b bs m bs' c = record {
  index = suc c.index;
  block = c.block;
  found = c.found;
  low = c.low;
  high = c.high;
  changed = ap (λ r. b ∷ r) c.changed;
}

-- The same cut behind one more block.
IsCut-map :
    (size : ℕ) (b : Block) (bs : List Block) (o : Option (ℕ × List Block)) {m : ℕ}
    {bs' : List Block}
    → ((m' : ℕ) (r : List Block) → o ≡ some (m', r) → IsCut size bs m' r)
    → Option.map (behind b) o ≡ some (m, bs')
    → IsCut size (b ∷ bs) m bs'
IsCut-map size b bs none k h = cc
IsCut-map size b bs (some (m', r)) {m} {bs'} k h =
    let at : m ≡ m' = cc in
    let same : bs' ≡ b ∷ r = cc in rw (at, same) (IsCut-cons size b bs m' r (k m' r refl))

IsCut-first :
    (size : ℕ) (b : Block) (bs : List Block) (m : ℕ)
    → b.last ≤ m
    → m + size ≤ b.end
    → IsCut size (b ∷ bs) m (cut (m + size) b ∷ bs)
IsCut-first size b bs m low high = record {
  index = 0;
  block = b;
  found = refl;
  low = low;
  high = high;
  changed = refl;
}

module _ (align : ℕ → ℕ) (a : IsAlign align) (aligned : Bool) (size : ℕ) where
  start_in-bounds :
      (b : Block)
      → IsBlock align b
      → (b.last ≤ start_in align aligned b) × (start_in align aligned b ≤ b.end)
  start_in-bounds b v = elim (Bool-cases aligned) [
    | inl e ↦ rw e (a.above b.last, a.least b.last b.end v.order v.even_end)
    | inr e ↦ rw e (omega arith, v.order)
  ]

  fits-bound :
      (b : Block)
      → IsBlock align b
      → leb size (sub64 b.end (start_in align aligned b)) ≡ true
      → start_in align aligned b + size ≤ b.end
  fits-bound b v h = bound b.end (start_in align aligned b) size v.word (start_in-bounds b v).1 h
    where
      bound : (e m n : ℕ) → e < 2 ^ 64 → m ≤ e → leb n (sub64 e m) ≡ true → m + n ≤ e
      bound e m n w le h = ground (arith, h)

  small_from-fits :
      (b : Block) (bs : List Block)
      → leb size (sub64 b.end (start_in align aligned b)) ≡ true
      → small_from align aligned size zero (b ∷ bs)
        ≡ some (start_in align aligned b, cut (start_in align aligned b + size) b ∷ bs)
  unfolding small_from cut
  small_from-fits b bs e = rw e

  small_from-next :
      (b : Block) (bs : List Block)
      → leb size (sub64 b.end (start_in align aligned b)) ≡ false
      → small_from align aligned size zero (b ∷ bs)
        ≡ Option.map (behind b) (small_from align aligned size zero bs)
  unfolding small_from
  small_from-next b bs e = rw e

  small_from-skip :
      (n : ℕ) (b : Block) (bs : List Block)
      → small_from align aligned size (suc n) (b ∷ bs)
        ≡ Option.map (behind b) (small_from align aligned size n bs)
  unfolding small_from
  small_from-skip n b bs = refl

  small_from-nil : (n : ℕ) → small_from align aligned size n [] ≡ none
  unfolding small_from
  small_from-nil zero = refl
  small_from-nil (suc n) = refl

  -- An allocation that ngx_palloc_small finds room for in the chain of blocks starts at or after
  -- `last` of one of them and ends within this block, whose `last` is then its end; nothing else
  -- changes. The ends of the blocks are aligned addresses.
  pub small_from-IsCut :
      (n : ℕ) (bs : List Block) {m : ℕ} {bs' : List Block}
      → All (IsBlock align) bs
      → small_from align aligned size n bs ≡ some (m, bs')
      → IsCut size bs m bs'
  small_from-IsCut n [] v h = let never = sym (small_from-nil n) ∙ h in cc
  small_from-IsCut (suc n) (b ∷ bs) v h =
      IsCut-map size b bs (small_from align aligned size n bs)
        (λ m' r e. small_from-IsCut n bs v.1 e) (sym (small_from-skip n b bs) ∙ h)
  small_from-IsCut zero (b ∷ bs) {m} {bs'} v h =
      elim (Bool-cases (leb size (sub64 b.end (start_in align aligned b)))) [
        | inl e ↦
            let s = start_in align aligned b in
            let done = sym (small_from-fits b bs e) ∙ h in
            let at : m ≡ s = cc in
            let same : bs' ≡ cut (s + size) b ∷ bs = cc in
            rw (at, same) (IsCut-first size b bs s (start_in-bounds b v.0).0 (fits-bound b v.0 e))
        | inr e ↦
            IsCut-map size b bs (small_from align aligned size zero bs)
              (λ m' r e'. small_from-IsCut zero bs v.1 e') (sym (small_from-next b bs e) ∙ h)
      ]

module _ (align : ℕ → ℕ) where
  cut-IsBlock : (b : Block) (last : ℕ) → last ≤ b.end → IsBlock align b → IsBlock align (cut last b)
  unfolding cut
  cut-IsBlock b last h v = record { order = h; word = v.word; even_end = v.even_end }

  IsCut-IsBlock :
      (size : ℕ) (bs : List Block) (m : ℕ) (bs' : List Block)
      → All (IsBlock align) bs
      → IsCut size bs m bs'
      → All (IsBlock align) bs'
  IsCut-IsBlock size bs m bs' v c = rw c.changed (
      All-modify (IsBlock align) bs c.index (cut (m + size))
        (λ q at w.
          let one : q ≡ c.block = let f = c.found in let both = sym at ∙ f in cc in
          cut-IsBlock q (m + size) (rw one c.high) w)
        v)

-- An allocation that ngx_palloc_small finds room for keeps every block valid: `last` does not pass
-- `end`, which is an aligned address.
pub small_from-IsBlock :
    (align : ℕ → ℕ) (a : IsAlign align) (aligned : Bool) (size n : ℕ) (bs : List Block) {m : ℕ}
    {bs' : List Block}
    → All (IsBlock align) bs
    → small_from align aligned size n bs ≡ some (m, bs')
    → All (IsBlock align) bs'
small_from-IsBlock align a aligned size n bs {m} {bs'} v h =
    IsCut-IsBlock align size bs m bs' v (small_from-IsCut align a aligned size n bs v h)
