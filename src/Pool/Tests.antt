-- ===== src/Pool/Tests.antt =====
-- Runs of ngx_palloc.c on a pool of two blocks.
use inside_nginx.Base.{ℕ, ◌+◌, ◌*◌, ◌/◌, ◌≡◌, refl, true, none, some, List, [], ◌∷◌, arith, All}
use inside_nginx.Pool.{Block, Pool, System, small_from}
use inside_nginx.Pool.Small.{IsAlign, IsBlock, IsCut, small_from-IsCut}

abbrev align_16 : ℕ → ℕ
align_16 m = (m + 15) / 16 * 16

align_16-IsAlign : IsAlign align_16
align_16-IsAlign = record { above = λ m. omega arith; least = λ m e h k. omega (arith, h, k) }

-- The first block is almost full.
abbrev blocks : List Block
blocks =
    record { start = 4096; last = 4600; end = 4608; failed = 0 }
    ∷ record { start = 8192; last = 8230; end = 8704; failed = 0 }
    ∷ []

blocks-AreValid : All (IsBlock align_16) blocks
blocks-AreValid = (
  record { order = omega arith; word = omega arith; even_end = refl },
  (record { order = omega arith; word = omega arith; even_end = refl }, tt),
)

abbrev blocks_after : List Block
blocks_after =
    record { start = 4096; last = 4600; end = 4608; failed = 0 }
    ∷ record { start = 8192; last = 8340; end = 8704; failed = 0 }
    ∷ []

second_block : small_from align_16 true 100 0 blocks ≡ some (8240, blocks_after)
unfolding small_from
second_block = refl

small_from-IsCut_example : IsCut 100 blocks 8240 blocks_after
small_from-IsCut_example =
    small_from-IsCut align_16 align_16-IsAlign true 100 0 blocks blocks-AreValid second_block

abbrev small_pool : Pool
small_pool = record {
  blocks = blocks;
  max = 400;
  current = 0;
  chain = none;
  large = record { place = 8200; alloc = some 65536 } ∷ [];
  cleanup = [];
}

abbrev fresh_system : System
fresh_system = record { calls = 0; freed = []; cleared = []; ran = [] }
