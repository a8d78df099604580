-- ===== src/Array/Tests.antt =====
-- Runs of ngx_array.c on a full array of two elements of eight bytes.
use inside_nginx.Base.{ℕ, ◌+◌, ◌*◌, ◌/◌, ◌%◌, ◌≡◌, refl, Option, none, some, [], ◌∷◌, arith}
use inside_nginx.Pool.{palloc, palloc_small, small_from, pool_size}
use inside_nginx.Pool.Small.{IsAlign}
use inside_nginx.Pool.Granted.{IsPool}
use inside_nginx.Array.{Array, Store, push_n, take_bytes, grow, take_new, elements_end, element_at}
use inside_nginx.Array.Grown.{IsFit}
use inside_nginx.Array.Push.{IsPushed}
use inside_nginx.Array.Answered.{push_n-IsAnswered}

abbrev align_16 : ℕ → ℕ
align_16 m = (m + 15) / 16 * 16

align_16-IsAlign : IsAlign align_16
align_16-IsAlign = record { above = λ m. omega arith; least = λ m e h k. omega (arith, h, k) }

-- Every new block is at 65536.
abbrev memory_at : ℕ → ℕ → ℕ → Option ℕ
memory_at call alignment n = some 65536

abbrev no_memory : ℕ → ℕ → Option ℕ
no_memory call n = none

abbrev pair : Array
pair = record { place = 4400; elements = some 4592; count = 2; size = 8; capacity = 2 }

-- The first block has no room behind the array, the second has.
abbrev full_store : Store
full_store = record {
  pool = record {
    blocks =
        record { start = 4096; last = 4608; end = 4608; failed = 0 }
        ∷ record { start = 8192; last = 8230; end = 8704; failed = 0 }
        ∷ [];
    max = 400;
    current = 0;
    chain = none;
    large = [];
    cleanup = [];
  };
  system = record { calls = 0; freed = []; cleared = []; ran = [] };
  memory = λ a. a % 256;
}

full_store-IsPool : IsPool align_16 80 32 16 24 4095 memory_at no_memory full_store.pool
unfolding pool_size
full_store-IsPool = record {
  blocks_valid = (
    record { order = omega arith; word = omega arith; even_end = refl },
    (record { order = omega arith; word = omega arith; even_end = refl }, tt),
  );
  new_room = λ call a n got small. let at : a ≡ 65536 = cc in rw at (omega (arith, small));
}

pair-IsFit : IsFit 3 pair
pair-IsFit = record {
  within = omega arith;
  capacity_small = omega arith;
  count_small = omega arith;
  reach = omega arith;
  doubled = omega arith;
}

-- The array moves to the second block, and the new elements are behind its two old ones.
push_n-IsAnswered_example :
    IsPushed align_16 80 32 16 24 4095 memory_at no_memory 3 8256 pair full_store
      (push_n align_16 80 32 16 24 4095 memory_at no_memory 3 pair full_store).1.0
      (push_n align_16 80 32 16 24 4095 memory_at no_memory 3 pair full_store).1.1
unfolding push_n take_new grow take_bytes palloc palloc_small small_from elements_end element_at
push_n-IsAnswered_example =
    push_n-IsAnswered align_16 80 32 16 24 4095 memory_at no_memory 3 pair full_store
      align_16-IsAlign full_store-IsPool pair-IsFit
