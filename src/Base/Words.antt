-- ===== src/Base/Words.antt =====
-- Unsigned 64-bit words (size_t, ngx_uint_t, uintptr_t) and single bits of a word.
use Prim.Native.Nat.{ℕ, ◌+◌, ◌-◌, ◌*◌, ◌%◌, ◌^◌}
use inside_nginx.Base.Tests.{ltb, if◌then◌else◌}
use inside_nginx.Base.Int.{ℤ, pos, negsuc}

abbrev pub add64 : ℕ → ℕ → ℕ
add64 a b = (a + b) % 2 ^ 64

abbrev pub mul64 : ℕ → ℕ → ℕ
mul64 a b = (a * b) % 2 ^ 64

abbrev pub sub64 : ℕ → ℕ → ℕ
sub64 a b = (a + 2 ^ 64 - b) % 2 ^ 64

-- The conversion of an ngx_int_t to ngx_uint_t.
abbrev pub to_u64 : ℤ → ℕ
to_u64 (pos n) = n % 2 ^ 64
to_u64 (negsuc n) = (2 ^ 64 - 1) - n % 2 ^ 64

-- The conversion of an ngx_uint_t to ngx_int_t.
abbrev pub to_s64 : ℕ → ℤ
to_s64 n = if ltb n (2 ^ 63) then pos n else negsuc (2 ^ 64 - 1 - n)

-- `(uintptr_t) 1 << k`, for k below 64.
abbrev pub one_shl : ℕ → ℕ
one_shl k = 2 ^ k
