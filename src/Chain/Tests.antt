-- ===== src/Chain/Tests.antt =====
-- A push to a full list of two elements of 16 bytes.
use inside_nginx.Base.{ℕ, ◌+◌, Option, some, []}
use inside_nginx.Chain.{Chain}

-- Memory is handed out from the number on.
abbrev next_free : ℕ → ℕ → Option ℕ × ℕ
next_free n free = (some free, free + n)

abbrev full_list : Chain
full_list = record {
  full = [];
  last = record { elements = 4096; count = 2 };
  size = 16;
  capacity = 2;
}
