-- ===== src/Platform/Words.antt =====
-- The conversions between integer types that the source writes, as C++20 defines them: modulo the
-- power of two of the width.
use wallchanger.Base.{ℕ, ◌-◌, ◌*◌, ◌%◌, ◌^◌, ◌<◌, ◌≡◌, arith, if◌then◌else◌, ltb}

-- `negsuc n` is `-(n + 1)`.
pub data ℤ : Type 0 where
  pos negsuc : ℕ → ℤ

-- The value modulo `m`, at least 0.
unfoldable pub modulo : ℕ → ℤ → ℕ
modulo m (pos n) = n % m
modulo m (negsuc n) = m - 1 - n % m

-- The value modulo `2 * half`, from `-half` on.
unfoldable pub signed : ℕ → ℤ → ℤ
unfolding modulo
signed half z =
    let n = modulo (2 * half) z in if ltb n half then pos n else negsuc (2 * half - 1 - n)

abbrev pub i8 : ℤ → ℤ
i8 z = signed (2 ^ 7) z

abbrev pub i32 : ℤ → ℤ
i32 z = signed (2 ^ 31) z

abbrev pub u16 : ℕ → ℕ
u16 n = n % 2 ^ 16

abbrev pub u32 : ℤ → ℕ
u32 z = modulo (2 ^ 32) z

abbrev pub u64 : ℤ → ℕ
u64 z = modulo (2 ^ 64) z

-- An unsigned number is the same after it was kept as a signed one of the same width.
pub u32-i32 : (n : ℕ) → n < 2 ^ 32 → u32 (i32 (pos n)) ≡ n
unfolding modulo signed
u32-i32 n h = ground arith
