-- ===== src/Base/Time.antt =====
-- Go's `time.Duration`: an int64 of nanoseconds, with its wrap-around, and the difference of two times,
-- which stops at the bounds of a Duration.
use Prim.Native.Nat.{ℕ, suc, ◌-◌, ◌*◌, ◌/◌, ◌%◌, ◌^◌}
use orionis.Base.Tests.{ltb, if◌then◌else◌}
use orionis.Base.Int.{ℤ, pos, negsuc, sub_ℕ, ltb_ℤ}

-- The int64 with the same low 64 bits as a number.
abbrev pub int64_of_bits : ℕ → ℤ
int64_of_bits r = if ltb r (2 ^ 63) then pos r else negsuc (2 ^ 64 - 1 - r)

abbrev pub wrap_int64 : ℤ → ℤ
wrap_int64 (pos n) = int64_of_bits (n % 2 ^ 64)
wrap_int64 (negsuc n) = int64_of_bits (2 ^ 64 - 1 - n % 2 ^ 64)

-- `time.Duration(n) * time.Second`, before it wraps.
abbrev pub in_seconds : ℤ → ℤ
in_seconds (pos n) = pos (n * 1_000_000_000)
in_seconds (negsuc n) = sub_ℕ 0 (suc n * 1_000_000_000)

abbrev pub seconds : ℤ → ℤ
seconds n = wrap_int64 (in_seconds n)

-- `d / 10`, which rounds towards zero.
abbrev pub tenth : ℤ → ℤ
tenth (pos n) = pos (n / 10)
tenth (negsuc n) = sub_ℕ 0 (suc n / 10)

abbrev pub saturate : ℤ → ℤ
saturate d =
    if ltb_ℤ (pos (2 ^ 63 - 1)) d
    then pos (2 ^ 63 - 1)
    else if ltb_ℤ d (negsuc (2 ^ 63 - 1))
    then negsuc (2 ^ 63 - 1)
    else d
