-- ===== src/Prelude/Int.antt =====
-- The signed integers of the source that are only stored, compared or passed on.
use Prim.Native.Nat.{ℕ, ◌-◌, ◌%◌, ◌^◌}
use mathlib.Core.Path.{◌≡◌}
use mathlib.Core.Logic.{◌↔◌}
use mathlib.Core.Bool.{Bool, true, false}
use native.Mathlib.Omega.{arith}
use gst_vk_video_parser.Prelude.Tests.{◌==◌, ltb, if◌then◌else◌}

-- `negsuc n` is -(n + 1).
pub data ℤ : Type 0 where
  pos : ℕ → ℤ
  negsuc : ℕ → ℤ

-- `==` on int32_t.
abbrev pub same_int : ℤ → ℤ → Bool
same_int (pos m) (pos n) = m == n
same_int (negsuc m) (negsuc n) = m == n
same_int _ _ = false

-- A cast to int8_t, by the low eight bits.
abbrev pub int8_of : ℕ → ℤ
int8_of low = if ltb low 128 then pos low else negsuc (255 - low)

abbrev pub to_int8 : ℤ → ℤ
to_int8 (pos n) = int8_of (n % 256)
to_int8 (negsuc n) = int8_of (255 - n % 256)

-- A cast of an unsigned number to int32_t.
abbrev pub int32_of : ℕ → ℤ
int32_of n = let low = n % 2 ^ 32 in if ltb low (2 ^ 31) then pos low else negsuc (2 ^ 32 - 1 - low)

pub same_int_iff : (a b : ℤ) → (same_int a b ≡ true) ↔ (a ≡ b)
same_int_iff a b = ground arith
