-- ===== src/Prelude/Words.antt =====
-- The machine integers of the source: a value is a native number, and a cast keeps its low bits.
use Prim.Native.Nat.{ℕ, ◌+◌, ◌^◌, ◌%◌}

abbrev pub u8_mod : ℕ
u8_mod = 2 ^ 8

abbrev pub u32_mod : ℕ
u32_mod = 2 ^ 32

-- static_cast<uint8_t>(x)
abbrev pub to_u8 : ℕ → ℕ
to_u8 x = x % u8_mod

-- static_cast<uint32_t>(x)
abbrev pub to_u32 : ℕ → ℕ
to_u32 x = x % u32_mod

-- uint32_t a + b
abbrev pub add_u32 : ℕ → ℕ → ℕ
add_u32 a b = (a + b) % u32_mod
