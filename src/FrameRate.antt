-- ===== src/FrameRate.antt =====
-- lib/plugins/videoutils.c and videoutils.h: the frame rate packed into 32 bits, an 18-bit numerator
-- above a 14-bit denominator.
pub mod Bounds
mod Tests
use Prim.Native.Nat.{bit_or}
use gst_vk_video_parser.Prelude.{
  ℕ, zero, suc, ◌+◌, ◌*◌, ◌/◌, ◌%◌, ◌^◌, Bool, not, ◌&&◌, ◌||◌, Option, none, some, ltb, ◌==◌,
  if◌then◌else◌, add_u32, u32_mod,
}

-- The loop's test: one of the two does not fit its field.
abbrev pub too_wide : ℕ → ℕ → Bool
too_wide numerator denominator = not (ltb numerator (2 ^ 18)) || not (ltb denominator (2 ^ 14))

-- One round of the loop.
unfoldable pub reduce_once : ℕ → ℕ → ℕ × ℕ
reduce_once numerator denominator =
    if numerator % 5 == 0 && denominator % 5 == 0
    then (numerator / 5, denominator / 5)
    else if (numerator % 2 == 1 || denominator % 2 == 1)
        && (numerator % 3 == 0 && denominator % 3 == 0)
    then (numerator / 3, denominator / 3)
    else (add_u32 numerator 1 / 2, add_u32 denominator 1 / 2)

-- The `while` loop with fuel; `none` means that the fuel ran out.
pub reduce : ℕ → ℕ → ℕ → Option (ℕ × ℕ)
reduce zero numerator denominator = none
reduce (suc fuel) numerator denominator =
    let (n, d) = reduce_once numerator denominator in
    let rest = reduce fuel n d in
    if too_wide numerator denominator then rest else some (numerator, denominator)

-- MAKEFRAMERATE
unfoldable pub make_framerate : ℕ → ℕ → ℕ
make_framerate num den = bit_or (num * 2 ^ 14 % u32_mod) den

-- The loop halves at least, so that 20 rounds are enough: `FrameRate.Bounds`.
abbrev pub rounds : ℕ
rounds = 20

unfoldable pub pack_framerate : ℕ → ℕ → Option ℕ
unfolding reduce make_framerate
pack_framerate numerator denominator = elim (reduce rounds numerator denominator) [
  | none ↦ none
  | some (n, d) ↦ some (make_framerate n d)
]
