-- ===== src/FrameRate/Bounds.antt =====
-- pack_framerate: the loop ends, and what it packs fits the two fields.
use Prim.Native.Nat.{bit_or}
use gst_vk_video_parser.Prelude.{
  ◌∙◌, ℕ, zero, suc, ◌+◌, ◌-◌, ◌*◌, ap, ◌%◌, ◌^◌, ◌≤◌, ◌<◌, ◌≡◌, refl, Option, some, arith, true,
  false, Bool-cases, inl, inr, u32_mod,
}
use gst_vk_video_parser.Prelude.Bits.{shift_left, bit_or-shift_left}
use gst_vk_video_parser.FrameRate.{reduce_once, reduce, make_framerate, pack_framerate, too_wide}

-- What the loop can still handle in so many rounds.
abbrev pub reach : ℕ → ℕ
reach zero = 2 ^ 13
reach (suc k) = 2 * reach k

reduce_once-le :
    (b n d : ℕ) → n ≤ 2 * b → d ≤ 2 * b → ((reduce_once n d).0 ≤ b) × ((reduce_once n d).1 ≤ b)
unfolding reduce_once
reduce_once-le b n d hn hd = ground arith

-- What one round keeps: a denominator above 0, unless its increment wraps.
reduce_once-pos : (n d : ℕ) → 0 < d → d < u32_mod - 1 → 0 < (reduce_once n d).1
unfolding reduce_once
reduce_once-pos n d hn hd = ground arith

reduce_once-word :
    (n d : ℕ)
    → n < u32_mod
    → d < u32_mod
    → ((reduce_once n d).0 < u32_mod) × ((reduce_once n d).1 < u32_mod)
unfolding reduce_once
reduce_once-word n d hn hd = ground arith

-- A round leads to numbers below 2 ^ 31.
reduce_once-lt : (n d : ℕ) → n < u32_mod → d < u32_mod → (reduce_once n d).1 < u32_mod - 1
unfolding reduce_once
reduce_once-lt n d hn hd = ground arith

-- What the loop returns for a rate of `n` over `d`.
record Reduced (n d : ℕ) (r : Option (ℕ × ℕ)) : Type 0 where
  num : ℕ
  den : ℕ
  result : r ≡ some (num, den)
  num_fits : num < 2 ^ 18
  den_fits : den < 2 ^ 14
  kept : n < 2 ^ 18 → d < 2 ^ 14 → (num ≡ n) × (den ≡ d)
  den_pos : 0 < d → d < u32_mod - 1 → 0 < den

reduce-stop : (f n d : ℕ) → too_wide n d ≡ false → Reduced n d (reduce (suc f) n d)
unfolding reduce
reduce-stop f n d e = record {
  num = n;
  den = d;
  result = rw e;
  num_fits = ground arith;
  den_fits = ground arith;
  kept = λ _ _. (refl, refl);
  den_pos = λ h _. h;
}

reduce-more :
    (f n d : ℕ)
    → n < u32_mod
    → d < u32_mod
    → too_wide n d ≡ true
    → Reduced
        (reduce_once n d).0
        (reduce_once n d).1
        (reduce f (reduce_once n d).0 (reduce_once n d).1)
    → Reduced n d (reduce (suc f) n d)
unfolding reduce
reduce-more f n d hn hd e r = record {
  num = r.num;
  den = r.den;
  result = rw e r.result;
  num_fits = r.num_fits;
  den_fits = r.den_fits;
  kept = λ a b. absurd (let fits : too_wide n d ≡ false = ground arith in cc);
  den_pos = λ a b. r.den_pos (reduce_once-pos n d a b) (reduce_once-lt n d hn hd);
}

reduce-Reduced :
    (k n d : ℕ)
    → n < u32_mod
    → d < u32_mod
    → n ≤ reach k
    → d ≤ reach k
    → Reduced n d (reduce (suc k) n d)
reduce-Reduced zero n d wn wd hn hd = reduce-stop 0 n d (ground arith)
reduce-Reduced (suc k) n d wn wd hn hd = elim (Bool-cases (too_wide n d)) [
  | inl wide ↦
      let below = reduce_once-le (reach k) n d hn hd in
      let words = reduce_once-word n d wn wd in
      reduce-more (suc k) n d wn wd wide
        (reduce-Reduced k (reduce_once n d).0 (reduce_once n d).1 words.0 words.1 below.0 below.1)
  | inr fits ↦ reduce-stop (suc k) n d fits
]

make_framerate-eq-add :
    (num den : ℕ) → num < 2 ^ 18 → den < 2 ^ 14 → make_framerate num den ≡ num * 2 ^ 14 + den
unfolding make_framerate
make_framerate-eq-add num den h k =
    let shifted : num * 2 ^ 14 % u32_mod ≡ shift_left 14 num = omega arith in
    ap (λ x. bit_or x den) shifted ∙ bit_or-shift_left 14 num den (omega arith) ∙ omega arith

-- What pack_framerate promises of the rate `n` over `d`.
pub record Packed (n d : ℕ) : Type 0 where
  pub num : ℕ
  pub den : ℕ
  pub result : pack_framerate n d ≡ some (num * 2 ^ 14 + den)
  pub num_fits : num < 2 ^ 18
  pub den_fits : den < 2 ^ 14
  pub kept : n < 2 ^ 18 → d < 2 ^ 14 → (num ≡ n) × (den ≡ d)
  pub den_pos : 0 < d → d < u32_mod - 1 → 0 < den

-- For 32-bit arguments the loop ends within its fuel, and the word holds an 18-bit numerator above a
-- 14-bit denominator. A rate that fits the two fields is packed as it is, and a denominator above 0
-- and below 2 ^ 32 - 1 does not become 0.
pub pack_framerate-Packed : (n d : ℕ) → n < u32_mod → d < u32_mod → Packed n d
unfolding pack_framerate
pack_framerate-Packed n d hn hd =
    let r = reduce-Reduced 19 n d hn hd (omega arith) (omega arith) in
    record {
      num = r.num;
      den = r.den;
      result =
          rw (r.result, pack_framerate)
            (ap some (make_framerate-eq-add r.num r.den r.num_fits r.den_fits));
      num_fits = r.num_fits;
      den_fits = r.den_fits;
      kept = r.kept;
      den_pos = r.den_pos;
    }
