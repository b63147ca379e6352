-- ===== src/Client/Sequence.antt =====
-- The answer of BeginSequence to the element.
use Prim.Native.Nat.{min}
use gst_vk_video_parser.Prelude.{
  ℕ, suc, ◌+◌, ◌-◌, ◌≤◌, ◌≡◌, refl, ap, Bool, true, false, if◌then◌else◌, arith, ◌∙◌,
}
use gst_vk_video_parser.Prelude.Int.{ℤ, pos, negsuc}
use gst_vk_video_parser.Client.{begin_sequence, minus, min_int}

minus-pos : (a b : ℕ) → b ≤ a → minus a b ≡ pos (a - b)
minus-pos a b h = ground arith

limited : (encode_h264 : Bool) → ℤ → ℤ
limited encode_h264 conf = min_int (min_int conf (if encode_h264 then 17 else 16)) 17

limited-pos :
    (encode_h264 : Bool) (n : ℕ)
    → limited encode_h264 (pos n) ≡ pos (min n (if encode_h264 then 17 else 16))
unfolding limited
limited-pos true n = ap pos (omega arith)
limited-pos false n = ap pos (omega arith)

-- The element asks for one surface more than its decoded picture buffer holds. For a stream that is
-- not scalable the answer is that size and one, for a scalable one it is that size less one (-1 for
-- size 0); both are limited to 16, or to 17 for the codec of the H.264 encoder.
pub begin_sequence_lem :
    (encode_h264 : Bool) (max_dpb_size : ℕ)
    → (begin_sequence encode_h264 false (pos (suc max_dpb_size))
        ≡ pos (min (max_dpb_size + 1) (if encode_h264 then 17 else 16)))
      × (begin_sequence encode_h264 true (pos 1) ≡ negsuc 0)
      × (begin_sequence encode_h264 true (pos (suc (suc max_dpb_size)))
          ≡ pos (min max_dpb_size (if encode_h264 then 17 else 16)))
unfolding begin_sequence limited
begin_sequence_lem e n = (
  ap (limited e) (minus-pos (suc n + 1) 1 (omega arith) ∙ ap pos (omega arith))
      ∙ limited-pos e (n + 1),
  refl,
  ap (limited e) (minus-pos (suc (suc n) + 1) 3 (omega arith) ∙ ap pos (omega arith))
      ∙ limited-pos e n,
)
