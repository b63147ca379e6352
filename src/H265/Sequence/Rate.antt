-- ===== src/H265/Sequence/Rate.antt =====
-- What a new sequence of H.265 tells the client, and the decoded picture buffer it leads to.
use Prim.Native.Nat.{min}
use gst_vk_video_parser.Prelude.{
  ℕ, suc, ◌+◌, ◌*◌, ◌/◌, ◌%◌, ◌^◌, ◌<◌, ◌≡◌, ap, ◌∙◌, false, not, ◌&&◌, Option, none, some, arith,
}
use gst_vk_video_parser.Prelude.Int.{ℤ, pos}
use gst_vk_video_parser.FrameRate.{pack_framerate}
use gst_vk_video_parser.FrameRate.Bounds.{pack_framerate-Packed}
use gst_vk_video_parser.Client.{begin_sequence}
use gst_vk_video_parser.Client.Sequence.{begin_sequence_lem}
use gst_vk_video_parser.H264.Sequence.{Input, SequenceInfo, client_answer}
use gst_vk_video_parser.H265.ParameterSets.Parsed.{Sps}
use gst_vk_video_parser.H265.Sequence.{flag, is_progressive, sequence_info, new_sequence}

new_sequence-packed :
    (client : Option (SequenceInfo → ℤ)) (old : ℤ) (input : Input) (sps : Sps)
    (max_dpb_size packed : ℕ)
    → pack_framerate input.fps_n input.fps_d ≡ some packed
    → new_sequence client old input sps max_dpb_size
      ≡ some (
        sequence_info input sps max_dpb_size packed,
        client_answer client old (sequence_info input sps max_dpb_size packed),
      )
unfolding new_sequence
new_sequence-packed client old input sps max_dpb_size packed e =
    ap
      (λ (o : Option ℕ). elim o as (λ _. Option (SequenceInfo × ℤ)) [
        | none ↦ none
        | some q ↦ some (
          sequence_info input sps max_dpb_size q,
          client_answer client old (sequence_info input sps max_dpb_size q),
        )
      ])
      e

-- The client of the test programs.
abbrev pub test_client : SequenceInfo → ℤ
test_client info = begin_sequence false info.is_svc info.min_num_decode_surfaces

is_progressive_lem :
    (sps : Sps)
    → is_progressive sps ≡ not (sps.vui_parameters_present_flag && sps.vui_params.field_seq_flag)
unfolding is_progressive
is_progressive_lem sps = ground arith

answer_eight :
    (max_dpb_size : ℕ)
    → begin_sequence false false (pos (min (max_dpb_size + 1) 8)) ≡ pos (min (max_dpb_size + 1) 8)
answer_eight n =
    let one_more : min (n + 1) 8 ≡ suc (min n 7) = omega arith in
    let small : min (min n 7 + 1) 16 ≡ min (n + 1) 8 = omega arith in
    ap (λ m. begin_sequence false false (pos m)) one_more
    ∙ (begin_sequence_lem false (min n 7)).0
    ∙ ap pos small

-- With the client of the test programs, for a stream that is not scalable and a frame rate that fits the
-- two fields of a packed rate: the client is told the numerator and the denominator in these fields and
-- that the sequence is progressive unless its VUI says that it is one of fields, and the element's
-- `max_dpb_size` becomes the base decoder's plus one, but 8 at most.
pub new_sequence_lem :
    (old : ℤ) (input : Input) (sps : Sps) (max_dpb_size : ℕ)
    → input.fps_n < 2 ^ 18
    → input.fps_d < 2 ^ 14
    → input.is_scalable ≡ false
    → (info : SequenceInfo) × (new_sequence (some test_client) old input sps max_dpb_size
        ≡ some (info, pos (min (max_dpb_size + 1) 8)))
      × (info.frame_rate / 2 ^ 14 ≡ input.fps_n)
      × (info.frame_rate % 2 ^ 14 ≡ input.fps_d)
      × (info.prog_seq
          ≡ flag (not (sps.vui_parameters_present_flag && sps.vui_params.field_seq_flag)))
unfolding sequence_info
new_sequence_lem old input sps max_dpb_size hn hd plain =
    let rate = pack_framerate-Packed input.fps_n input.fps_d (omega arith) (omega arith) in
    let packed = rate.num * 2 ^ 14 + rate.den in
    let kept = rate.kept hn hd in
    let info = sequence_info input sps max_dpb_size packed in
    (
      info,
      new_sequence-packed (some test_client) old input sps max_dpb_size packed rate.result
          ∙ ap (λ b. some (info, begin_sequence false b (pos (min (max_dpb_size + 1) 8)))) plain
          ∙ ap (λ n. some (info, n)) (answer_eight max_dpb_size),
      omega (arith, kept.0, kept.1),
      omega (arith, kept.0, kept.1),
      ap flag (is_progressive_lem sps),
    )
