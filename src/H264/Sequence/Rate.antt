-- ===== src/H264/Sequence/Rate.antt =====
-- The frame rate and the size of the decoded picture buffer that a new sequence leads to.
use Prim.Native.Nat.{min}
use gst_vk_video_parser.Prelude.{
  ℕ, suc, ◌+◌, ◌*◌, ◌%◌, ◌^◌, ◌<◌, ◌≡◌, ◌≢◌, ap, ◌∙◌, sym, false, Option, none, some, to_u32, arith,
}
use gst_vk_video_parser.Prelude.Int.{ℤ, pos}
use gst_vk_video_parser.FrameRate.{pack_framerate}
use gst_vk_video_parser.FrameRate.Bounds.{pack_framerate-Packed}
use gst_vk_video_parser.Client.{begin_sequence}
use gst_vk_video_parser.Client.Sequence.{begin_sequence_lem}
use gst_vk_video_parser.H264.Sequence.{
  Input, Sps, SequenceInfo, sequence_info, new_sequence, client_answer,
}

-- The product of a packed rate and 1000 has another number in the 14 bits of the denominator.
times_1000 : (packed : ℕ) → packed % 2 ^ 14 ≢ 0 → to_u32 (packed * 1000) % 2 ^ 14 ≢ packed % 2 ^ 14
times_1000 packed h = omega arith

-- A new sequence on the frame rate that packs to `packed`.
new_sequence-packed :
    (client : Option (SequenceInfo → ℤ)) (old : ℤ) (input : Input) (sps : Sps)
    (max_dpb_size packed : ℕ)
    → pack_framerate input.fps_n input.fps_d ≡ some packed
    → new_sequence client old input sps max_dpb_size
      ≡ some (
        sequence_info input sps max_dpb_size packed,
        client_answer client old (sequence_info input sps max_dpb_size packed),
      )
unfolding new_sequence
new_sequence-packed client old input sps max_dpb_size packed e =
    ap
      (λ (o : Option ℕ). elim o as (λ _. Option (SequenceInfo × ℤ)) [
        | none ↦ none
        | some q ↦ some (
          sequence_info input sps max_dpb_size q,
          client_answer client old (sequence_info input sps max_dpb_size q),
        )
      ])
      e

-- For a frame rate that fits the two fields of a packed rate, its denominator not 0, a new sequence is
-- reported to the client with a rate whose denominator field is not that denominator.
pub new_sequence_frame_rate :
    (client : Option (SequenceInfo → ℤ)) (old : ℤ) (input : Input) (sps : Sps) (max_dpb_size : ℕ)
    → input.fps_n < 2 ^ 18
    → 0 < input.fps_d
    → input.fps_d < 2 ^ 14
    → (r : SequenceInfo × ℤ) × (new_sequence client old input sps max_dpb_size ≡ some r)
      × (r.0.frame_rate % 2 ^ 14 ≢ input.fps_d)
unfolding sequence_info
new_sequence_frame_rate client old input sps max_dpb_size hn hp hd =
    let rate = pack_framerate-Packed input.fps_n input.fps_d (omega arith) (omega arith) in
    let packed = rate.num * 2 ^ 14 + rate.den in
    let kept = (rate.kept hn hd).1 in
    let field : packed % 2 ^ 14 ≡ input.fps_d = omega (arith, kept) in
    let info = sequence_info input sps max_dpb_size packed in
    (
      (info, client_answer client old info),
      new_sequence-packed client old input sps max_dpb_size packed rate.result,
      λ e. times_1000 packed (omega arith) (e ∙ sym field),
    )

-- With the client of the test programs, for a stream that is not scalable and a 32-bit frame rate, the
-- element's `max_dpb_size` becomes the base decoder's plus one, but 16 at most.
pub new_sequence_dpb :
    (old : ℤ) (input : Input) (sps : Sps) (max_dpb_size : ℕ)
    → input.fps_n < 2 ^ 32
    → input.fps_d < 2 ^ 32
    → input.is_scalable ≡ false
    → (info : SequenceInfo) × (new_sequence
          (some (λ i. begin_sequence false i.is_svc i.min_num_decode_surfaces))
          old
          input
          sps
          max_dpb_size
        ≡ some (info, pos (min (max_dpb_size + 1) 16)))
unfolding sequence_info
new_sequence_dpb old input sps max_dpb_size hn hd plain =
    let rate = pack_framerate-Packed input.fps_n input.fps_d hn hd in
    let packed = rate.num * 2 ^ 14 + rate.den in
    let info = sequence_info input sps max_dpb_size packed in
    (
      info,
      new_sequence-packed (some (λ i. begin_sequence false i.is_svc i.min_num_decode_surfaces)) old
            input sps max_dpb_size packed rate.result
          ∙ ap (λ b. some (info, begin_sequence false b (pos (suc max_dpb_size)))) plain
          ∙ ap (λ n. some (info, n)) (begin_sequence_lem false max_dpb_size).0,
    )
