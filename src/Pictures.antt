-- ===== src/Pictures.antt =====
-- lib/plugins/gstvkh264dec.cpp and gstvkh265dec.cpp: end_picture and output_picture, which hand a decoded
-- picture to the client and show it.
pub mod Delivery
mod Tests
use gst_vk_video_parser.Prelude.{
  ℕ, ◌*◌, ◌/◌, ◌%◌, ◌^◌, Bool, true, false, List, Option, none, some, if◌then◌else◌,
}
use gst_vk_video_parser.Bitstream.{NalUnit, Bitstream, PictureBytes, fresh, decode_slices, steal}
use gst_vk_video_parser.Parser.Pipeline.{FlowReturn, flow_ok, flow_error}

-- What these calls use of a VkParserVideoDecodeClient over its states: DecodePicture on the bytes and the
-- `ref_pic_flag` of the picture's data, and DisplayPicture on a picture and a time.
pub record PictureClient {ℓ} (S : Type ℓ) : Type ℓ where
  pub decode_picture : S → PictureBytes → Bool → Bool × S
  pub display_picture : S → Option ℕ → ℕ → Bool × S

-- `picture->system_frame_number * frame->duration / 100`
abbrev pub timestamp : ℕ → ℕ → ℕ
timestamp system_frame_number duration = system_frame_number * duration % 2 ^ 64 / 100

abbrev pub flow_of : Bool → FlowReturn
flow_of true = flow_ok
flow_of false = flow_error

module _ {ℓ} {S : Type ℓ} where
  -- The call of DecodePicture, if there is a client.
  abbrev pub decode_with : Option (PictureClient S) → PictureBytes → Bool → S → FlowReturn × S
  decode_with none bytes ref_pic_flag s = (flow_ok, s)
  decode_with (some client) bytes ref_pic_flag s =
      let (ok, s') = client.decode_picture s bytes ref_pic_flag in (flow_of ok, s')

  -- gst_vk_h264_dec_end_picture on a picture whose data has `ref_pic_flag`: what it returns, the client,
  -- and what is left of the bitstream.
  unfoldable pub h264_end_picture :
      Option (PictureClient S) → Bool → Bitstream → S → (FlowReturn × S) × Bitstream
  h264_end_picture client ref_pic_flag b s =
      let (bytes, left) = steal b in (decode_with client bytes ref_pic_flag s, left)

  -- gst_vk_h265_dec_end_picture, which sets the flag.
  unfoldable pub h265_end_picture :
      Option (PictureClient S) → Bool → Bitstream → S → (FlowReturn × S) × Bitstream
  h265_end_picture client ref_pic_flag b s =
      let (bytes, left) = steal b in (decode_with client bytes true s, left)

  -- The call of DisplayPicture: the flow, whether the frame is finished, and the client. `finish` is what
  -- gst_video_decoder_finish_frame returns.
  abbrev pub after_display : FlowReturn → Bool × S → FlowReturn × Bool × S
  after_display finish (true, s) = (finish, true, s)
  after_display finish (false, s) = (flow_error, false, s)

  -- gst_vk_h264_dec_output_picture and gst_vk_h265_dec_output_picture; both give up the reference to the
  -- picture in each case.
  unfoldable pub output_picture :
      Option (PictureClient S) → FlowReturn → ℕ → ℕ → Option ℕ → S → FlowReturn × Bool × S
  output_picture none finish system_frame_number duration pic s = (finish, true, s)
  output_picture (some client) finish system_frame_number duration pic s =
      after_display finish (client.display_picture s pic (timestamp system_frame_number duration))

  -- The calls of a picture from vk_pic_new over its slices to end_picture.
  unfoldable pub deliver :
      (Bitstream → S → (FlowReturn × S) × Bitstream)
      → List NalUnit
      → S
      → Option ((FlowReturn × S) × Bitstream)
  deliver end_picture ns s = elim (decode_slices fresh ns) [
    | none ↦ none
    | some b ↦ some (end_picture b s)
  ]
