-- ===== src/H265/Sequence/Tests.antt =====
-- A stream of fields with 29.97 frames per second.
use gst_vk_video_parser.Prelude.{◌/◌, ◌%◌, ◌^◌, ◌≡◌, refl, true, false, some, arith}
use gst_vk_video_parser.Prelude.Int.{pos}
use gst_vk_video_parser.H264.Sequence.{Input, SequenceInfo}
use gst_vk_video_parser.H265.ParameterSets.Parsed.{Sps}
use gst_vk_video_parser.H265.ParameterSets.Zero.{zero_sps, zero_vui_params}
use gst_vk_video_parser.H265.Sequence.{new_sequence}
use gst_vk_video_parser.H265.Sequence.Rate.{test_client, new_sequence_lem}

abbrev film : Input
film = record {
  is_scalable = false;
  fps_n = 30000;
  fps_d = 1001;
  display_ratio = λ w h. some (16, 9);
}

abbrev fields : Sps
fields = record zero_sps {
  width = 1920;
  height = 1080;
  vui_parameters_present_flag = true;
  vui_params = record zero_vui_params { field_seq_flag = true };
}

new_sequence_lem_example :
    (info : SequenceInfo) × (new_sequence (some test_client) (pos 0) film fields 16
      ≡ some (info, pos 8))
    × (info.frame_rate / 2 ^ 14 ≡ 30000)
    × (info.frame_rate % 2 ^ 14 ≡ 1001)
    × (info.prog_seq ≡ 0)
new_sequence_lem_example = new_sequence_lem (pos 0) film fields 16 (omega arith) (omega arith) refl
