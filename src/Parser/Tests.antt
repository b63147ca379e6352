-- ===== src/Parser/Tests.antt =====
-- A parser over a pipeline that counts the bytes it takes, and refuses empty buffers of more than
-- eight bytes.
use gst_vk_video_parser.Prelude.{
  ℕ, ◌+◌, ◌≡◌, refl, ◌⊎◌, true, false, [], ◌∷◌, some, none, length, leb, if◌then◌else◌,
}
use gst_vk_video_parser.Parser.{
  DecoderParser, InitParams, BitstreamPacket, api_version, initialize, release, start,
  with_pipeline, initialization_failed,
}
use gst_vk_video_parser.Parser.Pipeline.{
  Gstreamer, new_parser, build, build_codec, decode_h264, other_codec, flow_ok, flow_error,
  VideoParser,
}
use gst_vk_video_parser.Parser.Parse.{
  Plays, Parsed, answer, takes_data, takes_eos, parse_byte_stream_lem,
}
use gst_vk_video_parser.Parser.Lifecycle.{
  IsRequest, NotBuilt, initialize_failed, initialize_unsupported,
}

abbrev counting : Gstreamer
counting = record {
  Harness = ℕ;
  init_check = true;
  has_decoder = λ _. true;
  links = λ _. true;
  new_harness = λ _ _ _. 0;
  push = λ h bytes. (if leb (length bytes) 8 then flow_ok else flow_error, [], h + length bytes);
  push_eos = λ h. (true, [], h);
}

abbrev request : InitParams
request = record {
  interface_version = api_version;
  client = some 7;
  out_of_band_picture_parameters = true;
}

abbrev request-IsRequest : IsRequest counting (some request)
request-IsRequest = record {
  given = request;
  is_given = refl;
  version = refl;
  client = 7;
  is_client = refl;
  starts = refl;
}

abbrev fresh_parser : DecoderParser counting
fresh_parser = record { ref_count = 1; codec = decode_h264; parser = none }

abbrev strange_parser : DecoderParser counting
strange_parser = record { ref_count = 1; codec = other_codec; parser = none }

abbrev playing_video : VideoParser counting
playing_video = record {
  user_data = 7;
  codec = decode_h264;
  oob_pic_params = true;
  playing = some (record { harness = 0; bus = [] });
}

abbrev playing_parser : DecoderParser counting
playing_parser = record fresh_parser { parser = some playing_video }

abbrev playing-Plays : Plays counting playing_video 0
playing-Plays = record {
  state = record { harness = 0; bus = [] };
  is_playing = refl;
  has_harness = refl;
}

abbrev last_packet : BitstreamPacket
last_packet = record { byte_stream = 0 ∷ 0 ∷ 1 ∷ 9 ∷ []; data_length = 4; eos = true }

abbrev long_packet : BitstreamPacket
long_packet = record {
  byte_stream = 0 ∷ 0 ∷ 1 ∷ 9 ∷ 0 ∷ 0 ∷ 1 ∷ 9 ∷ 9 ∷ [];
  data_length = 9;
  eos = true;
}

answer_last : answer counting 0 last_packet ≡ (true, 4, 4)
unfolding answer takes_data takes_eos
answer_last = refl

answer_long : answer counting 0 long_packet ≡ (false, 0, 9)
unfolding answer takes_data takes_eos
answer_long = refl

parse_byte_stream_lem_example :
    Parsed counting playing_parser last_packet
      (answer counting 0 last_packet).0
      (answer counting 0 last_packet).1
      (answer counting 0 last_packet).2
parse_byte_stream_lem_example =
    parse_byte_stream_lem counting playing_parser playing_video last_packet 0 refl playing-Plays

-- The request is passed on, and the pipeline is not built.
abbrev kept_parser : DecoderParser counting
kept_parser = record strange_parser {
  parser =
      some (record { user_data = 7; codec = other_codec; oob_pic_params = true; playing = none });
}

initialize_failed_example :
    ((¬ IsRequest counting (some request)) × (kept_parser ≡ strange_parser))
    ⊎ (IsRequest counting (some request) × NotBuilt counting strange_parser kept_parser)
unfolding initialize start build new_parser build_codec with_pipeline
initialize_failed_example =
    initialize_failed counting strange_parser kept_parser (some request) refl

initialize_unsupported_example :
    (after : DecoderParser counting) × (initialize counting strange_parser (some request)
      ≡ some (initialization_failed, after))
    × (release counting after ≡ none)
initialize_unsupported_example =
    initialize_unsupported counting strange_parser (some request) request-IsRequest refl refl
