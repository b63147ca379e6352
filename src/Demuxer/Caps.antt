-- ===== src/Demuxer/Caps.antt =====
-- What the demuxer reads from caps, and the names it prints.
use text.Mathlib.Text.{◌==◌ as str_eq, starts_with}
use gst_vk_video_parser.Prelude.{
  ℕ, Bool, true, false, Option, none, some, if◌then◌else◌, String, ◌==◌,
}
use gst_vk_video_parser.Demuxer.{
  StreamType, unknown_type, video_type, audio_type, text_type, VideoCodec, unknown_video, h264,
  h265, av1, vp9, AudioCodec, unknown_audio, aac, Structure,
}

-- The type that the name of the caps begins with.
unfoldable pub type_from_name : String → StreamType
type_from_name name =
    if starts_with name "video"
    then video_type
    else if starts_with name "audio"
    then audio_type
    else if starts_with name "text"
    then text_type
    else unknown_type

-- gst_parse_stream_get_type_from_pad; `none` where the pad has no caps.
unfoldable pub get_type_from_pad : Option Structure → StreamType
unfolding type_from_name
get_type_from_pad none = unknown_type
get_type_from_pad (some s) = elim s.name [ none ↦ unknown_type | some name ↦ type_from_name name ]

unfoldable pub vcodec_from_name : String → VideoCodec
vcodec_from_name name =
    if str_eq name "video/x-h264"
    then h264
    else if str_eq name "video/x-h265"
    then h265
    else if str_eq name "video/x-av1"
    then av1
    else if str_eq name "video/x-vp9"
    then vp9
    else unknown_video

-- gst_parse_stream_get_vcodec_from_caps
unfoldable pub get_vcodec_from_caps : Option Structure → VideoCodec
unfolding vcodec_from_name
get_vcodec_from_caps none = unknown_video
get_vcodec_from_caps (some s) = elim s.name [
  | none ↦ unknown_video
  | some name ↦ vcodec_from_name name
]

-- gst_parse_stream_get_acodec_from_caps
unfoldable pub get_acodec_from_caps : Option Structure → AudioCodec
get_acodec_from_caps none = unknown_audio
get_acodec_from_caps (some s) = elim s.name [
  | none ↦ unknown_audio
  | some name ↦ if str_eq name "audio/x-aac" then aac else unknown_audio
]

-- The switch of autoplug_query_caps.
unfoldable pub byte_stream_caps : VideoCodec → Option String
byte_stream_caps h264 = some "video/x-h264,stream-format=byte-stream,alignment=au"
byte_stream_caps h265 = some "video/x-h265,stream-format=byte-stream,alignment=au"
byte_stream_caps _ = none

-- autoplug_query_caps: the caps that it puts into the query. `is_parser` is what the registry says of
-- the element's factory, `none` where it has none; caps without a structure lead to no answer.
unfoldable pub autoplug_query_caps : Option Bool → Option Structure → Option String
autoplug_query_caps none caps = none
autoplug_query_caps (some false) caps = none
autoplug_query_caps (some true) caps = byte_stream_caps (get_vcodec_from_caps caps)

-- GstAutoplugSelectResult
pub data AutoplugSelect : Type 0 where
  try expose skip : AutoplugSelect

-- uridecodebin_autoplug_select_cb
unfoldable pub autoplug_select : Bool → AutoplugSelect
autoplug_select is_decoder = if is_decoder then expose else try

-- gst_demuxer_es_get_stream_type_name
unfoldable pub get_stream_type_name : StreamType → String
get_stream_type_name video_type = "Video"
get_stream_type_name audio_type = "Audio"
get_stream_type_name text_type = "Text"
get_stream_type_name _ = "Unknown"

-- The value of a GstDemuxerESVideoCodec.
abbrev pub codec_id : VideoCodec → ℕ
codec_id unknown_video = 0
codec_id h264 = 1
codec_id h265 = 2
codec_id av1 = 3
codec_id vp9 = 4

unfoldable pub video_codec_name : VideoCodec → String
video_codec_name av1 = "AV1"
video_codec_name h264 = "H264"
video_codec_name h265 = "H265"
video_codec_name vp9 = "VP9"
video_codec_name unknown_video = "Unknown"

-- gst_demuxer_es_get_codec_name: for an audio stream the codec's value is read as that of a
-- GstDemuxerESAudioCodec, where DEMUXER_ES_AUDIO_CODEC_AAC is 1.
unfoldable pub get_codec_name : StreamType → VideoCodec → String
unfolding video_codec_name
get_codec_name video_type codec = video_codec_name codec
get_codec_name audio_type codec = if codec_id codec == 1 then "AAC" else "Unknown"
get_codec_name _ codec = "Unknown"
