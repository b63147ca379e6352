-- ===== src/Demuxer/Streams.antt =====
-- The list of streams: a stream for each pad, and the two searches.
use text.Mathlib.Text.{◌==◌ as str_eq}
use gst_vk_video_parser.Prelude.{
  ℕ, Bool, false, List, [], ◌∷◌, ◌++◌, Option, none, some, if◌then◌else◌, String, length, to_u32,
  ◌==◌,
}
use gst_vk_video_parser.Demuxer.{
  StreamType, unknown_type, video_type, audio_type, text_type, data_type, Stream, InfoData,
  video_data, audio_data, no_data, Structure, Demuxer, State, idle,
}
use gst_vk_video_parser.Demuxer.Caps.{get_type_from_pad, get_vcodec_from_caps, get_acodec_from_caps}

-- g_strcmp0, of a stream's identifier with one that is not null.
abbrev pub has_id : Option String → String → Bool
has_id none wanted = false
has_id (some id) wanted = str_eq id wanted

-- The loop of find_stream.
unfoldable pub find_stream : List Stream → String → Option Stream
find_stream [] wanted = none
find_stream (s ∷ ss) wanted = if has_id s.stream_id wanted then some s else find_stream ss wanted

-- The value of a GstDemuxerEStreamType, and `==` on two of them.
abbrev pub type_id : StreamType → ℕ
type_id unknown_type = 0
type_id video_type = 1
type_id audio_type = 2
type_id text_type = 3
type_id data_type = 4

abbrev pub same_type : StreamType → StreamType → Bool
same_type a b = type_id a == type_id b

-- The loop of gst_demuxer_es_find_best_stream.
unfoldable pub first_of_type : List Stream → StreamType → Option Stream
first_of_type [] wanted = none
first_of_type (s ∷ ss) wanted =
    if same_type s.stream_type wanted then some s else first_of_type ss wanted

-- The test of gst_demuxer_es_find_best_stream for the idle state, and what follows.
unfoldable pub best_in_state : State → List Stream → StreamType → Option Stream
best_in_state idle ss wanted = none
best_in_state _ ss wanted = first_of_type ss wanted

-- gst_demuxer_es_find_best_stream; `none` for the demuxer is the null pointer.
unfoldable pub find_best_stream : Option Demuxer → StreamType → Option Stream
find_best_stream none wanted = none
find_best_stream (some d) wanted = best_in_state d.state d.streams wanted

-- A field that gst_structure_get_int does not find stays 0.
abbrev or_zero : Option ℕ → ℕ
or_zero none = 0
or_zero (some n) = n

unfoldable pub stream_info : StreamType → Structure → InfoData
stream_info video_type s =
    video_data (or_zero s.bitrate) s.profile s.level (get_vcodec_from_caps (some s))
stream_info audio_type s = audio_data (or_zero s.bitrate) (get_acodec_from_caps (some s))
stream_info _ s = no_data

-- A GstPad: its direction, its caps and its stream identifier.
pub record Pad : Type 0 where
  pub is_src : Bool
  pub caps : Option Structure
  pub stream_id : Option String

-- gst_parse_stream_create
unfoldable pub stream_create : Demuxer → Pad → Option Stream
stream_create d pad = elim pad.caps [
  | none ↦ none
  | some s ↦ some (record {
    stream_type = get_type_from_pad (some s);
    id = to_u32 (length d.streams);
    stream_id = pad.stream_id;
    info = stream_info (get_type_from_pad (some s)) s;
  })
]

-- uridecodebin_pad_added_cb
unfoldable pub pad_added : Demuxer → Pad → Demuxer
unfolding stream_create
pad_added d pad =
    if pad.is_src
    then elim (stream_create d pad) [
      | none ↦ d
      | some stream ↦ record d { streams = d.streams ++ stream ∷ [] }
    ]
    else d
