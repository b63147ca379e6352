-- ===== src/Demuxer.antt =====
-- lib/demuxeres/gstdemuxeres.c: a pipeline uridecodebin ! funnel ! appsink that splits a file into
-- elementary streams. GStreamer is outside: the pads that it adds, the messages of its bus and the
-- objects that the appsink gives are arguments. Strings are texts, a null string is `none`.
pub mod Caps
pub mod Streams
pub mod Bus
pub mod Reading
pub mod Order
pub mod Ending
pub mod Session
pub mod Ids
pub mod Steps
pub mod History
pub mod Packets
pub mod Ready
pub mod Waiting
pub mod Teardown
pub mod Best
mod Tests
use gst_vk_video_parser.Prelude.{ℕ, Bool, false, List, [], Option, none, String}

-- GstDemuxerEStreamType
pub data StreamType : Type 0 where
  unknown_type video_type audio_type text_type data_type : StreamType

-- GstDemuxerESVideoCodec
pub data VideoCodec : Type 0 where
  unknown_video h264 h265 av1 vp9 : VideoCodec

-- GstDemuxerESAudioCodec
pub data AudioCodec : Type 0 where
  unknown_audio aac : AudioCodec

-- GstDemuxerESInfoData, without GStreamer's GstVideoInfo and GstAudioInfo.
pub data InfoData : Type 0 where
  video_data : ℕ → Option String → Option String → VideoCodec → InfoData
  audio_data : ℕ → AudioCodec → InfoData
  no_data : InfoData

-- GstDemuxerEStream
pub record Stream : Type 0 where
  pub stream_type : StreamType
  pub id : ℕ
  pub stream_id : Option String
  pub info : InfoData

-- GstDemuxerESState
pub data State : Type 0 where
  idle error ready eos : State

-- The first structure of a GstCaps, what the demuxer reads of it; `name` is `none` where the caps have
-- no structure.
pub record Structure : Type 0 where
  pub name : Option String
  pub bitrate : Option ℕ
  pub profile : Option String
  pub level : Option String

-- GstSample and its buffer.
pub record Buffer : Type 0 where
  pub bytes : List ℕ
  pub pts : ℕ
  pub dts : ℕ
  pub duration : ℕ

abbrev pub Sample : Type 0
Sample = Option Buffer

-- GstDemuxerESPrivate, without the handles of GStreamer and of the threads.
pub record Demuxer : Type 0 where
  pub current_stream_id : ℕ
  pub current_stream_type : StreamType
  pub streams : List Stream
  pub state : State
  pub bus_exit : Bool
  pub pending_sample : Option Sample

-- g_new0
abbrev pub new_demuxer : Demuxer
new_demuxer = record {
  current_stream_id = 0;
  current_stream_type = unknown_type;
  streams = [];
  state = idle;
  bus_exit = false;
  pending_sample = none;
}

-- set_demuxer_state
unfoldable pub set_demuxer_state : Demuxer → State → Demuxer
set_demuxer_state d state = record d { state = state }
