-- ===== src/Demuxer/Tests.antt =====
-- A file with a video and an audio stream: three samples, then the end.
use gst_vk_video_parser.Prelude.{
  ℕ, ◌≡◌, ◌≢◌, refl, true, false, List, [], ◌∷◌, Option, none, some, length, replicate,
}
use gst_vk_video_parser.Demuxer.{
  video_type, audio_type, Sample, idle, new_demuxer, set_demuxer_state,
}
use gst_vk_video_parser.Demuxer.Caps.{get_type_from_pad, type_from_name}
use gst_vk_video_parser.Demuxer.Streams.{
  Pad, stream_create, pad_added, find_stream, find_best_stream,
}
use gst_vk_video_parser.Demuxer.Bus.{
  Event, adds_pad, no_more, error_message, eos_message, exit, other_message, on_event, no_more_pads,
  get_ready, demuxer_new,
}
use gst_vk_video_parser.Demuxer.Reading.{
  Object, stream_start, stream_group_done, other_event, sample, Packet, World, appsink_read_packet,
  read_loop, last_packet,
}
use gst_vk_video_parser.Demuxer.Order.{Tag, remaining, next, appsink_read_packet_lem}
use gst_vk_video_parser.Demuxer.Ending.{Open}
use gst_vk_video_parser.Demuxer.Session.{packets, read_loop_lem}
use gst_vk_video_parser.Demuxer.Waiting.{Answers, demuxer_new-Answers}
use gst_vk_video_parser.Demuxer.Ready.{some_round_settles}
use gst_vk_video_parser.Demuxer.Teardown.{Joined, bus_thread-Joined}
use gst_vk_video_parser.Demuxer.Best.{IsFirst, find_best_stream_lem}

abbrev video_pad : Pad
video_pad = record {
  is_src = true;
  caps = some (record {
    name = some "video/x-h264";
    bitrate = some 1000;
    profile = some "main";
    level = none;
  });
  stream_id = some "v";
}

abbrev audio_pad : Pad
audio_pad = record {
  is_src = true;
  caps = some (record { name = some "audio/x-aac"; bitrate = none; profile = none; level = none });
  stream_id = some "a";
}

abbrev buffer : ℕ → Sample
buffer n = some (record { bytes = n ∷ n ∷ []; pts = n; dts = n; duration = 1 })

abbrev objects : List Object
objects =
    stream_start "v"
    ∷ sample (buffer 1)
    ∷ stream_start "a"
    ∷ sample (buffer 2)
    ∷ other_event
    ∷ sample (buffer 3)
    ∷ stream_group_done
    ∷ []

abbrev pads : List Event
pads = adds_pad video_pad ∷ adds_pad audio_pad ∷ no_more ∷ []

abbrev start_world : World
start_world = record { demuxer = new_demuxer; objects = objects; packet_counter = 5 }

abbrev with_video : World
with_video = record start_world { demuxer = on_event new_demuxer (adds_pad video_pad) }

abbrev with_audio : World
with_audio = record start_world { demuxer = on_event with_video.demuxer (adds_pad audio_pad) }

abbrev opened : World
opened = record start_world { demuxer = on_event with_audio.demuxer no_more }

opened-Open : Open opened.demuxer opened.objects
unfolding on_event pad_added stream_create no_more_pads get_ready set_demuxer_state
opened-Open = record { state = refl; finishes = tt }

appsink_read_packet_lem_example :
    ◌≡◌ {A = Option Packet × List (Sample × Tag) × ℕ}
      (
        (appsink_read_packet opened).0,
        remaining (appsink_read_packet opened).1.demuxer (appsink_read_packet opened).1.objects,
        (appsink_read_packet opened).1.packet_counter,
      )
      (next 5 (remaining opened.demuxer opened.objects))
appsink_read_packet_lem_example = appsink_read_packet_lem opened

read_loop_lem_example :
    read_loop opened (replicate (length (remaining opened.demuxer opened.objects)) [])
    ≡ some (last_packet, packets 5 (remaining opened.demuxer opened.objects))
unfolding on_event pad_added stream_create no_more_pads get_ready set_demuxer_state find_stream
read_loop_lem_example = read_loop_lem opened opened-Open tt

-- What remains to be read is tagged as the events say.
opened-remaining :
    remaining opened.demuxer opened.objects
    ≡ (buffer 1, (0, video_type)) ∷ (buffer 2, (1, audio_type)) ∷ (buffer 3, (1, audio_type)) ∷ []
unfolding on_event pad_added stream_create no_more_pads get_ready set_demuxer_state find_stream
    get_type_from_pad type_from_name
opened-remaining = refl

abbrev first_packet : Packet
first_packet = record {
  bytes = 1 ∷ 1 ∷ [];
  data_size = 2;
  stream_type = video_type;
  stream_id = 0;
  packet_number = 5;
  pts = 1;
  dts = 1;
  duration = 1;
}

demuxer_new-Answers_example :
    (some_round_settles (pads ∷ []) ≡ true → Answers (pads ∷ []))
    × (some_round_settles (pads ∷ []) ≡ false → demuxer_new true (pads ∷ []) ≡ none)
demuxer_new-Answers_example = demuxer_new-Answers (pads ∷ [])

bus_thread-Joined_example :
    Joined opened.demuxer ((other_message ∷ []) ∷ (error_message ∷ exit ∷ eos_message ∷ []) ∷ [])
bus_thread-Joined_example =
    bus_thread-Joined opened.demuxer ((other_message ∷ []) ∷ []) (error_message ∷ [])
      (eos_message ∷ []) []

find_best_stream_lem_example :
    (opened.demuxer.state ≡ idle → find_best_stream (some opened.demuxer) audio_type ≡ none)
    × (opened.demuxer.state ≢ idle
        → IsFirst opened.demuxer.streams audio_type
            (find_best_stream (some opened.demuxer) audio_type))
find_best_stream_lem_example = find_best_stream_lem opened.demuxer audio_type
