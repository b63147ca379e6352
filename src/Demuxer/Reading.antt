-- ===== src/Demuxer/Reading.antt =====
-- Reading packets: the objects that the appsink gives, tagged with the stream that the last stream-start
-- event named, and one sample read ahead.
use gst_vk_video_parser.Prelude.{ℕ, List, [], ◌∷◌, Option, none, some, String, length, add_u32}
use gst_vk_video_parser.Demuxer.{
  StreamType, Demuxer, Buffer, Sample, State, error, eos, set_demuxer_state,
}
use gst_vk_video_parser.Demuxer.Streams.{find_stream}
use gst_vk_video_parser.Demuxer.Bus.{Message, check_for_bus_message}

-- An object of the appsink: an event as appsink_handle_event tells them apart, a sample, or another
-- object.
pub data Object : Type 0 where
  stream_start : String → Object
  stream_group_done other_event other_object : Object
  sample : Sample → Object

-- GstDemuxerESPacket
pub record Packet : Type 0 where
  pub bytes : List ℕ
  pub data_size : ℕ
  pub stream_type : StreamType
  pub stream_id : ℕ
  pub packet_number : ℕ
  pub pts : ℕ
  pub dts : ℕ
  pub duration : ℕ

-- The demuxer, the objects that the appsink gives until it returns null, and the static counter.
pub record World : Type 0 where
  pub demuxer : Demuxer
  pub objects : List Object
  pub packet_counter : ℕ

-- The case GST_EVENT_STREAM_START of appsink_handle_event.
unfoldable pub start_stream : Demuxer → String → Demuxer
start_stream d stream_id = elim (find_stream d.streams stream_id) [
  | none ↦ d
  | some s ↦ record d { current_stream_id = s.id; current_stream_type = s.stream_type }
]

-- The first loop of appsink_read_packet: the sample, and the objects after it.
unfoldable pub pull_sample : Demuxer → List Object → Option Sample × Demuxer × List Object
unfolding start_stream set_demuxer_state
pull_sample d [] = (none, d, [])
pull_sample d (stream_start id ∷ os) = pull_sample (start_stream d id) os
pull_sample d (stream_group_done ∷ os) = pull_sample (set_demuxer_state d eos) os
pull_sample d (other_event ∷ os) = pull_sample d os
pull_sample d (other_object ∷ os) = pull_sample d os
pull_sample d (sample s ∷ os) = (some s, d, os)

-- The second loop: it ends at an event that is handled, or at a sample, which is kept.
unfoldable pub look_ahead : Demuxer → List Object → Demuxer × List Object
unfolding start_stream set_demuxer_state
look_ahead d [] = (d, [])
look_ahead d (stream_start id ∷ os) = (start_stream d id, os)
look_ahead d (stream_group_done ∷ os) = (set_demuxer_state d eos, os)
look_ahead d (other_event ∷ os) = look_ahead d os
look_ahead d (other_object ∷ os) = look_ahead d os
look_ahead d (sample s ∷ os) = (record d { pending_sample = some s }, os)

-- The first `if` of appsink_read_packet.
unfoldable pub take_sample : Demuxer → List Object → Option Sample × Demuxer × List Object
take_sample d os = elim d.pending_sample [
  | none ↦ pull_sample d os
  | some s ↦ (some s, record d { pending_sample = none }, os)
]

-- The packet of a buffer, by the demuxer's current stream.
unfoldable pub new_packet : ℕ × StreamType → ℕ → Buffer → Packet
new_packet current number b = record {
  bytes = b.bytes;
  data_size = length b.bytes;
  stream_type = current.1;
  stream_id = current.0;
  packet_number = number;
  pts = b.pts;
  dts = b.dts;
  duration = b.duration;
}

-- The second `if`: the packet, if there is a sample with a buffer, and the counter after it.
unfoldable pub make_packet : ℕ × StreamType → ℕ → Option Sample → Option Packet × ℕ
make_packet current counter (some (some b)) =
    (some (new_packet current counter b), add_u32 counter 1)
make_packet current counter (some none) = (none, counter)
make_packet current counter none = (none, counter)

abbrev pub current : Demuxer → ℕ × StreamType
current d = (d.current_stream_id, d.current_stream_type)

unfoldable pub appsink_read_packet : World → Option Packet × World
unfolding take_sample make_packet pull_sample look_ahead
appsink_read_packet w =
    let (s, d, os) = take_sample w.demuxer w.objects in
    let (packet, counter) = make_packet (current d) w.packet_counter s in
    let (d', os') = look_ahead d os in
    (packet, record { demuxer = d'; objects = os'; packet_counter = counter })

-- GstDemuxerESResult
pub data Result : Type 0 where
  new_packet_result last_packet no_packet error_result : Result

unfoldable pub result : State → Option Packet → Result
result state none = no_packet
result eos (some p) = last_packet
result _ (some p) = new_packet_result

-- The part of gst_demuxer_es_read_packet after the test for an error.
unfoldable pub read_next : World → Result × Option Packet × World
unfolding appsink_read_packet result
read_next w =
    let (packet, after) = appsink_read_packet w in
    (result after.demuxer.state packet, packet, after)

-- The test of gst_demuxer_es_read_packet for an error, and what follows.
unfoldable pub read_in_state : State → World → Result × Option Packet × World
read_in_state error w = (error_result, none, w)
read_in_state _ w = read_next w

-- gst_demuxer_es_read_packet, with the messages that are on the bus when it looks; the bus thread takes
-- none of them during the read. The packet is `none` where `*packet` is not written.
unfoldable pub read_packet : World → List Message → Result × Option Packet × World
read_packet w messages =
    let d = check_for_bus_message w.demuxer messages in
    read_in_state d.state (record w { demuxer = d })

abbrev pub with_packet :
    Option Packet → Option (Result × List Packet) → Option (Result × List Packet)
with_packet none rest = rest
with_packet (some p) none = none
with_packet (some p) (some (r, ps)) = some (r, p ∷ ps)

-- The body of the read loop of test/testdemuxeres.cpp, given what the rest of the loop answers.
abbrev pub go_on :
    Result → Option Packet → Option (Result × List Packet) → Option (Result × List Packet)
go_on new_packet_result packet rest = with_packet packet rest
go_on last_packet packet rest = with_packet packet (some (last_packet, []))
go_on no_packet packet rest = rest
go_on error_result packet rest = some (error_result, [])

-- The read loop: the result that ends it and the packets that it was given. An element of the list is
-- what is on the bus at one read; `none` is a loop that has not ended.
unfoldable pub read_loop : World → List (List Message) → Option (Result × List Packet)
read_loop w [] = none
read_loop w (messages ∷ rounds) =
    let (r, packet, after) = read_packet w messages in go_on r packet (read_loop after rounds)
