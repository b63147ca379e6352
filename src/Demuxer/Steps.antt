-- ===== src/Demuxer/Steps.antt =====
-- A demuxer under everything that can happen to it: pads and messages from GStreamer's threads, and
-- reads by the application.
use gst_vk_video_parser.Prelude.{ℕ, refl, inl, inr, List, Option-cases, Bool-cases}
use gst_vk_video_parser.Demuxer.{
  Demuxer, State, idle, error, ready, eos, new_demuxer, set_demuxer_state,
}
use gst_vk_video_parser.Demuxer.Streams.{Pad, stream_create, pad_added}
use gst_vk_video_parser.Demuxer.Bus.{
  Event, adds_pad, no_more, posts, Message, no_more_pads, get_ready, on_event,
  check_for_bus_message,
}
use gst_vk_video_parser.Demuxer.Reading.{
  Object, World, take_sample, current, appsink_read_packet, read_next, read_in_state, read_packet,
}
use gst_vk_video_parser.Demuxer.Ids.{
  IsConsistent, IsConsistent-same, IsOf-append, AreNumbered-append, handle_bus_message-IsConsistent,
  check_for_bus_message-IsConsistent, take_sample-IsConsistent, look_ahead-IsConsistent,
}

-- One step of a demuxer and its appsink.
pub data Step : World → World → Type 0 where
  happens : (w : World) (e : Event) → Step w (record w { demuxer = on_event w.demuxer e })
  reads : (w : World) (messages : List Message) → Step w (read_packet w messages).2

-- What can become of a new demuxer, whatever its appsink gives and wherever the counter stands.
pub data Reachable : World → Type 0 where
  created :
      (os : List Object) (n : ℕ)
      → Reachable (record { demuxer = new_demuxer; objects = os; packet_counter = n })
  after : (w w' : World) → Reachable w → Step w w' → Reachable w'

pad_added-IsConsistent : (d : Demuxer) (pad : Pad) → IsConsistent d → IsConsistent (pad_added d pad)
unfolding pad_added stream_create
pad_added-IsConsistent d pad c = elim (Bool-cases pad.is_src) [
  | inr sink ↦ rw (sink, pad_added) c
  | inl src ↦ elim (Option-cases pad.caps) [
    | inl no_caps ↦ rw (src, no_caps, pad_added) c
    | inr (s, caps) ↦
        rw (src, caps, pad_added)
          (record {
            numbered = AreNumbered-append d.streams _ c.numbered refl;
            tag = IsOf-append d.streams _ (current d) c.tag;
          })
  ]
]

get_ready-IsConsistent : (s : State) (d : Demuxer) → IsConsistent d → IsConsistent (get_ready s d)
unfolding get_ready set_demuxer_state
get_ready-IsConsistent idle d c = IsConsistent-same d _ refl refl c
get_ready-IsConsistent error d c = c
get_ready-IsConsistent ready d c = c
get_ready-IsConsistent eos d c = c

on_event-IsConsistent : (d : Demuxer) (e : Event) → IsConsistent d → IsConsistent (on_event d e)
unfolding on_event no_more_pads
on_event-IsConsistent d (adds_pad pad) c = pad_added-IsConsistent d pad c
on_event-IsConsistent d no_more c = get_ready-IsConsistent d.state d c
on_event-IsConsistent d (posts m) c = handle_bus_message-IsConsistent d m c

read_next-IsConsistent : (w : World) → IsConsistent w.demuxer → IsConsistent (read_next w).2.demuxer
unfolding read_next appsink_read_packet
read_next-IsConsistent w c =
    look_ahead-IsConsistent (take_sample w.demuxer w.objects).1 (take_sample w.demuxer w.objects).2
      (take_sample-IsConsistent w.demuxer w.objects c)

pub read_in_state-IsConsistent :
    (s : State) (w : World) → IsConsistent w.demuxer → IsConsistent (read_in_state s w).2.demuxer
unfolding read_in_state
read_in_state-IsConsistent error w c = c
read_in_state-IsConsistent idle w c = read_next-IsConsistent w c
read_in_state-IsConsistent ready w c = read_next-IsConsistent w c
read_in_state-IsConsistent eos w c = read_next-IsConsistent w c

read_packet-IsConsistent :
    (w : World) (messages : List Message)
    → IsConsistent w.demuxer
    → IsConsistent (read_packet w messages).2.demuxer
unfolding read_packet
read_packet-IsConsistent w messages c =
    let d = check_for_bus_message w.demuxer messages in
    read_in_state-IsConsistent d.state (record w { demuxer = d })
      (check_for_bus_message-IsConsistent w.demuxer messages c)

-- In every reachable demuxer each stream's number is its position in the list, and the current number
-- and type are those of a stream in the list, or 0 and the unknown type.
pub Reachable-IsConsistent : (w : World) → Reachable w → IsConsistent w.demuxer
Reachable-IsConsistent _ (created os n) = record { numbered = λ k s e. absurd (cc); tag = inl refl }
Reachable-IsConsistent _ (after w _ r (happens _ e)) =
    on_event-IsConsistent w.demuxer e (Reachable-IsConsistent w r)
Reachable-IsConsistent _ (after w _ r (reads _ messages)) =
    read_packet-IsConsistent w messages (Reachable-IsConsistent w r)
