-- ===== src/Demuxer/Bus.antt =====
-- The messages of the bus, the wait for the first state, and the end of the bus thread.
use gst_vk_video_parser.Prelude.{
  Bool, true, false, List, [], ◌∷◌, Option, none, some, if◌then◌else◌,
}
use gst_vk_video_parser.Demuxer.{
  Demuxer, State, idle, error, ready, eos, set_demuxer_state, new_demuxer,
}
use gst_vk_video_parser.Demuxer.Streams.{Pad, pad_added}

-- GstMessage as handle_bus_message reads it: `exit` is the element message "exit" from the pipeline.
pub data Message : Type 0 where
  error_message eos_message exit other_message : Message

-- handle_bus_message
unfoldable pub handle_bus_message : Demuxer → Message → Demuxer
unfolding set_demuxer_state
handle_bus_message d error_message = set_demuxer_state d error
handle_bus_message d eos_message = set_demuxer_state d eos
handle_bus_message d exit = record d { bus_exit = true }
handle_bus_message d other_message = d

-- check_for_bus_message takes the messages that are there, in order.
unfoldable pub check_for_bus_message : Demuxer → List Message → Demuxer
check_for_bus_message d [] = d
check_for_bus_message d (m ∷ ms) = check_for_bus_message (handle_bus_message d m) ms

-- check_for_bus_message_cb, the bus thread: it looks at the flag before each round. An element of the
-- list is what one round finds on the bus; `none` is a thread that still runs after them.
unfoldable pub bus_thread : Demuxer → List (List Message) → Option Demuxer
bus_thread d [] = if d.bus_exit then some d else none
bus_thread d (ms ∷ rounds) =
    let rest = bus_thread (check_for_bus_message d ms) rounds in if d.bus_exit then some d else rest

-- The test of uridecodebin_pad_no_more_pads and what follows.
unfoldable pub get_ready : State → Demuxer → Demuxer
get_ready idle d = set_demuxer_state d ready
get_ready _ d = d

-- uridecodebin_pad_no_more_pads
unfoldable pub no_more_pads : Demuxer → Demuxer
no_more_pads d = get_ready d.state d

-- What the other threads do while the application waits.
pub data Event : Type 0 where
  adds_pad : Pad → Event
  no_more : Event
  posts : Message → Event

unfoldable pub on_event : Demuxer → Event → Demuxer
on_event d (adds_pad pad) = pad_added d pad
on_event d no_more = no_more_pads d
on_event d (posts m) = handle_bus_message d m

unfoldable pub on_events : Demuxer → List Event → Demuxer
on_events d [] = d
on_events d (e ∷ es) = on_events (on_event d e) es

-- The answer to a state, if it ends the wait: `priv->state >= DEMUXER_ES_STATE_READY`.
abbrev pub answer : State → Option Bool
answer idle = none
answer error = some false
answer ready = some true
answer eos = some true

-- One look at the state: the wait ends, or goes on.
abbrev pub look : Option Bool → Demuxer → Option (Bool × Demuxer) → Option (Bool × Demuxer)
look none d rest = rest
look (some ok) d rest = some (ok, d)

-- wait_for_demuxer_ready. An element of the list is what happens between two looks at the state; the
-- outer `none` is a wait that has not ended after them.
unfoldable pub wait_for_demuxer_ready : Demuxer → List (List Event) → Option (Bool × Demuxer)
wait_for_demuxer_ready d [] = look (answer d.state) d none
wait_for_demuxer_ready d (es ∷ rounds) =
    look (answer d.state) d (wait_for_demuxer_ready (on_events d es) rounds)

-- The end of gst_demuxer_es_new: the demuxer, or `none` for the null pointer, where the wait ended.
abbrev pub finish_new : Option (Bool × Demuxer) → Option (Option Demuxer)
finish_new none = none
finish_new (some (true, d)) = some (some d)
finish_new (some (false, d)) = some none

-- gst_demuxer_es_new: `started` says that GStreamer and the pipeline start. The outer `none` is the
-- wait that has not ended.
unfoldable pub demuxer_new : Bool → List (List Event) → Option (Option Demuxer)
demuxer_new started rounds =
    if started then finish_new (wait_for_demuxer_ready new_demuxer rounds) else some none
