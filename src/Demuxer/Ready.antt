-- ===== src/Demuxer/Ready.antt =====
-- Which events change the state of the demuxer, and how far.
use gst_vk_video_parser.Prelude.{
  ◌≡◌, ◌≢◌, ◌⊎◌, refl, inl, inr, ◌∙◌, sym, Bool, true, false, ◌||◌, List, [], ◌∷◌, Bool-cases,
  Option-cases,
}
use gst_vk_video_parser.Demuxer.{Demuxer, State, idle, error, ready, eos, set_demuxer_state}
use gst_vk_video_parser.Demuxer.Streams.{Pad, stream_create, pad_added}
use gst_vk_video_parser.Demuxer.Bus.{
  Event, adds_pad, no_more, posts, error_message, eos_message, exit, other_message,
  handle_bus_message, no_more_pads, get_ready, on_event, on_events,
}

-- The events that end the wait: no more pads, an error, or the end of the stream.
abbrev pub settles : Event → Bool
settles (adds_pad pad) = false
settles no_more = true
settles (posts error_message) = true
settles (posts eos_message) = true
settles (posts exit) = false
settles (posts other_message) = false

abbrev pub any_settles : List Event → Bool
any_settles [] = false
any_settles (e ∷ es) = settles e || any_settles es

abbrev pub some_round_settles : List (List Event) → Bool
some_round_settles [] = false
some_round_settles (es ∷ rounds) = any_settles es || some_round_settles rounds

pad_added-state : (d : Demuxer) (pad : Pad) → (pad_added d pad).state ≡ d.state
unfolding pad_added stream_create
pad_added-state d pad = elim (Bool-cases pad.is_src) [
  | inr sink ↦ rw (sink, pad_added) refl
  | inl src ↦ elim (Option-cases pad.caps) [
    | inl no_caps ↦ rw (src, no_caps, pad_added) refl
    | inr (s, caps) ↦ rw (src, caps, pad_added) refl
  ]
]

get_ready_settles : (s : State) (d : Demuxer) → d.state ≡ s → (get_ready s d).state ≢ idle
unfolding get_ready set_demuxer_state
get_ready_settles idle d e = λ h. cc
get_ready_settles error d e = λ h. cc
get_ready_settles ready d e = λ h. cc
get_ready_settles eos d e = λ h. cc

pub on_event-settled :
    (d : Demuxer) (e : Event) → (d.state ≢ idle) ⊎ (settles e ≡ true) → (on_event d e).state ≢ idle
unfolding on_event no_more_pads handle_bus_message set_demuxer_state
on_event-settled d (adds_pad pad) (inl h) = λ e. h (sym (pad_added-state d pad) ∙ e)
on_event-settled d (adds_pad pad) (inr h) = absurd (cc)
on_event-settled d no_more h = get_ready_settles d.state d refl
on_event-settled d (posts error_message) h = λ e. cc
on_event-settled d (posts eos_message) h = λ e. cc
on_event-settled d (posts exit) (inl h) = h
on_event-settled d (posts exit) (inr h) = absurd (cc)
on_event-settled d (posts other_message) (inl h) = h
on_event-settled d (posts other_message) (inr h) = absurd (cc)

pub on_event-quiet : (d : Demuxer) (e : Event) → settles e ≡ false → (on_event d e).state ≡ d.state
unfolding on_event handle_bus_message
on_event-quiet d (adds_pad pad) h = pad_added-state d pad
on_event-quiet d no_more h = absurd (cc)
on_event-quiet d (posts error_message) h = absurd (cc)
on_event-quiet d (posts eos_message) h = absurd (cc)
on_event-quiet d (posts exit) h = refl
on_event-quiet d (posts other_message) h = refl

pub on_events-settled :
    (d : Demuxer) (es : List Event)
    → (d.state ≢ idle) ⊎ (any_settles es ≡ true)
    → (on_events d es).state ≢ idle
unfolding on_events
on_events-settled d [] (inl h) = h
on_events-settled d [] (inr h) = absurd (cc)
on_events-settled d (e ∷ es) (inl h) =
    on_events-settled (on_event d e) es (inl (on_event-settled d e (inl h)))
on_events-settled d (e ∷ es) (inr h) = elim (Bool-cases (settles e)) [
  | inl now ↦ on_events-settled (on_event d e) es (inl (on_event-settled d e (inr now)))
  | inr later ↦ on_events-settled (on_event d e) es (inr (rw later at h))
]

pub on_events-quiet :
    (d : Demuxer) (es : List Event) → any_settles es ≡ false → (on_events d es).state ≡ d.state
unfolding on_events
on_events-quiet d [] h = refl
on_events-quiet d (e ∷ es) h = elim (Bool-cases (settles e)) [
  | inl now ↦ absurd (true_false (rw now at h))
  | inr later ↦ on_events-quiet (on_event d e) es (rw later at h) ∙ on_event-quiet d e later
]
  where
    true_false : true ≡ false → ⊥
    true_false x = cc
