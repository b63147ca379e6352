-- ===== src/Demuxer/Ending.antt =====
-- The end of a stream: which read says that its packet is the last one.
use gst_vk_video_parser.Prelude.{
  ◌≡◌, ◌≢◌, ◌⊎◌, refl, inl, inr, ◌∙◌, Bool, true, false, List, [], ◌∷◌, Option, none, some, String,
  Option-cases,
}
use gst_vk_video_parser.Demuxer.{Demuxer, Stream, Sample, eos, ready}
use gst_vk_video_parser.Demuxer.Streams.{find_stream}
use gst_vk_video_parser.Demuxer.Reading.{
  Object, stream_start, stream_group_done, other_event, other_object, sample, World, start_stream,
  pull_sample, look_ahead, take_sample, current, appsink_read_packet,
}
use gst_vk_video_parser.Demuxer.Order.{Tag, tagged, remaining, named}

abbrev pub HasNoSample : List Object → Type 0
HasNoSample [] = Unit
HasNoSample (sample s ∷ os) = ⊥
HasNoSample (stream_start id ∷ os) = HasNoSample os
HasNoSample (stream_group_done ∷ os) = HasNoSample os
HasNoSample (other_event ∷ os) = HasNoSample os
HasNoSample (other_object ∷ os) = HasNoSample os

-- The objects have one stream-group-done event before the end of their samples: it comes after the
-- last sample, with no stream-start event between the two. `follows` says that a sample was the last
-- of those before these objects.
abbrev pub Finishes : Bool → List Object → Type 0
Finishes follows [] = ⊥
Finishes follows (sample s ∷ os) = Finishes true os
Finishes follows (stream_start id ∷ os) = Finishes false os
Finishes true (stream_group_done ∷ os) = HasNoSample os
Finishes false (stream_group_done ∷ os) = ⊥
Finishes follows (other_event ∷ os) = Finishes follows os
Finishes follows (other_object ∷ os) = Finishes follows os

abbrev pub is_kept : Option Sample → Bool
is_kept none = false
is_kept (some s) = true

tagged-HasNoSample :
    (streams : List Stream) (tag : Tag) (os : List Object)
    → HasNoSample os
    → tagged streams tag os ≡ []
tagged-HasNoSample streams tag [] h = refl
tagged-HasNoSample streams tag (sample s ∷ os) h = absurd h
tagged-HasNoSample streams tag (stream_start id ∷ os) h =
    tagged-HasNoSample streams (named streams tag id) os h
tagged-HasNoSample streams tag (stream_group_done ∷ os) h = tagged-HasNoSample streams tag os h
tagged-HasNoSample streams tag (other_event ∷ os) h = tagged-HasNoSample streams tag os h
tagged-HasNoSample streams tag (other_object ∷ os) h = tagged-HasNoSample streams tag os h

tagged-Finishes :
    (streams : List Stream) (tag : Tag) (os : List Object)
    → Finishes false os
    → tagged streams tag os ≢ []
tagged-Finishes streams tag [] h = absurd h
tagged-Finishes streams tag (sample s ∷ os) h = λ e. cc
tagged-Finishes streams tag (stream_start id ∷ os) h =
    tagged-Finishes streams (named streams tag id) os h
tagged-Finishes streams tag (stream_group_done ∷ os) h = absurd h
tagged-Finishes streams tag (other_event ∷ os) h = tagged-Finishes streams tag os h
tagged-Finishes streams tag (other_object ∷ os) h = tagged-Finishes streams tag os h

-- The demuxer before the event, and after it with nothing left to read.
pub record Open (d : Demuxer) (os : List Object) : Type 0 where
  pub state : d.state ≡ ready
  pub finishes : Finishes (is_kept d.pending_sample) os

pub record Closed (d : Demuxer) (os : List Object) : Type 0 where
  pub state : d.state ≡ eos
  pub nothing : remaining d os ≡ []

pub Open-remaining : (d : Demuxer) (os : List Object) → Open d os → remaining d os ≢ []
Open-remaining d os o = elim (Option-cases d.pending_sample) [
  | inl free ↦ rw free (tagged-Finishes d.streams (current d) os (rw free at o.finishes))
  | inr (s, has) ↦ rw has (λ e. cc)
]

pub record Same (d d' : Demuxer) : Type 0 where
  pub state : d'.state ≡ d.state
  pub pending : d'.pending_sample ≡ d.pending_sample

pub start_stream-Same : (d : Demuxer) (id : String) → Same d (start_stream d id)
unfolding start_stream
start_stream-Same d id = elim (Option-cases (find_stream d.streams id)) [
  | inl e ↦ rw (e, start_stream) (record { state = refl; pending = refl })
  | inr (s, e) ↦ rw (e, start_stream) (record { state = refl; pending = refl })
]

look_ahead-Finishes :
    (d : Demuxer) (os : List Object)
    → d.state ≡ ready
    → d.pending_sample ≡ none
    → Finishes true os
    → Open (look_ahead d os).0 (look_ahead d os).1 ⊎ Closed (look_ahead d os).0 (look_ahead d os).1
unfolding look_ahead
look_ahead-Finishes d [] state free h = absurd h
look_ahead-Finishes d (stream_start id ∷ os) state free h =
    let s = start_stream-Same d id in
    inl (record { state = s.state ∙ state; finishes = rw (s.pending ∙ free) h })
look_ahead-Finishes d (stream_group_done ∷ os) state free h =
    inr (record { state = refl; nothing = rw free (tagged-HasNoSample d.streams (current d) os h) })
look_ahead-Finishes d (other_event ∷ os) state free h = look_ahead-Finishes d os state free h
look_ahead-Finishes d (other_object ∷ os) state free h = look_ahead-Finishes d os state free h
look_ahead-Finishes d (sample s ∷ os) state free h = inl (record { state = state; finishes = h })

-- After the sample of a read is taken.
record Taken (s : Option Sample) (d : Demuxer) (os : List Object) : Type 0 where
  state : d.state ≡ ready
  free : d.pending_sample ≡ none
  finishes : Finishes true os

pull_sample-Taken :
    (d : Demuxer) (os : List Object)
    → d.state ≡ ready
    → d.pending_sample ≡ none
    → Finishes false os
    → Taken (pull_sample d os).0 (pull_sample d os).1 (pull_sample d os).2
unfolding pull_sample
pull_sample-Taken d [] state free h = absurd h
pull_sample-Taken d (stream_start id ∷ os) state free h =
    let s = start_stream-Same d id in
    pull_sample-Taken (start_stream d id) os (s.state ∙ state) (s.pending ∙ free) h
pull_sample-Taken d (stream_group_done ∷ os) state free h = absurd h
pull_sample-Taken d (other_event ∷ os) state free h = pull_sample-Taken d os state free h
pull_sample-Taken d (other_object ∷ os) state free h = pull_sample-Taken d os state free h
pull_sample-Taken d (sample s ∷ os) state free h = record {
  state = state;
  free = free;
  finishes = h;
}

take_sample-Taken :
    (d : Demuxer) (os : List Object)
    → Open d os
    → Taken (take_sample d os).0 (take_sample d os).1 (take_sample d os).2
unfolding take_sample
take_sample-Taken d os o = elim (Option-cases d.pending_sample) [
  | inl free ↦ rw (free, take_sample) (pull_sample-Taken d os o.state free (rw free at o.finishes))
  | inr (s, has) ↦
      rw (has, take_sample)
        (record { state = o.state; free = refl; finishes = rw has at o.finishes })
]

-- One read leaves the demuxer before the event, or after it with nothing left to read.
pub appsink_read_packet-Open :
    (w : World)
    → Open w.demuxer w.objects
    → (let after = (appsink_read_packet w).1 in
        Open after.demuxer after.objects ⊎ Closed after.demuxer after.objects)
unfolding appsink_read_packet
appsink_read_packet-Open w o =
    let t = take_sample-Taken w.demuxer w.objects o in
    look_ahead-Finishes (take_sample w.demuxer w.objects).1 (take_sample w.demuxer w.objects).2
      t.state t.free t.finishes
