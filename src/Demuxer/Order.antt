-- ===== src/Demuxer/Order.antt =====
-- What the reads give, in order: the samples of the appsink, each tagged with its stream.
use gst_vk_video_parser.Prelude.{
  ℕ, ◌≡◌, refl, inl, inr, ap, ap₂, ◌∙◌, sym, List, [], ◌∷◌, Option, none, some, String, add_u32,
  Option-cases,
}
use gst_vk_video_parser.Demuxer.{StreamType, Demuxer, Stream, Sample, eos}
use gst_vk_video_parser.Demuxer.Streams.{find_stream}
use gst_vk_video_parser.Demuxer.Reading.{
  Object, stream_start, stream_group_done, other_event, other_object, sample, Packet, World,
  start_stream, pull_sample, look_ahead, take_sample, new_packet, make_packet, current,
  appsink_read_packet,
}

-- The number and the type of a stream.
abbrev pub Tag : Type 0
Tag = ℕ × StreamType

-- The stream that a stream-start event names, if it is known; else the stream stays.
abbrev pub named : List Stream → Tag → String → Tag
named streams tag id = elim (find_stream streams id) [ none ↦ tag | some s ↦ (s.id, s.stream_type) ]

-- The samples among the objects, each with the stream that was named last before it.
abbrev pub tagged : List Stream → Tag → List Object → List (Sample × Tag)
tagged streams tag [] = []
tagged streams tag (stream_start id ∷ os) = tagged streams (named streams tag id) os
tagged streams tag (stream_group_done ∷ os) = tagged streams tag os
tagged streams tag (other_event ∷ os) = tagged streams tag os
tagged streams tag (other_object ∷ os) = tagged streams tag os
tagged streams tag (sample s ∷ os) = (s, tag) ∷ tagged streams tag os

-- What is still to be read: the sample that was kept, then those of the objects.
abbrev pub kept : Option Sample → Tag → List (Sample × Tag) → List (Sample × Tag)
kept none tag rest = rest
kept (some s) tag rest = (s, tag) ∷ rest

abbrev pub remaining : Demuxer → List Object → List (Sample × Tag)
remaining d os = kept d.pending_sample (current d) (tagged d.streams (current d) os)

-- What one read should give: the packet of the first sample that remains, numbered by the counter, the
-- samples after it, and the counter after it, which a sample without a buffer leaves as it is.
abbrev pub next : ℕ → List (Sample × Tag) → Option Packet × List (Sample × Tag) × ℕ
next counter [] = (none, [], counter)
next counter ((none, tag) ∷ rest) = (none, rest, counter)
next counter ((some b, tag) ∷ rest) = (some (new_packet tag counter b), rest, add_u32 counter 1)

-- What a stream-start event changes.
pub record Starts (d d' : Demuxer) (id : String) : Type 0 where
  pub tag : current d' ≡ named d.streams (current d) id
  pub streams : d'.streams ≡ d.streams
  pub pending : d'.pending_sample ≡ d.pending_sample

pub start_stream-Starts : (d : Demuxer) (id : String) → Starts d (start_stream d id) id
unfolding start_stream
start_stream-Starts d id = elim (Option-cases (find_stream d.streams id)) [
  | inl e ↦
      rw (e, start_stream) (record { tag = rw (e, named) refl; streams = refl; pending = refl })
  | inr (s, e) ↦
      rw (e, start_stream) (record { tag = rw (e, named) refl; streams = refl; pending = refl })
]

remaining-start :
    (d : Demuxer) (id : String) (os : List Object)
    → d.pending_sample ≡ none
    → remaining (start_stream d id) os ≡ tagged d.streams (named d.streams (current d) id) os
remaining-start d id os free =
    let s = start_stream-Starts d id in
    ap
      (λ p.
        kept p (current (start_stream d id))
          (tagged (start_stream d id).streams (current (start_stream d id)) os))
      (s.pending ∙ free)
    ∙ ap₂ (λ ss t. tagged ss t os) s.streams s.tag

look_ahead-remaining :
    (d : Demuxer) (os : List Object)
    → d.pending_sample ≡ none
    → remaining (look_ahead d os).0 (look_ahead d os).1 ≡ tagged d.streams (current d) os
unfolding look_ahead
look_ahead-remaining d [] free = rw free refl
look_ahead-remaining d (stream_start id ∷ os) free = remaining-start d id os free
look_ahead-remaining d (stream_group_done ∷ os) free = rw free refl
look_ahead-remaining d (other_event ∷ os) free = look_ahead-remaining d os free
look_ahead-remaining d (other_object ∷ os) free = look_ahead-remaining d os free
look_ahead-remaining d (sample s ∷ os) free = refl

-- A sample is taken off the front of what remains; with none, nothing remains.
record Takes (items : List (Sample × Tag)) (s : Option Sample) (d : Demuxer) (os : List Object)
    : Type 0 where
  free : d.pending_sample ≡ none
  first : items ≡ kept s (current d) (tagged d.streams (current d) os)

pull_sample-Takes :
    (d : Demuxer) (os : List Object)
    → d.pending_sample ≡ none
    → Takes
        (tagged d.streams (current d) os)
        (pull_sample d os).0
        (pull_sample d os).1
        (pull_sample d os).2
unfolding pull_sample
pull_sample-Takes d [] free = record { free = free; first = refl }
pull_sample-Takes d (stream_start id ∷ os) free =
    let s = start_stream-Starts d id in
    let rest = pull_sample-Takes (start_stream d id) os (s.pending ∙ free) in
    record {
      free = rest.free;
      first = ap₂ (λ ss t. tagged ss t os) (sym s.streams) (sym s.tag) ∙ rest.first;
    }
pull_sample-Takes d (stream_group_done ∷ os) free =
    pull_sample-Takes (record d { state = eos }) os free
pull_sample-Takes d (other_event ∷ os) free = pull_sample-Takes d os free
pull_sample-Takes d (other_object ∷ os) free = pull_sample-Takes d os free
pull_sample-Takes d (sample s ∷ os) free = record { free = free; first = refl }

take_sample-Takes :
    (d : Demuxer) (os : List Object)
    → Takes (remaining d os) (take_sample d os).0 (take_sample d os).1 (take_sample d os).2
unfolding take_sample
take_sample-Takes d os = elim (Option-cases d.pending_sample) [
  | inl e ↦ rw (e, take_sample) (pull_sample-Takes d os e)
  | inr (s, e) ↦ rw (e, take_sample) (record { free = refl; first = refl })
]

make_packet-next :
    (s : Option Sample) (tag : Tag) (rest : List (Sample × Tag)) (counter : ℕ)
    → (s ≡ none → rest ≡ [])
    → ◌≡◌ {A = Option Packet × List (Sample × Tag) × ℕ}
        ((make_packet tag counter s).0, rest, (make_packet tag counter s).1)
        (next counter (kept s tag rest))
unfolding make_packet
make_packet-next none tag rest counter done = rw (done refl) refl
make_packet-next (some none) tag rest counter done = refl
make_packet-next (some (some b)) tag rest counter done = refl

pull_sample_ends :
    (d : Demuxer) (os : List Object) → (pull_sample d os).0 ≡ none → (pull_sample d os).2 ≡ []
unfolding pull_sample
pull_sample_ends d [] e = refl
pull_sample_ends d (stream_start id ∷ os) e = pull_sample_ends (start_stream d id) os e
pull_sample_ends d (stream_group_done ∷ os) e = pull_sample_ends (record d { state = eos }) os e
pull_sample_ends d (other_event ∷ os) e = pull_sample_ends d os e
pull_sample_ends d (other_object ∷ os) e = pull_sample_ends d os e
pull_sample_ends d (sample s ∷ os) e = absurd (cc)

take_sample_ends :
    (d : Demuxer) (os : List Object) → (take_sample d os).0 ≡ none → (take_sample d os).2 ≡ []
unfolding take_sample
take_sample_ends d os e = elim (Option-cases d.pending_sample) [
  | inl free ↦ rw (free, take_sample) (pull_sample_ends d os (rw (free, take_sample) at e))
  | inr (s, has) ↦ absurd (cc)
]

-- One read gives the packet of the first sample that remains, and leaves the samples after it: none is
-- lost, doubled or given to another stream than the one named last before it.
pub appsink_read_packet_lem :
    (w : World)
    → (let (packet, after) = appsink_read_packet w in
        ◌≡◌ {A = Option Packet × List (Sample × Tag) × ℕ}
          (packet, remaining after.demuxer after.objects, after.packet_counter)
          (next w.packet_counter (remaining w.demuxer w.objects)))
unfolding appsink_read_packet
appsink_read_packet_lem w =
    let s = (take_sample w.demuxer w.objects).0 in
    let d = (take_sample w.demuxer w.objects).1 in
    let os = (take_sample w.demuxer w.objects).2 in
    let t = take_sample-Takes w.demuxer w.objects in
    let rest = tagged d.streams (current d) os in
    let ends : s ≡ none → rest ≡ [] = λ e. rw (take_sample_ends w.demuxer w.objects e) refl in
    ap
      (λ r. (
        (make_packet (current d) w.packet_counter s).0,
        r,
        (make_packet (current d) w.packet_counter s).1,
      ))
      (look_ahead-remaining d os t.free)
    ∙ make_packet-next s (current d) rest w.packet_counter ends
    ∙ ap (next w.packet_counter) (sym t.first)
