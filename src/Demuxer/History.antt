-- ===== src/Demuxer/History.antt =====
-- The stream that was named last: a replay of the stream-start events among the objects that were read.
use gst_vk_video_parser.Prelude.{Option, none, some, ℕ, ◌≡◌, List, [], ◌∷◌, ◌++◌}
use gst_vk_video_parser.Demuxer.{unknown_type, Demuxer, Stream, Sample, new_demuxer}
use gst_vk_video_parser.Demuxer.Bus.{Message, Event, on_event}
use gst_vk_video_parser.Demuxer.Reading.{
  Object, stream_start, stream_group_done, other_event, other_object, sample, World, pull_sample,
  current, read_packet,
}
use gst_vk_video_parser.Demuxer.Order.{Tag, named}

-- The stream after these objects.
abbrev pub last_named : List Stream → Tag → List Object → Tag
last_named streams tag [] = tag
last_named streams tag (stream_start id ∷ os) = last_named streams (named streams tag id) os
last_named streams tag (stream_group_done ∷ os) = last_named streams tag os
last_named streams tag (other_event ∷ os) = last_named streams tag os
last_named streams tag (other_object ∷ os) = last_named streams tag os
last_named streams tag (sample s ∷ os) = last_named streams tag os

-- The objects that a step takes, and the stream after them.
record Consumes (d : Demuxer) (os : List Object) (d' : Demuxer) (os' : List Object) : Type 0 where
  consumed : List Object
  objects : os ≡ consumed ++ os'
  tag : current d' ≡ last_named d.streams (current d) consumed
  streams : d'.streams ≡ d.streams

-- take_sample by the sample that is kept.
abbrev taken : Demuxer → List Object → Option Sample → Option Sample × Demuxer × List Object
taken d os none = pull_sample d os
taken d os (some s) = (some s, record d { pending_sample = none }, os)

-- What a message leaves.
record Leaves (d d' : Demuxer) : Type 0 where
  tag : current d' ≡ current d
  streams : d'.streams ≡ d.streams

-- The stream that was named last, by what happened: the events do not name one, and a read takes a front
-- part of the objects.
pub data Named : World → Tag → Type 0 where
  new :
      (os : List Object) (n : ℕ)
      → Named (record { demuxer = new_demuxer; objects = os; packet_counter = n }) (0, unknown_type)
  event :
      (w : World) (e : Event) (tag : Tag)
      → Named w tag
      → Named (record w { demuxer = on_event w.demuxer e }) tag
  read :
      (w : World) (messages : List Message) (tag : Tag) (consumed : List Object)
      → Named w tag
      → w.objects ≡ consumed ++ (read_packet w messages).2.objects
      → Named (read_packet w messages).2 (last_named w.demuxer.streams tag consumed)
