-- ===== src/Demuxer/Packets.antt =====
-- The stream that a packet is given to.
use gst_vk_video_parser.Prelude.{ℕ, List, [], ◌∷◌, Option, none, some}
use gst_vk_video_parser.Demuxer.{StreamType, Demuxer, Sample}
use gst_vk_video_parser.Demuxer.Reading.{Packet}
use gst_vk_video_parser.Demuxer.Order.{Tag}

abbrev tag_of : Packet → ℕ × StreamType
tag_of p = (p.stream_id, p.stream_type)

-- The stream of the sample that is read next.
abbrev pub front : List (Sample × Tag) → Option Tag
front [] = none
front ((s, tag) ∷ rest) = some tag
