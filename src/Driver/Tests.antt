-- ===== src/Driver/Tests.antt =====
-- Tests of the read loops: a demuxer with two samples, a parser that keeps its packets, and one over a
-- pipeline that counts its bytes.
use gst_vk_video_parser.Prelude.{
  ℕ, ◌+◌, ◌≡◌, refl, Bool, true, false, not, List, [], ◌∷◌, Option, some, length, replicate,
  if◌then◌else◌, arith,
}
use gst_vk_video_parser.Demuxer.{Sample, ready, new_demuxer}
use gst_vk_video_parser.Demuxer.Reading.{new_packet, stream_group_done, sample, World, last_packet}
use gst_vk_video_parser.Demuxer.Order.{remaining}
use gst_vk_video_parser.Demuxer.Session.{packets}
use gst_vk_video_parser.Demuxer.Ending.{Open}
use gst_vk_video_parser.Parser.{BitstreamPacket, DecoderParser}
use gst_vk_video_parser.Parser.Pipeline.{Gstreamer, decode_h264, flow_ok, VideoParser}
use gst_vk_video_parser.Driver.{ended, running, drive}
use gst_vk_video_parser.Driver.Feeding.{drive_lem}
use gst_vk_video_parser.Driver.Chunks.{finished, feed_file, feed_file_lem}
use gst_vk_video_parser.Driver.Parsing.{parse_packet, Playing, Answers, drive_parser}

abbrev buffer : ℕ → Sample
buffer n = some (record { bytes = n ∷ n ∷ []; pts = n; dts = n; duration = 1 })

abbrev world : World
world = record {
  demuxer = record new_demuxer { state = ready };
  objects = sample (buffer 1) ∷ sample (buffer 2) ∷ stream_group_done ∷ [];
  packet_counter = 0;
}

world-Open : Open world.demuxer world.objects
world-Open = record { state = refl; finishes = tt }

-- A parser that keeps its packets, and refuses the end of the stream if it is told to.
abbrev keep : Bool → List BitstreamPacket → BitstreamPacket → Option (Bool × List BitstreamPacket)
keep refuses s p = some (if refuses then not p.eos else true, p ∷ s)

abbrev packet_of : ℕ → Bool → BitstreamPacket
packet_of n eos = record { byte_stream = n ∷ n ∷ []; data_length = 2; eos = eos }

drive_lem_example :
    drive (keep false) world [] ([] ∷ [] ∷ [] ∷ [])
    ≡ ended last_packet (packet_of 2 true ∷ packet_of 1 false ∷ [])
unfolding new_packet
drive_lem_example =
    drive_lem (keep false) world [] 1 world-Open tt (ground arith, (ground arith, tt))

-- The last packet is refused.
runs_on : drive (keep true) world [] (replicate 9 []) ≡ running
unfolding new_packet
runs_on = drive_lem (keep true) world [] 7 world-Open tt (ground arith, (ground arith, tt))

-- A file of two full pieces of three bytes, with a tail and without.
abbrev keep_all : List BitstreamPacket → BitstreamPacket → Option (Bool × ℕ × List BitstreamPacket)
keep_all s p = some (true, p.data_length, p ∷ s)

abbrev piece_of : List ℕ → Bool → BitstreamPacket
piece_of bytes eos = record { byte_stream = bytes; data_length = length bytes; eos = eos }

without_end :
    feed_file 3 keep_all 3 (1 ∷ 2 ∷ 3 ∷ []) [] ≡ finished (piece_of (1 ∷ 2 ∷ 3 ∷ []) false ∷ [])
without_end =
    feed_file_lem 3 keep_all ((1 ∷ 2 ∷ 3 ∷ []) ∷ []) [] [] (ground arith) (refl, tt) (ground arith)

abbrev counting : Gstreamer
counting = record {
  Harness = ℕ;
  init_check = true;
  has_decoder = λ _. true;
  links = λ _. true;
  new_harness = λ _ _ _. 0;
  push = λ h bytes. (flow_ok, [], h + length bytes);
  push_eos = λ h. (true, [], h);
}

abbrev video : VideoParser counting
video = record {
  user_data = 7;
  codec = decode_h264;
  oob_pic_params = true;
  playing = some (record { harness = 0; bus = [] });
}

abbrev playing_parser : DecoderParser counting
playing_parser = record { ref_count = 1; codec = decode_h264; parser = some video }

abbrev parser-Playing : Playing counting playing_parser
parser-Playing = record {
  video = video;
  harness = 0;
  has = refl;
  plays = record {
    state = record { harness = 0; bus = [] };
    is_playing = refl;
    has_harness = refl;
  };
}

drive_parser_example :
    Answers counting playing_parser
      (packets 0 (remaining world.demuxer world.objects))
      (drive (parse_packet counting) world playing_parser ([] ∷ [] ∷ [] ∷ []))
unfolding new_packet
drive_parser_example =
    drive_parser counting world playing_parser 1 parser-Playing world-Open tt
      (ground arith, (ground arith, tt))
