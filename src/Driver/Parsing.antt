-- ===== src/Driver/Parsing.antt =====
-- The read loop over the parser object of the library.
use gst_vk_video_parser.Prelude.{
  ℕ, ◌≡◌, refl, ap, ◌∙◌, Bool, true, false, List, [], ◌∷◌, ◌++◌, Option, none, some, length,
  replicate, if◌then◌else◌,
}
use gst_vk_video_parser.Demuxer.Reading.{Packet, World, last_packet}
use gst_vk_video_parser.Demuxer.Order.{remaining}
use gst_vk_video_parser.Demuxer.Ending.{Open}
use gst_vk_video_parser.Demuxer.Session.{packets, EndsWithBuffer}
use gst_vk_video_parser.Parser.{BitstreamPacket, DecoderParser, parse_byte_stream}
use gst_vk_video_parser.Parser.Pipeline.{Gstreamer, VideoParser}
use gst_vk_video_parser.Parser.Parse.{Plays, parse_byte_stream_lem}
use gst_vk_video_parser.Driver.{as_bitstream, Driven, ended, running, drive}
use gst_vk_video_parser.Driver.Feeding.{AreSmall, go_on_with, feed, outcome, drive_lem}

module _ (g : Gstreamer) where
  -- ParseByteStream, without the number of bytes that it writes to `parsed`.
  abbrev pub without_count : Option (Bool × ℕ × DecoderParser g) → Option (Bool × DecoderParser g)
  without_count none = none
  without_count (some (ok, n, d)) = some (ok, d)

  unfoldable pub parse_packet : DecoderParser g → BitstreamPacket → Option (Bool × DecoderParser g)
  parse_packet d packet = without_count (parse_byte_stream g d packet)

  -- A parser whose pipeline plays.
  pub record Playing (d : DecoderParser g) : Type 0 where
    pub video : VideoParser g
    pub harness : g.Harness
    pub has : d.parser ≡ some video
    pub plays : Plays g video harness

  -- A packet that is parsed leaves such a parser.
  record Parses (d : DecoderParser g) (packet : BitstreamPacket) : Type 0 where
    ok : Bool
    after : DecoderParser g
    result : parse_packet d packet ≡ some (ok, after)
    playing : Playing after

  parse_packet-Parses :
      (d : DecoderParser g) (packet : BitstreamPacket) → Playing d → Parses d packet
  unfolding parse_packet
  parse_packet-Parses d packet p =
      let r = parse_byte_stream_lem g d p.video packet p.harness p.has p.plays in
      record {
        ok = _;
        after = record d { parser = some r.video };
        result = ap without_count r.result;
        playing = record { video = r.video; harness = _; has = refl; plays = r.plays };
      }

  -- How the packets end: with an answer, and a parser that plays.
  record Feeds (d : DecoderParser g) (ps : List Packet) : Type 0 where
    ok : Bool
    after : DecoderParser g
    result : feed parse_packet d ps ≡ some (ok, after)

  feed-Feeds : (ps : List Packet) (d : DecoderParser g) → Playing d → Feeds d ps
  feed-Feeds [] d p = record { ok = false; after = d; result = refl }
  feed-Feeds (x ∷ []) d p =
      let r = parse_packet-Parses d (as_bitstream true x x.data_size) p in
      record { ok = r.ok; after = r.after; result = r.result }
  feed-Feeds (x ∷ y ∷ ps) d p =
      let r = parse_packet-Parses d (as_bitstream false x x.data_size) p in
      let f = feed-Feeds (y ∷ ps) r.after r.playing in
      record {
        ok = f.ok;
        after = f.after;
        result =
            ap (λ t. go_on_with parse_packet t (λ s. feed parse_packet s (y ∷ ps))) r.result
            ∙ f.result;
      }

  answer-is :
      (ok : Bool) (d : DecoderParser g)
      → outcome parse_packet (some (ok, d)) ≡ (if ok then ended last_packet d else running)
  answer-is true d = refl
  answer-is false d = refl

  -- How the loop over the packets `ps` comes out: the packets are all parsed, without a crash, and the
  -- loop has ended with LAST_PACKET if the parser took the last one, and runs on if it refused it.
  pub record Answers (d : DecoderParser g) (ps : List Packet) (result : Driven parse_packet)
      : Type 0 where
    pub ok : Bool
    pub after : DecoderParser g
    pub fed : feed parse_packet d ps ≡ some (ok, after)
    pub answer : result ≡ (if ok then ended last_packet after else running)

  -- From a demuxer that is ready, whose objects have after the last sample one stream-group-done event and
  -- no stream-start event between the two, with no message on the bus, with the last sample having a
  -- buffer and packets of fewer than 2 ^ 31 bytes, and for a parser whose pipeline plays: ParseByteStream
  -- never crashes on the packets of the samples, one after the other and the last one with the end of
  -- the stream; the loop has ended with LAST_PACKET and the parser's state after them if the last one
  -- was taken, and runs on if it was refused.
  pub drive_parser :
      (w : World) (d : DecoderParser g) (n : ℕ)
      → Playing d
      → Open w.demuxer w.objects
      → EndsWithBuffer (remaining w.demuxer w.objects)
      → AreSmall (packets w.packet_counter (remaining w.demuxer w.objects))
      → Answers d (packets w.packet_counter (remaining w.demuxer w.objects)) (
          drive parse_packet w d
            (replicate (length (remaining w.demuxer w.objects)) [] ++ replicate n []))
  drive_parser w d n p o h small =
      let f = feed-Feeds (packets w.packet_counter (remaining w.demuxer w.objects)) d p in
      record {
        ok = f.ok;
        after = f.after;
        fed = f.result;
        answer =
            drive_lem parse_packet w d n o h small
            ∙ ap (outcome parse_packet) f.result
            ∙ answer-is f.ok f.after;
      }
