-- ===== src/Driver.antt =====
-- The read loop of test/test.cpp, which feeds the packets of the demuxer to the parser.
pub mod Feeding
pub mod Chunks
pub mod Parsing
mod Tests
use gst_vk_video_parser.Prelude.{
  ℕ, Bool, true, false, List, [], ◌∷◌, Option, none, some, ltb, ◌%◌, ◌^◌, if◌then◌else◌,
}
use gst_vk_video_parser.Demuxer.Bus.{Message}
use gst_vk_video_parser.Demuxer.Reading.{
  Packet, World, Result, new_packet_result, last_packet, no_packet, error_result, read_packet,
}
use gst_vk_video_parser.Parser.{BitstreamPacket}

-- `static_cast<int32_t>` of a size, or `none` where that is negative: as a size again it is more memory
-- than there is, and the copy of the packet aborts.
unfoldable pub cast_size : ℕ → Option ℕ
cast_size n = if ltb (n % 2 ^ 32) (2 ^ 31) then some (n % 2 ^ 32) else none

-- The packet that is parsed.
abbrev pub as_bitstream : Bool → Packet → ℕ → BitstreamPacket
as_bitstream last p n = record { byte_stream = p.bytes; data_length = n; eos = last }

-- ParseByteStream over the states of a parser; `none` is a crash.
module _ {ℓ} {S : Type ℓ} (parse : S → BitstreamPacket → Option (Bool × S)) where
  -- How far the loop came: it ended with the value of `result`, it crashed, or it still runs.
  pub data Driven : Type ℓ where
    ended : Result → S → Driven
    crashed : Driven
    running : Driven

  -- ParseByteStream on a packet of the demuxer.
  unfoldable pub parse_cast : S → Bool → Packet → Option (Bool × S)
  parse_cast s last p = elim (cast_size p.data_size) [
    | none ↦ none
    | some n ↦ parse s (as_bitstream last p n)
  ]

  -- What follows ParseByteStream, for NEW_PACKET and for LAST_PACKET: a packet that is refused makes
  -- `result` an error, which does not end the loop.
  abbrev pub after_new : Option (Bool × S) → (S → Driven) → Driven
  after_new none next = crashed
  after_new (some (ok, s)) next = next s

  abbrev pub after_last : Option (Bool × S) → (S → Driven) → Driven
  after_last none next = crashed
  after_last (some (true, s)) next = ended last_packet s
  after_last (some (false, s)) next = next s

  -- The condition of the loop and its body, given the rounds after it. A result that comes with a packet
  -- uses the pointer, which no read has written where there is none.
  abbrev pub drive_round : Result → Option Packet → S → (S → Driven) → Driven
  drive_round new_packet_result none s next = crashed
  drive_round new_packet_result (some p) s next = after_new (parse_cast s false p) next
  drive_round last_packet none s next = crashed
  drive_round last_packet (some p) s next = after_last (parse_cast s true p) next
  drive_round no_packet packet s next = next s
  drive_round error_result packet s next = ended error_result s

  -- The loop; an element of the list is what is on the bus at one read.
  unfoldable pub drive : World → S → List (List Message) → Driven
  drive w s [] = running
  drive w s (messages ∷ rounds) =
      let (r, packet, after) = read_packet w messages in
      drive_round r packet s (λ s'. drive after s' rounds)
