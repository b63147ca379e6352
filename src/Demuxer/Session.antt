-- ===== src/Demuxer/Session.antt =====
-- The read loop of an application, from its first read to the last packet.
use gst_vk_video_parser.Prelude.{
  ℕ, ◌≡◌, ◌≢◌, ◌⊎◌, refl, inl, inr, ap, ◌∙◌, sym, List, [], ◌∷◌, Option, none, some, length,
  add_u32, replicate,
}
use gst_vk_video_parser.Demuxer.{Sample, ready}
use gst_vk_video_parser.Demuxer.Bus.{Message, check_for_bus_message}
use gst_vk_video_parser.Demuxer.Reading.{
  Packet, World, new_packet, appsink_read_packet, Result, last_packet, result, read_next,
  read_in_state, read_packet, read_loop, with_packet, go_on,
}
use gst_vk_video_parser.Demuxer.Order.{Tag, remaining, next, appsink_read_packet_lem}
use gst_vk_video_parser.Demuxer.Ending.{Open, Closed, Open-remaining, appsink_read_packet-Open}

-- The packets of the samples that have a buffer, numbered from the counter on.
abbrev pub packets : ℕ → List (Sample × Tag) → List Packet
packets counter [] = []
packets counter ((none, tag) ∷ rest) = packets counter rest
packets counter ((some b, tag) ∷ rest) = new_packet tag counter b ∷ packets (add_u32 counter 1) rest

-- There is a sample, and the last one has a buffer.
abbrev pub EndsWithBuffer : List (Sample × Tag) → Type 0
EndsWithBuffer [] = ⊥
EndsWithBuffer ((none, tag) ∷ []) = ⊥
EndsWithBuffer ((some b, tag) ∷ []) = Unit
EndsWithBuffer (x ∷ y ∷ rest) = EndsWithBuffer (y ∷ rest)

pub EndsWithBuffer-tail :
    (x : Sample × Tag) (rest : List (Sample × Tag))
    → EndsWithBuffer (x ∷ rest)
    → rest ≢ []
    → EndsWithBuffer rest
EndsWithBuffer-tail x [] h more = absurd (more refl)
EndsWithBuffer-tail x (y ∷ rest) h more = h

pub ends_with_none :
    (tag : Tag) (rest : List (Sample × Tag)) → EndsWithBuffer ((none, tag) ∷ rest) → rest ≢ []
ends_with_none tag [] h = absurd h
ends_with_none tag (x ∷ rest) h = λ e. cc

read_packet-ready : (w : World) → w.demuxer.state ≡ ready → read_packet w [] ≡ read_next w
unfolding read_packet check_for_bus_message read_in_state
read_packet-ready w is_ready = ap (λ s. read_in_state s w) is_ready

-- What a read of the first sample gives: its packet, and the result that the state after it calls for.
pub record Reads (w : World) (packet : Option Packet) (rest : List (Sample × Tag)) (counter : ℕ)
    : Type 0 where
  pub after : World
  pub read : read_packet w [] ≡ (result after.demuxer.state packet, packet, after)
  pub left : remaining after.demuxer after.objects ≡ rest
  pub count : after.packet_counter ≡ counter
  pub opens : Open after.demuxer after.objects ⊎ Closed after.demuxer after.objects

pub read_packet-Reads :
    (w : World) (items : List (Sample × Tag))
    → remaining w.demuxer w.objects ≡ items
    → Open w.demuxer w.objects
    → Reads w
        (next w.packet_counter items).0
        (next w.packet_counter items).1
        (next w.packet_counter items).2
unfolding read_next
read_packet-Reads w items e o =
    let tuple = appsink_read_packet_lem w ∙ ap (next w.packet_counter) e in
    let packet_eq = ap (λ (t : Option Packet × List (Sample × Tag) × ℕ). t.0) tuple in
    let after = (appsink_read_packet w).1 in
    record {
      after = after;
      read =
          read_packet-ready w o.state
          ∙ ap (λ p. (result after.demuxer.state p, p, after)) packet_eq;
      left = ap (λ (t : Option Packet × List (Sample × Tag) × ℕ). t.1) tuple;
      count = ap (λ (t : Option Packet × List (Sample × Tag) × ℕ). t.2) tuple;
      opens = appsink_read_packet-Open w o;
    }

read_loop-read :
    (w : World) (t : Result × Option Packet × World) (rounds : List (List Message))
    → read_packet w [] ≡ t
    → read_loop w ([] ∷ rounds) ≡ go_on t.0 t.1 (read_loop t.2 rounds)
unfolding read_loop
read_loop-read w t rounds e =
    ap (λ (r : Result × Option Packet × World). go_on r.0 r.1 (read_loop r.2 rounds)) e

-- The answer of the loop where `rest` remains.
abbrev loop_answer : ℕ → List (Sample × Tag) → Option (Result × List Packet)
loop_answer counter rest = some (last_packet, packets counter rest)

read_loop_items :
    (items : List (Sample × Tag)) (w : World)
    → remaining w.demuxer w.objects ≡ items
    → Open w.demuxer w.objects
    → EndsWithBuffer items
    → read_loop w (replicate (length items) []) ≡ loop_answer w.packet_counter items
unfolding result
read_loop_items [] w e o h = absurd h
read_loop_items ((none, tag) ∷ rest) w e o h =
    let r = read_packet-Reads w ((none, tag) ∷ rest) e o in
    let rounds : List (List Message) = replicate (length rest) [] in
    read_loop-read w _ rounds r.read ∙ elim r.opens [
      | inl o' ↦
          let more : rest ≢ [] =
            λ n. Open-remaining r.after.demuxer r.after.objects o' (r.left ∙ n) in
          read_loop_items rest r.after r.left o' (EndsWithBuffer-tail (none, tag) rest h more)
          ∙ ap (λ c. loop_answer c rest) r.count
      | inr c ↦ absurd (ends_with_none tag rest h (sym r.left ∙ c.nothing))
    ]
read_loop_items ((some b, tag) ∷ rest) w e o h =
    let r = read_packet-Reads w ((some b, tag) ∷ rest) e o in
    let rounds : List (List Message) = replicate (length rest) [] in
    let packet = new_packet tag w.packet_counter b in
    read_loop-read w _ rounds r.read ∙ elim r.opens [
      | inl o' ↦
          let more : rest ≢ [] =
            λ n. Open-remaining r.after.demuxer r.after.objects o' (r.left ∙ n) in
          let later =
            read_loop_items rest r.after r.left o' (EndsWithBuffer-tail (some b, tag) rest h more)
            ∙ ap (λ c. loop_answer c rest) r.count in
          ap (λ s. go_on (result s (some packet)) (some packet) (read_loop r.after rounds)) o'.state
          ∙ ap (with_packet (some packet)) later
      | inr c ↦
          ap (λ s. go_on (result s (some packet)) (some packet) (read_loop r.after rounds)) c.state
          ∙ ap (λ ps. some (last_packet, packet ∷ packets (add_u32 w.packet_counter 1) ps))
              (sym (sym r.left ∙ c.nothing))
    ]

-- From a demuxer that is ready, whose objects have after the last sample one stream-group-done event and
-- no stream-start event between the two, with no message on the bus: the read loop ends after one round
-- for each sample, with the result LAST_PACKET, and is given exactly the packets of the samples that
-- have a buffer, in order, numbered from the counter on. The last sample must have a buffer.
pub read_loop_lem :
    (w : World)
    → Open w.demuxer w.objects
    → EndsWithBuffer (remaining w.demuxer w.objects)
    → read_loop w (replicate (length (remaining w.demuxer w.objects)) [])
      ≡ some (last_packet, packets w.packet_counter (remaining w.demuxer w.objects))
read_loop_lem w o h = read_loop_items (remaining w.demuxer w.objects) w refl o h
