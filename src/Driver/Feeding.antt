-- ===== src/Driver/Feeding.antt =====
-- What the read loop feeds to the parser.
use gst_vk_video_parser.Prelude.{
  ℕ, zero, suc, ◌<◌, ◌%◌, ◌^◌, ltb, arith, ◌≡◌, ◌≢◌, refl, inl, inr, ap, sym, ◌∙◌, Bool, true,
  false, List, [], ◌∷◌, ◌++◌, Option, none, some, length, replicate, add_u32, Option-cases,
}
use gst_vk_video_parser.Demuxer.{Demuxer, Sample, eos}
use gst_vk_video_parser.Demuxer.Bus.{Message, check_for_bus_message}
use gst_vk_video_parser.Demuxer.Reading.{
  Object, stream_start, stream_group_done, other_event, other_object, sample, start_stream,
  pull_sample, look_ahead, take_sample, appsink_read_packet, new_packet, Packet, World, Result,
  last_packet, no_packet, result, read_next, read_in_state, read_packet,
}
use gst_vk_video_parser.Demuxer.Order.{Tag, remaining, next, appsink_read_packet_lem}
use gst_vk_video_parser.Demuxer.Ending.{Open, Closed, Open-remaining, start_stream-Same}
use gst_vk_video_parser.Demuxer.Session.{
  packets, EndsWithBuffer, EndsWithBuffer-tail, ends_with_none, read_packet-Reads,
}
use gst_vk_video_parser.Parser.{BitstreamPacket}
use gst_vk_video_parser.Driver.{
  cast_size, as_bitstream, parse_cast, Driven, ended, crashed, running, after_new, after_last,
  drive_round, drive,
}

-- The end of the stream stays.
pull_sample-eos :
    (d : Demuxer) (os : List Object) → d.state ≡ eos → (pull_sample d os).1.state ≡ eos
unfolding pull_sample
pull_sample-eos d [] e = e
pull_sample-eos d (stream_start id ∷ os) e =
    pull_sample-eos (start_stream d id) os ((start_stream-Same d id).state ∙ e)
pull_sample-eos d (stream_group_done ∷ os) e = pull_sample-eos (record d { state = eos }) os refl
pull_sample-eos d (other_event ∷ os) e = pull_sample-eos d os e
pull_sample-eos d (other_object ∷ os) e = pull_sample-eos d os e
pull_sample-eos d (sample s ∷ os) e = e

look_ahead-eos : (d : Demuxer) (os : List Object) → d.state ≡ eos → (look_ahead d os).0.state ≡ eos
unfolding look_ahead
look_ahead-eos d [] e = e
look_ahead-eos d (stream_start id ∷ os) e = (start_stream-Same d id).state ∙ e
look_ahead-eos d (stream_group_done ∷ os) e = refl
look_ahead-eos d (other_event ∷ os) e = look_ahead-eos d os e
look_ahead-eos d (other_object ∷ os) e = look_ahead-eos d os e
look_ahead-eos d (sample s ∷ os) e = e

take_sample-eos :
    (d : Demuxer) (os : List Object) → d.state ≡ eos → (take_sample d os).1.state ≡ eos
unfolding take_sample
take_sample-eos d os e = elim (Option-cases d.pending_sample) [
  | inl free ↦ rw (free, take_sample) (pull_sample-eos d os e)
  | inr (s, has) ↦ rw (has, take_sample) e
]

-- A read with nothing left says that there is no packet, and leaves nothing.
read_packet-Closed :
    (w : World)
    → Closed w.demuxer w.objects
    → let after = (appsink_read_packet w).1 in
      (read_packet w [] ≡ (no_packet, none, after)) × Closed after.demuxer after.objects
unfolding read_packet check_for_bus_message read_in_state read_next appsink_read_packet result
read_packet-Closed w c =
    let tuple = appsink_read_packet_lem w ∙ ap (next w.packet_counter) c.nothing in
    let after = (appsink_read_packet w).1 in
    let nothing_read = ap (λ (t : Option Packet × List (Sample × Tag) × ℕ). t.0) tuple in
    (
      ap (λ s. read_in_state s w) c.state
          ∙ ap (λ p. (result after.demuxer.state p, p, after)) nothing_read,
      record {
        state =
            look_ahead-eos (take_sample w.demuxer w.objects).1 (take_sample w.demuxer w.objects).2
              (take_sample-eos w.demuxer w.objects c.state);
        nothing = ap (λ (t : Option Packet × List (Sample × Tag) × ℕ). t.1) tuple;
      },
    )

packets-cons :
    (counter : ℕ) (items : List (Sample × Tag))
    → EndsWithBuffer items
    → (p : Packet) × (ps : List Packet) × (packets counter items ≡ p ∷ ps)
packets-cons counter [] h = absurd h
packets-cons counter ((some b, tag) ∷ rest) h =
    (new_packet tag counter b, packets (add_u32 counter 1) rest, refl)
packets-cons counter ((none, tag) ∷ []) h = absurd h
packets-cons counter ((none, tag) ∷ y ∷ rest) h = packets-cons counter (y ∷ rest) h

-- The packets have fewer than 2 ^ 31 bytes.
abbrev pub AreSmall : List Packet → Type 0
AreSmall [] = Unit
AreSmall (p ∷ ps) = (p.data_size < 2 ^ 31) × AreSmall ps

module _ {ℓ} {S : Type ℓ} (parse : S → BitstreamPacket → Option (Bool × S)) where
  -- The state of the parser after a packet, whether it was taken or refused.
  abbrev pub go_on_with : Option (Bool × S) → (S → Option (Bool × S)) → Option (Bool × S)
  go_on_with none next = none
  go_on_with (some (ok, s)) next = next s

  -- The packets one after the other, the last one with the end of the stream: whether it was taken, and
  -- the state after it.
  abbrev pub feed : S → List Packet → Option (Bool × S)
  feed s [] = some (false, s)
  feed s (p ∷ []) = parse s (as_bitstream true p p.data_size)
  feed s (p ∷ q ∷ ps) =
      go_on_with (parse s (as_bitstream false p p.data_size)) (λ s'. feed s' (q ∷ ps))

  -- The same, with the cast of each size.
  abbrev feed_cast : S → List Packet → Option (Bool × S)
  feed_cast s [] = some (false, s)
  feed_cast s (p ∷ []) = parse_cast parse s true p
  feed_cast s (p ∷ q ∷ ps) = go_on_with (parse_cast parse s false p) (λ s'. feed_cast s' (q ∷ ps))

  -- How the loop goes on after that.
  abbrev pub outcome : Option (Bool × S) → Driven parse
  outcome none = crashed
  outcome (some (true, s)) = ended last_packet s
  outcome (some (false, s)) = running

  drive-read :
      (w : World) (s : S) (t : Result × Option Packet × World) (rounds : List (List Message))
      → read_packet w [] ≡ t
      → drive parse w s ([] ∷ rounds)
        ≡ drive_round parse t.0 t.1 s (λ s'. drive parse t.2 s' rounds)
  unfolding drive
  drive-read w s t rounds e =
      ap
        (λ (r : Result × Option Packet × World).
          drive_round parse r.0 r.1 s (λ s'. drive parse r.2 s' rounds))
        e

  drive-Closed :
      (n : ℕ) (w : World) (s : S)
      → Closed w.demuxer w.objects
      → drive parse w s (replicate n []) ≡ running
  unfolding drive
  drive-Closed zero w s c = refl
  drive-Closed (suc n) w s c =
      let (read, closed) = read_packet-Closed w c in
      drive-read w s _ (replicate n []) read ∙ drive-Closed n (appsink_read_packet w).1 s closed

  outcome-new :
      (r : Option (Bool × S)) (next : S → Driven parse) (more : S → Option (Bool × S))
      → ((s : S) → next s ≡ outcome (more s))
      → after_new parse r next ≡ outcome (go_on_with r more)
  outcome-new none next more h = refl
  outcome-new (some (ok, s)) next more h = h s

  outcome-last :
      (r : Option (Bool × S)) (next : S → Driven parse)
      → ((s : S) → next s ≡ running)
      → after_last parse r next ≡ outcome r
  outcome-last none next h = refl
  outcome-last (some (true, s)) next h = refl
  outcome-last (some (false, s)) next h = h s

  cast_small : (n : ℕ) → n < 2 ^ 31 → cast_size n ≡ some n
  unfolding cast_size
  cast_small n h =
      let same : n % 2 ^ 32 ≡ n = omega (arith, h) in
      let fits : ltb n (2 ^ 31) ≡ true = ground (arith, h) in rw same (rw fits refl)

  parse_cast_small :
      (s : S) (last : Bool) (p : Packet)
      → p.data_size < 2 ^ 31
      → parse_cast parse s last p ≡ parse s (as_bitstream last p p.data_size)
  unfolding parse_cast
  parse_cast_small s last p h = rw (cast_small p.data_size h, parse_cast) refl

  go_on_with-same :
      (r : Option (Bool × S)) (f g : S → Option (Bool × S))
      → ((s : S) → f s ≡ g s)
      → go_on_with r f ≡ go_on_with r g
  go_on_with-same none f g e = refl
  go_on_with-same (some (ok, s)) f g e = e s

  feed_cast_small : (ps : List Packet) (s : S) → AreSmall ps → feed_cast s ps ≡ feed s ps
  feed_cast_small [] s h = refl
  feed_cast_small (p ∷ []) s h = parse_cast_small s true p h.0
  feed_cast_small (p ∷ q ∷ ps) s h =
      ap (λ r. go_on_with r (λ s'. feed_cast s' (q ∷ ps))) (parse_cast_small s false p h.0)
      ∙ go_on_with-same (parse s (as_bitstream false p p.data_size)) (λ s'. feed_cast s' (q ∷ ps))
          (λ s'. feed s' (q ∷ ps)) (λ s'. feed_cast_small (q ∷ ps) s' h.1)

  drive_items :
      (items : List (Sample × Tag)) (n : ℕ) (w : World) (s : S)
      → remaining w.demuxer w.objects ≡ items
      → Open w.demuxer w.objects
      → EndsWithBuffer items
      → drive parse w s (replicate (length items) [] ++ replicate n [])
        ≡ outcome (feed_cast s (packets w.packet_counter items))
  unfolding result
  drive_items [] n w s e o h = absurd h
  drive_items ((none, tag) ∷ rest) n w s e o h =
      let r = read_packet-Reads w ((none, tag) ∷ rest) e o in
      drive-read w s _ (replicate (length rest) [] ++ replicate n []) r.read ∙ elim r.opens [
        | inl o' ↦
            let more : rest ≢ [] =
              λ z. Open-remaining r.after.demuxer r.after.objects o' (r.left ∙ z) in
            drive_items rest n r.after s r.left o' (EndsWithBuffer-tail (none, tag) rest h more)
            ∙ ap (λ c. outcome (feed_cast s (packets c rest))) r.count
        | inr c ↦ absurd (ends_with_none tag rest h (sym r.left ∙ c.nothing))
      ]
  drive_items ((some b, tag) ∷ rest) n w s e o h =
      let r = read_packet-Reads w ((some b, tag) ∷ rest) e o in
      let rounds : List (List Message) = replicate (length rest) [] ++ replicate n [] in
      let packet = new_packet tag w.packet_counter b in
      drive-read w s _ rounds r.read ∙ elim r.opens [
        | inl o' ↦
            let more : rest ≢ [] =
              λ z. Open-remaining r.after.demuxer r.after.objects o' (r.left ∙ z) in
            let ends = EndsWithBuffer-tail (some b, tag) rest h more in
            let (q, qs, are) = packets-cons (add_u32 w.packet_counter 1) rest ends in
            let later : (s' : S) → drive parse r.after s' rounds ≡ outcome (feed_cast s' (q ∷ qs)) =
              λ s'.
                drive_items rest n r.after s' r.left o' ends
                ∙ ap (λ c. outcome (feed_cast s' (packets c rest))) r.count
                ∙ ap (λ ps. outcome (feed_cast s' ps)) are in
            ap
              (λ st.
                drive_round parse (result st (some packet)) (some packet) s
                  (λ s'. drive parse r.after s' rounds))
              o'.state
            ∙ outcome-new (parse_cast parse s false packet) (λ s'. drive parse r.after s' rounds)
                (λ s'. feed_cast s' (q ∷ qs)) later
            ∙ sym (ap (λ ps. outcome (feed_cast s (packet ∷ ps))) are)
        | inr c ↦
            let over : rest ≡ [] = sym r.left ∙ c.nothing in
            let stays : (s' : S) → drive parse r.after s' rounds ≡ running = λ s'.
              ap (λ ps. drive parse r.after s' (replicate (length ps) [] ++ replicate n [])) over
              ∙ drive-Closed n r.after s' c in
            ap
              (λ st.
                drive_round parse (result st (some packet)) (some packet) s
                  (λ s'. drive parse r.after s' rounds))
              c.state
            ∙ outcome-last (parse_cast parse s true packet) (λ s'. drive parse r.after s' rounds)
                stays
            ∙ sym (
                ap (λ ps. outcome (feed_cast s (packet ∷ packets (add_u32 w.packet_counter 1) ps)))
                  over)
      ]

  -- From a demuxer that is ready, whose objects have after the last sample one stream-group-done event and
  -- no stream-start event between the two, with no message on the bus, with the last sample having a
  -- buffer, and with packets of fewer than 2 ^ 31 bytes: the loop feeds the parser exactly the packets
  -- of the samples, in order, the last one with the end of the stream. If the parser takes the last
  -- packet the loop ends after one round for each sample, whether or not packets before it were
  -- refused; if it refuses the last packet the loop runs on after any number of rounds.
  pub drive_lem :
      (w : World) (s : S) (n : ℕ)
      → Open w.demuxer w.objects
      → EndsWithBuffer (remaining w.demuxer w.objects)
      → AreSmall (packets w.packet_counter (remaining w.demuxer w.objects))
      → drive parse w s (replicate (length (remaining w.demuxer w.objects)) [] ++ replicate n [])
        ≡ outcome (feed s (packets w.packet_counter (remaining w.demuxer w.objects)))
  drive_lem w s n o h small =
      let ps = packets w.packet_counter (remaining w.demuxer w.objects) in
      drive_items (remaining w.demuxer w.objects) n w s refl o h
      ∙ ap outcome (feed_cast_small ps s small)
