-- ===== src/Parser/Parse.antt =====
-- ParseByteStream on every branch.
use mathlib.Core.Path.{subst}
use gst_vk_video_parser.Prelude.{
  ◌∙◌, ap, [], ◌++◌, ◌||◌, ℕ, ◌≡◌, refl, inl, inr, Bool, true, false, List, Option, some,
  Bool-cases, ◌==◌, if◌then◌else◌,
}
use gst_vk_video_parser.Parser.{
  DecoderParser, BitstreamPacket, parse_byte_stream, parse_data, parse_eos,
}
use gst_vk_video_parser.Parser.Pipeline.{
  Gstreamer, VideoParser, Playing, push_buffer, send_eos, is_ok, is_eos, FlowReturn, flow_eos,
  flow_error,
}

module _ (g : Gstreamer) where
  -- What the pipeline does with a packet: whether it takes the bytes, and whether it takes the end of
  -- the stream, and the harness after each.
  unfoldable pub takes_data : g.Harness → BitstreamPacket → Bool × g.Harness
  takes_data h packet =
      if packet.data_length == 0
      then (true, h)
      else (is_ok (g.push h packet.byte_stream).0, (g.push h packet.byte_stream).2)

  unfoldable pub takes_eos : g.Harness → BitstreamPacket → Bool × g.Harness
  takes_eos h packet = if packet.eos then ((g.push_eos h).0, (g.push_eos h).2) else (true, h)

  -- The answer that the pipeline's two answers call for, and the harness that is left.
  unfoldable pub answer : g.Harness → BitstreamPacket → Bool × ℕ × g.Harness
  answer h packet =
      if (takes_data h packet).0
      then if (takes_eos (takes_data h packet).1 packet).0
        then (true, packet.data_length, (takes_eos (takes_data h packet).1 packet).1)
        else (false, 0, (takes_eos (takes_data h packet).1 packet).1)
      else (false, 0, (takes_data h packet).1)

  -- The pipeline plays, with this harness.
  pub record Plays (p : VideoParser g) (h : g.Harness) : Type 0 where
    pub state : Playing g
    pub is_playing : p.playing ≡ some state
    pub has_harness : state.harness ≡ h

  -- A step of the pipeline that answers `b` and leaves the harness `h`.
  record Steps (r : Option (Bool × VideoParser g)) (b : Bool) (h : g.Harness) : Type 0 where
    after : VideoParser g
    result : r ≡ some (b, after)
    plays : Plays after h

  record Pushes (r : Option (FlowReturn × VideoParser g)) (f : FlowReturn) (h : g.Harness)
      : Type 0 where
    after : VideoParser g
    result : r ≡ some (f, after)
    plays : Plays after h

  push_buffer-Pushes :
      (p : VideoParser g) (buffer : List ℕ) (h : g.Harness)
      → Plays p h
      → Pushes (push_buffer g p buffer) (g.push h buffer).0 (g.push h buffer).2
  unfolding push_buffer
  push_buffer-Pushes p buffer h v =
      subst (λ h. Pushes (push_buffer g p buffer) (g.push h buffer).0 (g.push h buffer).2)
        v.has_harness
        (rw (v.is_playing, push_buffer)
          (pushed
            (is_ok (g.push v.state.harness buffer).0 || is_eos (g.push v.state.harness buffer).0)))
    where
      flow : FlowReturn
      flow = (g.push v.state.harness buffer).0

      left : Playing g
      left = record {
        harness = (g.push v.state.harness buffer).2;
        bus = v.state.bus ++ (g.push v.state.harness buffer).1;
      }

      pushed :
          (drained : Bool)
          → Pushes
              (if drained
                then some (flow, record p { playing = some (record left { bus = [] }) })
                else some (flow, record p { playing = some left }))
              flow
              left.harness
      pushed true = record {
        after = record p { playing = some (record left { bus = [] }) };
        result = refl;
        plays = record { state = record left { bus = [] }; is_playing = refl; has_harness = refl };
      }
      pushed false = record {
        after = record p { playing = some left };
        result = refl;
        plays = record { state = left; is_playing = refl; has_harness = refl };
      }

  parse_data-Steps :
      (p : VideoParser g) (packet : BitstreamPacket) (h : g.Harness)
      → Plays p h
      → Steps (parse_data g p packet) (takes_data h packet).0 (takes_data h packet).1
  unfolding parse_data takes_data
  parse_data-Steps p packet h v = elim (Bool-cases (packet.data_length == 0)) [
    | inl none_there ↦ rw none_there (record { after = p; result = refl; plays = v })
    | inr some_there ↦
        let r = push_buffer-Pushes p packet.byte_stream h v in
        rw some_there (rw r.result (record { after = r.after; result = refl; plays = r.plays }))
  ]

  abbrev eos_flow : Bool → FlowReturn
  eos_flow sent = if sent then flow_eos else flow_error

  is_eos-eos_flow : (sent : Bool) → is_eos (eos_flow sent) ≡ sent
  is_eos-eos_flow true = refl
  is_eos-eos_flow false = refl

  send_eos-Pushes :
      (p : VideoParser g) (h : g.Harness)
      → Plays p h
      → Pushes (send_eos g p) (eos_flow (g.push_eos h).0) (g.push_eos h).2
  unfolding send_eos
  send_eos-Pushes p h v =
      subst (λ h. Pushes (send_eos g p) (eos_flow (g.push_eos h).0) (g.push_eos h).2) v.has_harness
        (rw (v.is_playing, send_eos) (answered (g.push_eos v.state.harness).0))
    where
      left : Playing g
      left = record {
        harness = (g.push_eos v.state.harness).2;
        bus = v.state.bus ++ (g.push_eos v.state.harness).1;
      }

      answered :
          (sent : Bool)
          → Pushes
              (if sent
                then some (flow_eos, record p { playing = some (record left { bus = [] }) })
                else some (flow_error, record p { playing = some left }))
              (eos_flow sent)
              left.harness
      answered true = record {
        after = record p { playing = some (record left { bus = [] }) };
        result = refl;
        plays = record { state = record left { bus = [] }; is_playing = refl; has_harness = refl };
      }
      answered false = record {
        after = record p { playing = some left };
        result = refl;
        plays = record { state = left; is_playing = refl; has_harness = refl };
      }

  parse_eos-Steps :
      (p : VideoParser g) (packet : BitstreamPacket) (h : g.Harness)
      → Plays p h
      → Steps (parse_eos g p packet) (takes_eos h packet).0 (takes_eos h packet).1
  unfolding parse_eos takes_eos
  parse_eos-Steps p packet h v = elim (Bool-cases packet.eos) [
    | inl last ↦
        let r = send_eos-Pushes p h v in
        rw last (
          rw r.result (
            rw (is_eos-eos_flow (g.push_eos h).0)
              (record { after = r.after; result = refl; plays = r.plays })))
    | inr more ↦ rw more (record { after = p; result = refl; plays = v })
  ]

  -- ParseByteStream returned, and left a parser that plays with harness `h`.
  pub record Parsed (d : DecoderParser g) (packet : BitstreamPacket) (b : Bool) (n : ℕ)
      (h : g.Harness) : Type 0 where
    pub video : VideoParser g
    pub result : parse_byte_stream g d packet ≡ some (b, n, record d { parser = some video })
    pub plays : Plays video h

  -- On a parser whose pipeline plays, ParseByteStream never crashes: it pushes the bytes if there are
  -- any, then the end of the stream if the packet says so and the bytes were taken. It returns true and
  -- the packet's length if the pipeline took both, and else false and 0; the parser goes on playing,
  -- with its reference count as before.
  pub parse_byte_stream_lem :
      (d : DecoderParser g) (p : VideoParser g) (packet : BitstreamPacket) (h : g.Harness)
      → d.parser ≡ some p
      → Plays p h
      → Parsed d packet (answer h packet).0 (answer h packet).1 (answer h packet).2
  unfolding parse_byte_stream answer
  parse_byte_stream_lem d p packet h has v =
      let r = parse_data-Steps p packet h v in
      let h' = (takes_data h packet).1 in
      let s = parse_eos-Steps r.after packet h' r.plays in
      elim (Bool-cases (takes_data h packet).0) [
        | inr refused ↦ rw refused (record {
          video = r.after;
          result =
              rw (has, parse_byte_stream)
                (rw (r.result ∙ ap (λ b. some (b, r.after)) refused) refl);
          plays = r.plays;
        })
        | inl taken ↦ elim (Bool-cases (takes_eos h' packet).0) [
          | inl ended ↦
              rw (taken, ended)
                (record {
                  video = s.after;
                  result =
                      rw (has, parse_byte_stream)
                        (rw (r.result ∙ ap (λ b. some (b, r.after)) taken)
                          (rw (s.result ∙ ap (λ b. some (b, s.after)) ended) refl));
                  plays = s.plays;
                })
          | inr lost ↦
              rw (taken, lost)
                (record {
                  video = s.after;
                  result =
                      rw (has, parse_byte_stream)
                        (rw (r.result ∙ ap (λ b. some (b, r.after)) taken)
                          (rw (s.result ∙ ap (λ b. some (b, s.after)) lost) refl));
                  plays = s.plays;
                })
        ]
      ]
