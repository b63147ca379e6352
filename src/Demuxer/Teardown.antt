-- ===== src/Demuxer/Teardown.antt =====
-- The end of the bus thread, which gst_demuxer_es_teardown joins.
use gst_vk_video_parser.Prelude.{
  ◌≡◌, refl, inl, inr, ap, ◌∙◌, true, List, [], ◌∷◌, ◌++◌, some, if◌then◌else◌, Bool-cases,
}
use gst_vk_video_parser.Demuxer.{Demuxer, error, eos, set_demuxer_state}
use gst_vk_video_parser.Demuxer.Bus.{
  Message, error_message, eos_message, exit, other_message, handle_bus_message,
  check_for_bus_message, bus_thread,
}

-- An exit message, whatever else is on the bus, sets the flag for good.
check_for_bus_message-exits :
    (d : Demuxer) (ms : List Message)
    → d.bus_exit ≡ true
    → (check_for_bus_message d ms).bus_exit ≡ true
unfolding check_for_bus_message handle_bus_message set_demuxer_state
check_for_bus_message-exits d [] h = h
check_for_bus_message-exits d (error_message ∷ ms) h =
    check_for_bus_message-exits (record d { state = error }) ms h
check_for_bus_message-exits d (eos_message ∷ ms) h =
    check_for_bus_message-exits (record d { state = eos }) ms h
check_for_bus_message-exits d (exit ∷ ms) h =
    check_for_bus_message-exits (record d { bus_exit = true }) ms refl
check_for_bus_message-exits d (other_message ∷ ms) h = check_for_bus_message-exits d ms h

check_for_bus_message-exit :
    (d : Demuxer) (ms later : List Message)
    → (check_for_bus_message d (ms ++ exit ∷ later)).bus_exit ≡ true
unfolding check_for_bus_message handle_bus_message set_demuxer_state
check_for_bus_message-exit d [] later =
    check_for_bus_message-exits (record d { bus_exit = true }) later refl
check_for_bus_message-exit d (error_message ∷ ms) later =
    check_for_bus_message-exit (record d { state = error }) ms later
check_for_bus_message-exit d (eos_message ∷ ms) later =
    check_for_bus_message-exit (record d { state = eos }) ms later
check_for_bus_message-exit d (exit ∷ ms) later =
    check_for_bus_message-exit (record d { bus_exit = true }) ms later
check_for_bus_message-exit d (other_message ∷ ms) later = check_for_bus_message-exit d ms later

-- The thread has ended, with its flag set.
pub record Joined (d : Demuxer) (rounds : List (List Message)) : Type 0 where
  pub left : Demuxer
  pub result : bus_thread d rounds ≡ some left
  pub exits : left.bus_exit ≡ true

Joined-now : (d : Demuxer) (rounds : List (List Message)) → d.bus_exit ≡ true → Joined d rounds
unfolding bus_thread
Joined-now d [] h = record { left = d; result = rw h refl; exits = h }
Joined-now d (ms ∷ rounds) h = record { left = d; result = rw h refl; exits = h }

-- The bus thread ends by itself in the round that finds the "exit" message of the teardown, whatever
-- else is on the bus before and after it, or earlier.
pub bus_thread-Joined :
    (d : Demuxer) (before : List (List Message)) (ms ms' : List Message)
    (later : List (List Message))
    → Joined d (before ++ (ms ++ exit ∷ ms') ∷ later)
unfolding bus_thread
bus_thread-Joined d [] ms ms' later = elim (Bool-cases d.bus_exit) [
  | inl now ↦ Joined-now d ((ms ++ exit ∷ ms') ∷ later) now
  | inr runs ↦
      let r =
        Joined-now (check_for_bus_message d (ms ++ exit ∷ ms')) later
          (check_for_bus_message-exit d ms ms') in
      record {
        left = r.left;
        result =
            ap
              (λ x.
                if x then some d else bus_thread (check_for_bus_message d (ms ++ exit ∷ ms')) later)
              runs
            ∙ r.result;
        exits = r.exits;
      }
]
bus_thread-Joined d (b ∷ before) ms ms' later = elim (Bool-cases d.bus_exit) [
  | inl now ↦ Joined-now d (b ∷ (before ++ (ms ++ exit ∷ ms') ∷ later)) now
  | inr runs ↦
      let r = bus_thread-Joined (check_for_bus_message d b) before ms ms' later in
      record {
        left = r.left;
        result =
            ap
              (λ x.
                if x
                then some d
                else bus_thread (check_for_bus_message d b) (before ++ (ms ++ exit ∷ ms') ∷ later))
              runs
            ∙ r.result;
        exits = r.exits;
      }
]
