-- ===== src/Demuxer/Waiting.antt =====
-- The wait of gst_demuxer_es_new for the first state.
use gst_vk_video_parser.Prelude.{
  ◌≡◌, ◌≢◌, ◌⊎◌, refl, inl, inr, ap, ◌∙◌, sym, Bool, true, false, List, [], ◌∷◌, Option, none, some,
  Bool-cases, some_eq,
}
use gst_vk_video_parser.Demuxer.{Demuxer, State, idle, error, ready, eos, new_demuxer}
use gst_vk_video_parser.Demuxer.Bus.{
  Event, on_events, answer, look, finish_new, wait_for_demuxer_ready, demuxer_new,
}
use gst_vk_video_parser.Demuxer.Ready.{
  any_settles, some_round_settles, on_events-settled, on_events-quiet,
}

State-cases : (s : State) → (s ≡ idle) ⊎ (s ≢ idle)
State-cases idle = inl refl
State-cases error = inr (λ e. cc)
State-cases ready = inr (λ e. cc)
State-cases eos = inr (λ e. cc)

answer-settled : (s : State) → s ≢ idle → (ok : Bool) × (answer s ≡ some ok)
answer-settled idle h = absurd (h refl)
answer-settled error h = (false, refl)
answer-settled ready h = (true, refl)
answer-settled eos h = (true, refl)

-- A wait that has ended.
record Ended (d : Demuxer) (rounds : List (List Event)) : Type 0 where
  ok : Bool
  after : Demuxer
  result : wait_for_demuxer_ready d rounds ≡ some (ok, after)
  state : answer after.state ≡ some ok

wait-settled : (d : Demuxer) (rounds : List (List Event)) → d.state ≢ idle → Ended d rounds
unfolding wait_for_demuxer_ready
wait-settled d [] h =
    let (ok, e) = answer-settled d.state h in
    record { ok = ok; after = d; result = ap (λ a. look a d none) e; state = e }
wait-settled d (es ∷ rounds) h =
    let (ok, e) = answer-settled d.state h in
    record {
      ok = ok;
      after = d;
      result = ap (λ a. look a d (wait_for_demuxer_ready (on_events d es) rounds)) e;
      state = e;
    }

-- An idle demuxer waits for the next round.
wait-idle :
    (d : Demuxer) (es : List Event) (rounds : List (List Event))
    → d.state ≡ idle
    → wait_for_demuxer_ready d (es ∷ rounds) ≡ wait_for_demuxer_ready (on_events d es) rounds
unfolding wait_for_demuxer_ready
wait-idle d es rounds e =
    ap (λ s. look (answer s) d (wait_for_demuxer_ready (on_events d es) rounds)) e

wait-Ended :
    (rounds : List (List Event)) (d : Demuxer) → some_round_settles rounds ≡ true → Ended d rounds
wait-Ended [] d h = absurd (cc)
wait-Ended (es ∷ rounds) d h = elim (State-cases d.state) [
  | inr settled ↦ wait-settled d (es ∷ rounds) settled
  | inl still ↦
      let r : Ended (on_events d es) rounds = elim (Bool-cases (any_settles es)) [
        | inl now ↦ wait-settled (on_events d es) rounds (on_events-settled d es (inr now))
        | inr later ↦ wait-Ended rounds (on_events d es) (rw later at h)
      ] in
      record {
        ok = r.ok;
        after = r.after;
        result = wait-idle d es rounds still ∙ r.result;
        state = r.state;
      }
]

wait_forever :
    (rounds : List (List Event)) (d : Demuxer)
    → d.state ≡ idle
    → some_round_settles rounds ≡ false
    → wait_for_demuxer_ready d rounds ≡ none
unfolding wait_for_demuxer_ready
wait_forever [] d still h = ap (λ s. look (answer s) d none) still
wait_forever (es ∷ rounds) d still h = elim (Bool-cases (any_settles es)) [
  | inl now ↦ absurd (true_false (rw now at h))
  | inr later ↦
      wait-idle d es rounds still
      ∙ wait_forever rounds (on_events d es) (on_events-quiet d es later ∙ still) (rw later at h)
]
  where
    true_false : true ≡ false → ⊥
    true_false x = cc

-- What gst_demuxer_es_new answers once the wait has ended: a demuxer that is ready or at the end of its
-- stream, or the null pointer after an error.
pub record Answers (rounds : List (List Event)) : Type 0 where
  pub created : Option Demuxer
  pub returns : demuxer_new true rounds ≡ some created
  pub state : (d : Demuxer) → created ≡ some d → answer d.state ≡ some true

finish_new-Ended :
    (ok : Bool) (d : Demuxer)
    → answer d.state ≡ some ok
    → (created : Option Demuxer) × (finish_new (some (ok, d)) ≡ some created)
      × ((d' : Demuxer) → created ≡ some d' → answer d'.state ≡ some true)
finish_new-Ended true d e =
    (some d, refl, λ d' same. sym (ap (λ (x : Demuxer). answer x.state) (some_eq same)) ∙ e)
finish_new-Ended false d e = (none, refl, λ d' same. cc)

-- Where GStreamer and the pipeline start, gst_demuxer_es_new returns if and only if some round brings
-- the end of the pads, an error or the end of the stream; a demuxer that it returns is ready or at the
-- end of its stream.
pub demuxer_new-Answers :
    (rounds : List (List Event))
    → (some_round_settles rounds ≡ true → Answers rounds)
      × (some_round_settles rounds ≡ false → demuxer_new true rounds ≡ none)
unfolding demuxer_new
demuxer_new-Answers rounds = (
  λ h.
      let r = wait-Ended rounds new_demuxer h in
      let (created, e, state) = finish_new-Ended r.ok r.after r.state in
      record { created = created; returns = ap finish_new r.result ∙ e; state = state },
  λ h. ap finish_new (wait_forever rounds new_demuxer refl h),
)
