-- ===== src/Demuxer/Best.antt =====
-- The search for the best stream.
use gst_vk_video_parser.Prelude.{
  ℕ, zero, suc, ◌<◌, ◌≡◌, ◌≢◌, ◌↔◌, refl, inl, inr, ap, ◌∙◌, sym, true, false, List, [], ◌∷◌,
  Option, none, some, ==_iff, Bool-cases, get_elem?, arith, some_eq,
}
use gst_vk_video_parser.Demuxer.{
  StreamType, unknown_type, video_type, audio_type, text_type, data_type, Demuxer, Stream, State,
  idle, error, ready, eos,
}
use gst_vk_video_parser.Demuxer.Streams.{
  find_best_stream, best_in_state, first_of_type, same_type, type_id,
}

-- The first stream of the type, or none where no stream has it.
pub data IsFirst (ss : List Stream) (wanted : StreamType) : Option Stream → Type 0 where
  at :
      (k : ℕ) (s : Stream)
      → get_elem? ss k ≡ some s
      → s.stream_type ≡ wanted
      → ((j : ℕ) (t : Stream) → j < k → get_elem? ss j ≡ some t → t.stream_type ≢ wanted)
      → IsFirst ss wanted (some s)
  nowhere :
      ((j : ℕ) (t : Stream) → get_elem? ss j ≡ some t → t.stream_type ≢ wanted)
      → IsFirst ss wanted none

type_of : ℕ → StreamType
type_of zero = unknown_type
type_of (suc zero) = video_type
type_of (suc (suc zero)) = audio_type
type_of (suc (suc (suc zero))) = text_type
type_of (suc (suc (suc (suc n)))) = data_type

type_of-type_id : (a : StreamType) → type_of (type_id a) ≡ a
unfolding type_of
type_of-type_id unknown_type = refl
type_of-type_id video_type = refl
type_of-type_id audio_type = refl
type_of-type_id text_type = refl
type_of-type_id data_type = refl

same_type_iff : (a b : StreamType) → (same_type a b ≡ true) ↔ (a ≡ b)
same_type_iff a b = (
  λ e.
      sym (type_of-type_id a)
      ∙ ap type_of ((==_iff (type_id a) (type_id b)).0 e)
      ∙ type_of-type_id b,
  λ e. (==_iff (type_id a) (type_id b)).1 (ap type_id e),
)

different : (a b : StreamType) → same_type a b ≡ false → a ≢ b
different a b e same = true_false (sym ((same_type_iff a b).1 same) ∙ e)
  where
    true_false : true ≡ false → ⊥
    true_false x = cc

IsFirst-skip :
    (s : Stream) (ss : List Stream) (wanted : StreamType) (o : Option Stream)
    → s.stream_type ≢ wanted
    → IsFirst ss wanted o
    → IsFirst (s ∷ ss) wanted o
IsFirst-skip s ss wanted _ other (at k t at_k e before) = at (suc k) t at_k e skipped
  where
    skipped :
        (j : ℕ) (u : Stream) → j < suc k → get_elem? (s ∷ ss) j ≡ some u → u.stream_type ≢ wanted
    skipped zero u h at_j = λ x. other (ap (λ (v : Stream). v.stream_type) (some_eq at_j) ∙ x)
    skipped (suc j) u h at_j = before j u (omega arith) at_j
IsFirst-skip s ss wanted _ other (nowhere never) = nowhere skipped
  where
    skipped : (j : ℕ) (u : Stream) → get_elem? (s ∷ ss) j ≡ some u → u.stream_type ≢ wanted
    skipped zero u at_j = λ x. other (ap (λ (v : Stream). v.stream_type) (some_eq at_j) ∙ x)
    skipped (suc j) u at_j = never j u at_j

first_of_type-IsFirst :
    (ss : List Stream) (wanted : StreamType) → IsFirst ss wanted (first_of_type ss wanted)
unfolding first_of_type
first_of_type-IsFirst [] wanted = nowhere (λ j t e. absurd (cc))
first_of_type-IsFirst (s ∷ ss) wanted = elim (Bool-cases (same_type s.stream_type wanted)) [
  | inl here ↦ rw here (
      at zero s refl ((same_type_iff s.stream_type wanted).0 here)
        (λ j t h e. absurd (omega arith)))
  | inr there ↦ rw there (
      IsFirst-skip s ss wanted _ (different s.stream_type wanted there)
        (first_of_type-IsFirst ss wanted))
]

by_state :
    (s : State) (ss : List Stream) (wanted : StreamType)
    → s ≢ idle
    → IsFirst ss wanted (best_in_state s ss wanted)
unfolding best_in_state
by_state idle ss wanted h = absurd (h refl)
by_state error ss wanted h = first_of_type-IsFirst ss wanted
by_state ready ss wanted h = first_of_type-IsFirst ss wanted
by_state eos ss wanted h = first_of_type-IsFirst ss wanted

-- From a demuxer that is not idle gst_demuxer_es_find_best_stream returns the first stream of the list
-- that has the type, or null where no stream has it; from an idle demuxer it returns null.
pub find_best_stream_lem :
    (d : Demuxer) (wanted : StreamType)
    → (d.state ≡ idle → find_best_stream (some d) wanted ≡ none)
      × (d.state ≢ idle → IsFirst d.streams wanted (find_best_stream (some d) wanted))
unfolding find_best_stream best_in_state
find_best_stream_lem d wanted =
    (λ e. ap (λ s. best_in_state s d.streams wanted) e, λ h. by_state d.state d.streams wanted h)
