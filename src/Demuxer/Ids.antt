-- ===== src/Demuxer/Ids.antt =====
-- The numbers of the streams, and the streams of the packets, over everything that can happen to a
-- demuxer.
use mathlib.Core.Path.{subst}
use gst_vk_video_parser.Prelude.{
  ℕ, zero, suc, ◌≡◌, ◌⊎◌, refl, inl, inr, ap, ◌∙◌, sym, List, [], ◌∷◌, ◌++◌, some, String, length,
  get_elem?, to_u32, Option-cases, Bool-cases, some_eq,
}
use gst_vk_video_parser.Demuxer.{StreamType, unknown_type, Demuxer, Stream, eos}
use gst_vk_video_parser.Demuxer.Streams.{find_stream, has_id}
use gst_vk_video_parser.Demuxer.Bus.{
  Message, error_message, eos_message, exit, other_message, handle_bus_message,
  check_for_bus_message,
}
use gst_vk_video_parser.Demuxer.Reading.{
  Object, stream_start, stream_group_done, other_event, other_object, sample, start_stream,
  pull_sample, look_ahead, take_sample, current,
}

-- The stream at each position has that position as its number.
abbrev pub AreNumbered : List Stream → Type 0
AreNumbered ss = (k : ℕ) (s : Stream) → get_elem? ss k ≡ some s → s.id ≡ to_u32 k

-- The number and the type are those of a stream in the list, or still those of a new demuxer.
abbrev pub IsOf : List Stream → ℕ × StreamType → Type 0
IsOf ss tag =
    (tag ≡ (0, unknown_type))
    ⊎ ((k : ℕ) × (s : Stream) × (get_elem? ss k ≡ some s) × (tag ≡ (s.id, s.stream_type)))

get_elem?-append {ℓ} :
    {A : Type ℓ} (xs : List A) (x : A) (k : ℕ) (a : A)
    → get_elem? xs k ≡ some a
    → get_elem? (xs ++ x ∷ []) k ≡ some a
get_elem?-append [] x k a e = absurd (cc)
get_elem?-append (y ∷ xs) x zero a e = e
get_elem?-append (y ∷ xs) x (suc k) a e = get_elem?-append xs x k a e

get_elem?-append_inv {ℓ} :
    {A : Type ℓ} (xs : List A) (x : A) (k : ℕ) (a : A)
    → get_elem? (xs ++ x ∷ []) k ≡ some a
    → (get_elem? xs k ≡ some a) ⊎ ((k ≡ length xs) × (x ≡ a))
get_elem?-append_inv [] x zero a e = inr (refl, some_eq e)
get_elem?-append_inv [] x (suc k) a e = absurd (cc)
get_elem?-append_inv (y ∷ xs) x zero a e = inl e
get_elem?-append_inv (y ∷ xs) x (suc k) a e = elim (get_elem?-append_inv xs x k a e) [
  | inl h ↦ inl h
  | inr (h, s) ↦ inr (ap suc h, s)
]

pub IsOf-append :
    (ss : List Stream) (s : Stream) (tag : ℕ × StreamType) → IsOf ss tag → IsOf (ss ++ s ∷ []) tag
IsOf-append ss s tag (inl e) = inl e
IsOf-append ss s tag (inr (k, t, at_k, e)) = inr (k, t, get_elem?-append ss s k t at_k, e)

pub AreNumbered-append :
    (ss : List Stream) (s : Stream)
    → AreNumbered ss
    → s.id ≡ to_u32 (length ss)
    → AreNumbered (ss ++ s ∷ [])
AreNumbered-append ss s h e k t at_k = elim (get_elem?-append_inv ss s k t at_k) [
  | inl old ↦ h k t old
  | inr (last, same) ↦ sym (ap (λ (x : Stream). x.id) same) ∙ e ∙ ap to_u32 (sym last)
]

find_stream-member :
    (ss : List Stream) (id : String) (s : Stream)
    → find_stream ss id ≡ some s
    → (k : ℕ) × (get_elem? ss k ≡ some s)
unfolding find_stream
find_stream-member [] id s e = absurd (cc)
find_stream-member (x ∷ ss) id s e = elim (Bool-cases (has_id x.stream_id id)) [
  | inl here ↦ (zero, rw here at e)
  | inr there ↦ let (k, at_k) = find_stream-member ss id s (rw there at e) in (suc k, at_k)
]

-- What every step keeps of a demuxer.
pub record IsConsistent (d : Demuxer) : Type 0 where
  pub numbered : AreNumbered d.streams
  pub tag : IsOf d.streams (current d)

pub start_stream-IsConsistent :
    (d : Demuxer) (id : String) → IsConsistent d → IsConsistent (start_stream d id)
unfolding start_stream
start_stream-IsConsistent d id c = elim (Option-cases (find_stream d.streams id)) [
  | inl e ↦ rw (e, start_stream) c
  | inr (s, e) ↦
      let (k, at_k) = find_stream-member d.streams id s e in
      rw (e, start_stream) (record { numbered = c.numbered; tag = inr (k, s, at_k, refl) })
]

-- Fields that neither the numbers nor the current stream depend on.
pub IsConsistent-same :
    (d d' : Demuxer)
    → d'.streams ≡ d.streams
    → current d' ≡ current d
    → IsConsistent d
    → IsConsistent d'
IsConsistent-same d d' streams tag c = record {
  numbered = subst AreNumbered (sym streams) c.numbered;
  tag = subst (λ ss. IsOf ss (current d')) (sym streams) (subst (IsOf d.streams) (sym tag) c.tag);
}

pub look_ahead-IsConsistent :
    (d : Demuxer) (os : List Object) → IsConsistent d → IsConsistent (look_ahead d os).0
unfolding look_ahead
look_ahead-IsConsistent d [] c = c
look_ahead-IsConsistent d (stream_start id ∷ os) c = start_stream-IsConsistent d id c
look_ahead-IsConsistent d (stream_group_done ∷ os) c = IsConsistent-same d _ refl refl c
look_ahead-IsConsistent d (other_event ∷ os) c = look_ahead-IsConsistent d os c
look_ahead-IsConsistent d (other_object ∷ os) c = look_ahead-IsConsistent d os c
look_ahead-IsConsistent d (sample s ∷ os) c = IsConsistent-same d _ refl refl c

pull_sample-IsConsistent :
    (d : Demuxer) (os : List Object) → IsConsistent d → IsConsistent (pull_sample d os).1
unfolding pull_sample
pull_sample-IsConsistent d [] c = c
pull_sample-IsConsistent d (stream_start id ∷ os) c =
    pull_sample-IsConsistent (start_stream d id) os (start_stream-IsConsistent d id c)
pull_sample-IsConsistent d (stream_group_done ∷ os) c =
    pull_sample-IsConsistent (record d { state = eos }) os (IsConsistent-same d _ refl refl c)
pull_sample-IsConsistent d (other_event ∷ os) c = pull_sample-IsConsistent d os c
pull_sample-IsConsistent d (other_object ∷ os) c = pull_sample-IsConsistent d os c
pull_sample-IsConsistent d (sample s ∷ os) c = c

pub take_sample-IsConsistent :
    (d : Demuxer) (os : List Object) → IsConsistent d → IsConsistent (take_sample d os).1
unfolding take_sample
take_sample-IsConsistent d os c = elim (Option-cases d.pending_sample) [
  | inl free ↦ rw (free, take_sample) (pull_sample-IsConsistent d os c)
  | inr (s, has) ↦ rw (has, take_sample) (IsConsistent-same d _ refl refl c)
]

pub handle_bus_message-IsConsistent :
    (d : Demuxer) (m : Message) → IsConsistent d → IsConsistent (handle_bus_message d m)
unfolding handle_bus_message
handle_bus_message-IsConsistent d error_message c = IsConsistent-same d _ refl refl c
handle_bus_message-IsConsistent d eos_message c = IsConsistent-same d _ refl refl c
handle_bus_message-IsConsistent d exit c = IsConsistent-same d _ refl refl c
handle_bus_message-IsConsistent d other_message c = c

pub check_for_bus_message-IsConsistent :
    (d : Demuxer) (ms : List Message) → IsConsistent d → IsConsistent (check_for_bus_message d ms)
unfolding check_for_bus_message
check_for_bus_message-IsConsistent d [] c = c
check_for_bus_message-IsConsistent d (m ∷ ms) c =
    check_for_bus_message-IsConsistent (handle_bus_message d m) ms
      (handle_bus_message-IsConsistent d m c)
