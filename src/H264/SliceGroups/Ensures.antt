-- ===== src/H264/SliceGroups/Ensures.antt =====
-- What holds of a loop's result, if the loop ends.
use gst_vk_video_parser.Prelude.{◌≡◌, refl}
use gst_vk_video_parser.H264.SliceGroups.{Outcome, done, out_of_bounds, running, ◌>>=◌}

abbrev pub Ensures {ℓ κ} : {A : Type ℓ} → (A → Type κ) → Outcome A → Type (ℓ ⊔ κ)
Ensures {A} P o = (a : A) → o ≡ done a → P a

-- With this fuel the loop has not ended, or has left an array.
abbrev pub IsEndless {ℓ} : {A : Type ℓ} → Outcome A → Type ℓ
IsEndless o = Ensures (λ _. ⊥) o

pub >>=-Ensures {ℓ κ μ} :
    {A : Type ℓ} {B : Type κ} (P : B → Type μ) (m : Outcome A) (f : A → Outcome B)
    → ((a : A) → m ≡ done a → Ensures P (f a))
    → Ensures P (m >>= f)
>>=-Ensures P (done a) f h = h a refl
>>=-Ensures P out_of_bounds f h = λ b e. absurd (cc)
>>=-Ensures P running f h = λ b e. absurd (cc)
