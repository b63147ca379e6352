-- ===== src/Element.antt =====
-- lib/plugins/gstvkh264dec.cpp and gstvkh265dec.cpp: the properties of the decoder elements, which
-- lib/vkvideoparser/gstvkvideoparser.cpp sets when it makes one, and unhandled_nalu.
use gst_vk_video_parser.Prelude.{ℕ, ◌≡◌, refl, Bool, List, [], ◌∷◌, Option, none, some}

-- GstVkH264Dec and GstVkH265Dec, the members that the properties set.
record Settings {ℓ} (C : Type ℓ) : Type ℓ where
  client : Option C
  oob_pic_params : Bool

-- PROP_USER_DATA and PROP_OOB_PIC_PARAMS with their values, or an id that is not installed.
data Property {ℓ} (C : Type ℓ) : Type ℓ where
  user_data : Option C → Property C
  oob : Bool → Property C
  unknown : Property C

module _ {ℓ} {C : Type ℓ} where
  -- gst_vk_h264_dec_set_property and gst_vk_h265_dec_set_property.
  unfoldable set_property : Settings C → Property C → Settings C
  set_property self (user_data client) = record self { client = client }
  set_property self (oob b) = record self { oob_pic_params = b }
  set_property self unknown = self

  -- Several properties, in order.
  unfoldable set_properties : Settings C → List (Property C) → Settings C
  set_properties self [] = self
  set_properties self (p ∷ ps) = set_properties (set_property self p) ps

  -- The properties that Build passes to gst_element_factory_make_full.
  abbrev build_properties : Option C → Bool → List (Property C)
  build_properties client b = user_data client ∷ oob b ∷ []

  abbrev call_if : {S : Type ℓ} → (C → S → List ℕ → S) → Option C → List ℕ → S → S
  call_if call none bytes s = s
  call_if call (some client) bytes s = call client s bytes

  -- gst_vk_h264_dec_unhandled_nalu and gst_vk_h265_dec_unhandled_nalu over the client's UnhandledNALU.
  unfoldable unhandled_nalu : {S : Type ℓ} → (C → S → List ℕ → S) → Settings C → List ℕ → S → S
  unhandled_nalu call self bytes s = call_if call self.client bytes s

  -- An element made with the properties of Build gives the units it does not handle to the client it
  -- was made with, whatever it held before.
  unhandled_nalu-build :
      {S : Type ℓ} (call : C → S → List ℕ → S) (self : Settings C) (c : C) (b : Bool)
      (bytes : List ℕ) (s : S)
      → unhandled_nalu call (set_properties self (build_properties (some c) b)) bytes s
        ≡ call c s bytes
  unfolding unhandled_nalu set_properties set_property
  unhandled_nalu-build call self c b bytes s = refl
