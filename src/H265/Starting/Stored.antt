-- ===== src/H265/Starting/Stored.antt =====
-- What the storage holds after a sequence of parameter sets.
use gst_vk_video_parser.Prelude.{
  ◌≡◌, refl, ap, sym, ◌∙◌, Bool, List, [], ◌∷◌, Option, none, some, if◌then◌else◌, Bool-cases, inl,
  inr,
}
use gst_vk_video_parser.H265.ParameterSets.Std.{StdVui, StdSps, StdPps, StdVps}
use gst_vk_video_parser.H265.ParameterSets.Parsed.{Sps}
use gst_vk_video_parser.H265.ParameterSets.Written.{vui_parameters}
use gst_vk_video_parser.H265.ParameterSets.Contents.{
  sps_fields, vui_fields, pps_fields, vps_fields, sps_parameters-fields, pps_parameters-fields,
  vps_parameters-fields,
}
use gst_vk_video_parser.H265.ParameterSets.Fill.{
  VkH265Picture, fill_vui, fill_sps, fill_pps, fill_vps,
}
use gst_vk_video_parser.H265.Starting.{
  Nalu, sps_nalu, pps_nalu, vps_nalu, other_nalu, store, store_all,
}

module _ {X : Type 0} where
  abbrev pub or_old : Option X → X → X
  or_old none old = old
  or_old (some new) old = new

  abbrev pub later : Option X → Option X → Option X
  later none first = first
  later (some second) first = some second

  -- The last of what the NAL units write.
  abbrev pub last_written : (Nalu → Option X) → List Nalu → Option X
  last_written written [] = none
  last_written written (u ∷ us) = later (last_written written us) (written u)

  or_old-later :
      (second first : Option X) (old : X)
      → or_old (later second first) old ≡ or_old second (or_old first old)
  or_old-later none first old = refl
  or_old-later (some new) first old = refl

  -- A part of the storage that each NAL unit writes as a whole or leaves.
  store_all-last :
      (recent : Bool) (part : VkH265Picture → X) (written : Nalu → Option X)
      → ((u : Nalu) (vkp : VkH265Picture)
          → part (store recent u vkp) ≡ or_old (written u) (part vkp))
      → (us : List Nalu) (vkp : VkH265Picture)
      → part (store_all recent us vkp) ≡ or_old (last_written written us) (part vkp)
  unfolding store_all
  store_all-last recent part written step [] vkp = refl
  store_all-last recent part written step (u ∷ us) vkp =
      store_all-last recent part written step us (store recent u vkp)
      ∙ ap (or_old (last_written written us)) (step u vkp)
      ∙ sym (or_old-later (last_written written us) (written u) (part vkp))

abbrev pub sps_written : Bool → Nalu → Option StdSps
sps_written recent (sps_nalu s) = some (sps_fields recent s)
sps_written recent (pps_nalu p) = none
sps_written recent (vps_nalu v) = none
sps_written recent other_nalu = none

abbrev pub vui_written : Nalu → Option StdVui
vui_written (sps_nalu s) = if s.vui_parameters_present_flag then some (vui_fields s) else none
vui_written (pps_nalu p) = none
vui_written (vps_nalu v) = none
vui_written other_nalu = none

abbrev pub pps_written : Bool → Nalu → Option StdPps
pps_written recent (sps_nalu s) = none
pps_written recent (pps_nalu p) = some (pps_fields recent p)
pps_written recent (vps_nalu v) = none
pps_written recent other_nalu = none

abbrev pub vps_written : Nalu → Option StdVps
vps_written (sps_nalu s) = none
vps_written (pps_nalu p) = none
vps_written (vps_nalu v) = some (vps_fields v)
vps_written other_nalu = none

store-sps :
    (recent : Bool) (u : Nalu) (vkp : VkH265Picture)
    → (store recent u vkp).sps ≡ or_old (sps_written recent u) vkp.sps
unfolding store fill_sps fill_pps fill_vps
store-sps recent (sps_nalu s) vkp = sps_parameters-fields recent s
store-sps recent (pps_nalu p) vkp = refl
store-sps recent (vps_nalu v) vkp = refl
store-sps recent other_nalu vkp = refl

store-vui :
    (recent : Bool) (u : Nalu) (vkp : VkH265Picture)
    → (store recent u vkp).vui ≡ or_old (vui_written u) vkp.vui
unfolding store fill_sps fill_pps fill_vps fill_vui vui_parameters
store-vui recent (sps_nalu s) vkp = elim (Bool-cases s.vui_parameters_present_flag) [
  | inr off ↦ rw off refl
  | inl on ↦ elim (Bool-cases s.vui_params.hrd_parameters_present_flag) [
    | inl hrd ↦ rw (on, hrd) refl
    | inr none_there ↦ rw (on, none_there) refl
  ]
]
store-vui recent (pps_nalu p) vkp = refl
store-vui recent (vps_nalu v) vkp = refl
store-vui recent other_nalu vkp = refl

pub fill_vui-others :
    (s : Sps) (vkp : VkH265Picture)
    → ((fill_vui s vkp).pps ≡ vkp.pps) × ((fill_vui s vkp).vps ≡ vkp.vps)
unfolding fill_vui
fill_vui-others s vkp = elim (Bool-cases s.vui_parameters_present_flag) [
  | inr off ↦ rw off (refl, refl)
  | inl on ↦ elim (Bool-cases s.vui_params.hrd_parameters_present_flag) [
    | inl hrd ↦ rw (on, hrd) (refl, refl)
    | inr none_there ↦ rw (on, none_there) (refl, refl)
  ]
]

store-pps :
    (recent : Bool) (u : Nalu) (vkp : VkH265Picture)
    → (store recent u vkp).pps ≡ or_old (pps_written recent u) vkp.pps
unfolding store fill_sps fill_pps fill_vps
store-pps recent (sps_nalu s) vkp = (fill_vui-others s vkp).0
store-pps recent (pps_nalu p) vkp = pps_parameters-fields recent p
store-pps recent (vps_nalu v) vkp = refl
store-pps recent other_nalu vkp = refl

store-vps :
    (recent : Bool) (u : Nalu) (vkp : VkH265Picture)
    → (store recent u vkp).vps ≡ or_old (vps_written u) vkp.vps
unfolding store fill_sps fill_pps fill_vps
store-vps recent (sps_nalu s) vkp = (fill_vui-others s vkp).1
store-vps recent (pps_nalu p) vkp = refl
store-vps recent (vps_nalu v) vkp = vps_parameters-fields v
store-vps recent other_nalu vkp = refl

-- After any sequence of parameter sets the storage holds the fields that Contents lists for the last
-- sequence, picture and video parameter set, each in its own place, and for the VUI of the last sequence
-- parameter set that has one; what none of them wrote is as it was.
pub store_all_lem :
    (recent : Bool) (us : List Nalu) (vkp : VkH265Picture)
    → ((store_all recent us vkp).sps ≡ or_old (last_written (sps_written recent) us) vkp.sps)
      × ((store_all recent us vkp).pps ≡ or_old (last_written (pps_written recent) us) vkp.pps)
      × ((store_all recent us vkp).vps ≡ or_old (last_written vps_written us) vkp.vps)
      × ((store_all recent us vkp).vui ≡ or_old (last_written vui_written us) vkp.vui)
store_all_lem recent us vkp = (
  store_all-last recent (λ v. v.sps) (sps_written recent) (store-sps recent) us vkp,
  store_all-last recent (λ v. v.pps) (pps_written recent) (store-pps recent) us vkp,
  store_all-last recent (λ v. v.vps) vps_written (store-vps recent) us vkp,
  store_all-last recent (λ v. v.vui) vui_written (store-vui recent) us vkp,
)
