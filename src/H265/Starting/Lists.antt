-- ===== src/H265/Starting/Lists.antt =====
-- The scaling lists that the client reaches from a picture's parameter sets.
use gst_vk_video_parser.Prelude.{
  ◌≡◌, refl, ap, ap₂, ◌∙◌, Bool, true, false, not, ◌&&◌, ◌||◌, Option, none, some, if◌then◌else◌,
  Bool-cases, inl, inr,
}
use gst_vk_video_parser.H265.ParameterSets.Parsed.{Sps, Pps}
use gst_vk_video_parser.H265.ParameterSets.Std.{StdScalingLists}
use gst_vk_video_parser.H265.ParameterSets.Written.{fill_scaling_list}
use gst_vk_video_parser.H265.ParameterSets.Contents.{list_fields}
use gst_vk_video_parser.H265.ParameterSets.Fill.{VkH265Picture, fill_sps, fill_pps}
use gst_vk_video_parser.H265.ParameterSets.Views.{sps_view}
use gst_vk_video_parser.H265.Starting.{
  Decoder, fills_own, follow_nvcodec, start_parameters, pointed,
}

-- The test before the lists of the picture parameter set are shown as those of the sequence.
abbrev pub follows : Sps → Pps → Bool
follows s p =
    p.scaling_list_data_present_flag
    || (s.scaling_list_enabled_flag && not s.scaling_list_data_present_flag)

-- The lists of a picture, as the standard orders them: those of the picture parameter set, those of the
-- sequence parameter set, or, where the lists are enabled and neither has any, what the parser left in
-- the picture parameter set.
abbrev pub shown_lists : Sps → Pps → Option StdScalingLists
shown_lists s p =
    if p.scaling_list_data_present_flag
    then some (list_fields p.scaling_list)
    else (if s.scaling_list_enabled_flag
        then (if s.scaling_list_data_present_flag
            then some (list_fields s.scaling_list)
            else some (list_fields p.scaling_list))
        else none)

pub follow_nvcodec-lists :
    (s : Sps) (p : Pps) (vkp : VkH265Picture)
    → (sps_view (follow_nvcodec s p vkp)).scaling_lists ≡ (
        if follows s p
        then some (fill_scaling_list p.scaling_list)
        else (sps_view vkp).scaling_lists)
unfolding follow_nvcodec
follow_nvcodec-lists s p vkp = elim (Bool-cases (follows s p)) [
  | inl on ↦ rw on refl
  | inr off ↦ rw off refl
]

pub start_parameters-own :
    (recent : Bool) (s : Sps) (p : Pps) (self : Decoder) (own : VkH265Picture)
    → fills_own self ≡ true
    → start_parameters recent s p self own
      ≡ (self, follow_nvcodec s p (fill_pps recent p (fill_sps recent s own)))
unfolding start_parameters
start_parameters-own recent s p self own e = rw e refl

start_parameters-shared :
    (recent : Bool) (s : Sps) (p : Pps) (self : Decoder) (own : VkH265Picture)
    → fills_own self ≡ false
    → start_parameters recent s p self own
      ≡ (record self { vkp = follow_nvcodec s p self.vkp }, own)
unfolding start_parameters
start_parameters-shared recent s p self own e = rw e refl

fills_own-vkp :
    (self : Decoder) (vkp : VkH265Picture) → fills_own (record self { vkp = vkp }) ≡ fills_own self
unfolding fills_own
fills_own-vkp self vkp = refl

and_false : (b : Bool) → (b && false) ≡ false
and_false true = refl
and_false false = refl

-- For two pictures, one after the other, whose parameter sets are those of the decoder element: if the
-- first picture's picture parameter set has scaling lists, the second's has none, and the sequence
-- parameter set has some of its own, the client reaches from the second picture's pStdSps the lists of
-- the first picture's picture parameter set.
pub start_parameters_stale :
    (recent : Bool) (s : Sps) (first second : Pps) (self : Decoder) (own own' : VkH265Picture)
    → fills_own self ≡ false
    → first.scaling_list_data_present_flag ≡ true
    → second.scaling_list_data_present_flag ≡ false
    → s.scaling_list_data_present_flag ≡ true
    → let after = (start_parameters recent s first self own).0 in
      let (last, last_own) = start_parameters recent s second after own' in
      (sps_view (pointed last last_own)).scaling_lists ≡ some (fill_scaling_list first.scaling_list)
unfolding pointed
start_parameters_stale recent s first second self own own' shared there gone own_lists =
    let v = follow_nvcodec s first self.vkp in
    let after : Decoder = record self { vkp = v } in
    let off : follows s second ≡ false =
      ap₂ (λ b c. b || (s.scaling_list_enabled_flag && not c)) gone own_lists
      ∙ and_false s.scaling_list_enabled_flag in
    let on : follows s first ≡ true =
      ap (λ b. b || (s.scaling_list_enabled_flag && not s.scaling_list_data_present_flag)) there in
    rw
      (
        start_parameters-shared recent s first self own shared,
        start_parameters-shared recent s second after own' (fills_own-vkp self v ∙ shared),
        fills_own-vkp after (follow_nvcodec s second v),
        fills_own-vkp self v,
        shared,
      )
      (follow_nvcodec-lists s second v
        ∙ ap
            (λ b.
              if b
              then some (fill_scaling_list second.scaling_list)
              else (sps_view v).scaling_lists)
            off
        ∙ follow_nvcodec-lists s first self.vkp
        ∙ ap
            (λ b.
              if b
              then some (fill_scaling_list first.scaling_list)
              else (sps_view self.vkp).scaling_lists)
            on)
