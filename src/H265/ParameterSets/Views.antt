-- ===== src/H265/ParameterSets/Views.antt =====
-- What a client reaches from the pointers pStdSps and pStdPps into a VkH265Picture, after fill_sps and
-- fill_pps.
use gst_vk_video_parser.Prelude.{
  ◌≡◌, refl, ap, ap₂, sym, ◌∙◌, Bool, Option, none, some, if◌then◌else◌, Bool-cases, inl, inr,
}
use gst_vk_video_parser.H265.ParameterSets.Parsed.{Sps, Pps}
use gst_vk_video_parser.H265.ParameterSets.Std.{
  Pointer, null, to_hrd, to_vui, to_profile_tier_level, to_pic_buf_mgr, to_scaling_lists_sps,
  to_scaling_lists_pps, StdScalingLists, StdHrd, StdVui, StdProfileTierLevel, StdSps, StdPps,
  StdDecPicBufMgr,
}
use gst_vk_video_parser.H265.ParameterSets.Written.{
  fill_scaling_list, hrd_parameters, vui_parameters, profile_tier_level_of, first_sps,
  pps_parameters,
}
use gst_vk_video_parser.H265.ParameterSets.Contents.{
  list_fields, hrd_fields, vui_fields, profile_fields, sps_fields, pps_fields,
  fill_scaling_list-fields, profile_tier_level_of-fields, sps_parameters-fields,
}
use gst_vk_video_parser.H265.ParameterSets.Fill.{
  VkH265Picture, fill_vui, fill_vps_id, fill_extension, fill_scc_extension, sps_parameters,
  fill_sps, fill_pps,
}

-- The structure that a pointer points to.
abbrev pub scaling_lists_at : VkH265Picture → Pointer → Option StdScalingLists
scaling_lists_at vkp null = none
scaling_lists_at vkp to_hrd = none
scaling_lists_at vkp to_vui = none
scaling_lists_at vkp to_profile_tier_level = none
scaling_lists_at vkp to_pic_buf_mgr = none
scaling_lists_at vkp to_scaling_lists_sps = some vkp.scaling_lists_sps
scaling_lists_at vkp to_scaling_lists_pps = some vkp.scaling_lists_pps

abbrev pub hrd_at : VkH265Picture → Pointer → Option StdHrd
hrd_at vkp null = none
hrd_at vkp to_hrd = some vkp.hrd
hrd_at vkp to_vui = none
hrd_at vkp to_profile_tier_level = none
hrd_at vkp to_pic_buf_mgr = none
hrd_at vkp to_scaling_lists_sps = none
hrd_at vkp to_scaling_lists_pps = none

abbrev pub vui_at : VkH265Picture → Pointer → Option StdVui
vui_at vkp null = none
vui_at vkp to_hrd = none
vui_at vkp to_vui = some vkp.vui
vui_at vkp to_profile_tier_level = none
vui_at vkp to_pic_buf_mgr = none
vui_at vkp to_scaling_lists_sps = none
vui_at vkp to_scaling_lists_pps = none

abbrev pub profile_tier_level_at : VkH265Picture → Pointer → Option StdProfileTierLevel
profile_tier_level_at vkp null = none
profile_tier_level_at vkp to_hrd = none
profile_tier_level_at vkp to_vui = none
profile_tier_level_at vkp to_profile_tier_level = some vkp.profile_tier_level
profile_tier_level_at vkp to_pic_buf_mgr = none
profile_tier_level_at vkp to_scaling_lists_sps = none
profile_tier_level_at vkp to_scaling_lists_pps = none

abbrev pub pic_buf_mgr_at : VkH265Picture → Pointer → Option StdDecPicBufMgr
pic_buf_mgr_at vkp null = none
pic_buf_mgr_at vkp to_hrd = none
pic_buf_mgr_at vkp to_vui = none
pic_buf_mgr_at vkp to_profile_tier_level = none
pic_buf_mgr_at vkp to_pic_buf_mgr = some vkp.pic_buf_mgr
pic_buf_mgr_at vkp to_scaling_lists_sps = none
pic_buf_mgr_at vkp to_scaling_lists_pps = none

abbrev pub hrd_of : VkH265Picture → Option StdVui → Option StdHrd
hrd_of vkp none = none
hrd_of vkp (some vui) = hrd_at vkp vui.p_hrd_parameters

-- What is reached from a sequence parameter set.
pub record SpsView : Type 0 where
  pub sps : StdSps
  pub profile_tier_level : Option StdProfileTierLevel
  pub scaling_lists : Option StdScalingLists
  pub vui : Option StdVui
  pub hrd : Option StdHrd
  pub pic_buf_mgr : Option StdDecPicBufMgr

abbrev pub sps_view : VkH265Picture → SpsView
sps_view vkp = record {
  sps = vkp.sps;
  profile_tier_level = profile_tier_level_at vkp vkp.sps.p_profile_tier_level;
  scaling_lists = scaling_lists_at vkp vkp.sps.p_scaling_lists;
  vui = vui_at vkp vkp.sps.p_sequence_parameter_set_vui;
  hrd = hrd_of vkp (vui_at vkp vkp.sps.p_sequence_parameter_set_vui);
  pic_buf_mgr = pic_buf_mgr_at vkp vkp.sps.p_dec_pic_buf_mgr;
}

pub record PpsView : Type 0 where
  pub pps : StdPps
  pub scaling_lists : Option StdScalingLists

abbrev pub pps_view : VkH265Picture → PpsView
pps_view vkp = record {
  pps = vkp.pps;
  scaling_lists = scaling_lists_at vkp vkp.pps.p_scaling_lists;
}

-- What is reached from the sequence parameter set, for the VUI, the HRD parameters and the buffer sizes
-- that are there.
abbrev pub view_with : Bool → Sps → StdVui → Option StdHrd → StdDecPicBufMgr → SpsView
view_with recent sps vui hrd pic_buf_mgr = record {
  sps = sps_fields recent sps;
  profile_tier_level = some (profile_fields sps);
  scaling_lists =
      if sps.scaling_list_enabled_flag then some (list_fields sps.scaling_list) else none;
  vui = some vui;
  hrd = hrd;
  pic_buf_mgr = some pic_buf_mgr;
}

-- The same, as the code writes it.
abbrev view_written : Bool → Sps → StdVui → Option StdHrd → StdDecPicBufMgr → SpsView
view_written recent sps vui hrd pic_buf_mgr = record {
  sps = sps_parameters recent sps;
  profile_tier_level = some (profile_tier_level_of sps);
  scaling_lists =
      if sps.scaling_list_enabled_flag then some (fill_scaling_list sps.scaling_list) else none;
  vui = some vui;
  hrd = hrd;
  pic_buf_mgr = some pic_buf_mgr;
}

view_written-with :
    (recent : Bool) (sps : Sps) (vui : StdVui) (hrd : Option StdHrd) (mgr : StdDecPicBufMgr)
    → view_written recent sps vui hrd mgr ≡ view_with recent sps vui hrd mgr
view_written-with recent sps vui hrd mgr =
    ap₂
      (λ q t. record (view_written recent sps vui hrd mgr) { sps = q; profile_tier_level = some t })
      (sps_parameters-fields recent sps) (profile_tier_level_of-fields sps)
    ∙ ap
        (λ l. record (view_with recent sps vui hrd mgr) {
          scaling_lists = if sps.scaling_list_enabled_flag then some l else none;
        })
        (fill_scaling_list-fields sps.scaling_list)

-- The pointers and numbers of fill_sps, which its extensions leave.
pub record Kept (std first : StdSps) : Type 0 where
  pub profile_tier_level : std.p_profile_tier_level ≡ first.p_profile_tier_level
  pub scaling_lists : std.p_scaling_lists ≡ first.p_scaling_lists
  pub vui : std.p_sequence_parameter_set_vui ≡ first.p_sequence_parameter_set_vui
  pub sps_id : std.sps_seq_parameter_set_id ≡ first.sps_seq_parameter_set_id
  pub pic_buf_mgr : std.p_dec_pic_buf_mgr ≡ first.p_dec_pic_buf_mgr
  pub vps_id : std.sps_video_parameter_set_id ≡ first.sps_video_parameter_set_id

fill_extension-Kept :
    (sps : Sps) (std first : StdSps) → Kept std first → Kept (fill_extension sps std) first
unfolding fill_extension
fill_extension-Kept sps std first p = elim (Bool-cases sps.sps_extension_flag) [
  | inl on ↦ rw on (record {
    profile_tier_level = p.profile_tier_level;
    scaling_lists = p.scaling_lists;
    vui = p.vui;
    sps_id = p.sps_id;
    vps_id = p.vps_id;
    pic_buf_mgr = p.pic_buf_mgr;
  })
  | inr off ↦ rw off p
]

fill_scc_extension-Kept :
    (sps : Sps) (std first : StdSps) → Kept std first → Kept (fill_scc_extension sps std) first
unfolding fill_scc_extension
fill_scc_extension-Kept sps std first p = elim (Bool-cases sps.sps_scc_extension_flag) [
  | inl on ↦ rw on (record {
    profile_tier_level = p.profile_tier_level;
    scaling_lists = p.scaling_lists;
    vui = p.vui;
    sps_id = p.sps_id;
    vps_id = p.vps_id;
    pic_buf_mgr = p.pic_buf_mgr;
  })
  | inr off ↦ rw off p
]

pub sps_parameters-Kept :
    (recent : Bool) (sps : Sps)
    → Kept (sps_parameters recent sps) (fill_vps_id sps (first_sps recent sps))
sps_parameters-Kept recent sps =
    fill_scc_extension-Kept sps (fill_extension sps (fill_vps_id sps (first_sps recent sps)))
      (fill_vps_id sps (first_sps recent sps))
      (fill_extension-Kept sps (fill_vps_id sps (first_sps recent sps))
        (fill_vps_id sps (first_sps recent sps))
        (record {
          profile_tier_level = refl;
          scaling_lists = refl;
          vui = refl;
          sps_id = refl;
          vps_id = refl;
          pic_buf_mgr = refl;
        }))

-- What is reached by three pointers.
abbrev seen : VkH265Picture → Pointer → Pointer → Pointer → SpsView
seen vkp profile_tier_level scaling_lists vui = record {
  sps = vkp.sps;
  profile_tier_level = profile_tier_level_at vkp profile_tier_level;
  scaling_lists = scaling_lists_at vkp scaling_lists;
  vui = vui_at vkp vui;
  hrd = hrd_of vkp (vui_at vkp vui);
  pic_buf_mgr = pic_buf_mgr_at vkp vkp.sps.p_dec_pic_buf_mgr;
}

fill_vui-pic_buf_mgr :
    (sps : Sps) (vkp : VkH265Picture) → (fill_vui sps vkp).pic_buf_mgr ≡ vkp.pic_buf_mgr
unfolding fill_vui
fill_vui-pic_buf_mgr sps vkp = elim (Bool-cases sps.vui_parameters_present_flag) [
  | inr off ↦ rw off refl
  | inl on ↦ elim (Bool-cases sps.vui_params.hrd_parameters_present_flag) [
    | inl hrd ↦ rw (on, hrd) refl
    | inr none_there ↦ rw (on, none_there) refl
  ]
]

-- fill_sps leaves what its block on the VUI leaves, and the rest is that of the parameter set.
fill_sps-view :
    (recent : Bool) (sps : Sps) (vkp : VkH265Picture)
    → sps_view (fill_sps recent sps vkp)
      ≡ view_written recent sps
          (fill_vui sps vkp).vui
          (hrd_at (fill_vui sps vkp) (fill_vui sps vkp).vui.p_hrd_parameters)
          vkp.pic_buf_mgr
unfolding fill_sps first_sps
fill_sps-view recent sps vkp =
    let p = sps_parameters-Kept recent sps in
    let v = fill_sps recent sps vkp in
    ap (λ q. seen v q v.sps.p_scaling_lists v.sps.p_sequence_parameter_set_vui) p.profile_tier_level
    ∙ ap (λ q. seen v to_profile_tier_level q v.sps.p_sequence_parameter_set_vui) p.scaling_lists
    ∙ ap
        (seen v to_profile_tier_level
          (if sps.scaling_list_enabled_flag then to_scaling_lists_sps else null))
        p.vui
    ∙ ap
        (λ q.
          record (seen v to_profile_tier_level
            (if sps.scaling_list_enabled_flag then to_scaling_lists_sps else null) to_vui) {
              pic_buf_mgr = pic_buf_mgr_at v q;
            })
        p.pic_buf_mgr
    ∙ elim (Bool-cases sps.scaling_list_enabled_flag) [
      | inl on ↦
          ap (λ b. with_lists (if b then to_scaling_lists_sps else null)) on ∙ sym (ap list_if on)
      | inr off ↦
          ap (λ b. with_lists (if b then to_scaling_lists_sps else null)) off ∙ sym (ap list_if off)
    ]
    ∙ ap
        (view_written recent sps (fill_vui sps vkp).vui
          (hrd_at (fill_vui sps vkp) (fill_vui sps vkp).vui.p_hrd_parameters))
        (fill_vui-pic_buf_mgr sps vkp)
  where
    with_lists : Pointer → SpsView
    with_lists q = record (seen (fill_sps recent sps vkp) to_profile_tier_level q to_vui) {
      pic_buf_mgr = some (fill_vui sps vkp).pic_buf_mgr;
    }

    list_if : Bool → SpsView
    list_if b =
        record (view_written recent sps (fill_vui sps vkp).vui
          (hrd_at (fill_vui sps vkp) (fill_vui sps vkp).vui.p_hrd_parameters)
          (fill_vui sps vkp).pic_buf_mgr) {
            scaling_lists = if b then some (fill_scaling_list sps.scaling_list) else none;
          }

-- The VUI and the HRD parameters that the client reaches.
abbrev pub shown_vui : Sps → VkH265Picture → StdVui
shown_vui sps vkp = if sps.vui_parameters_present_flag then vui_fields sps else vkp.vui

abbrev pub shown_hrd : Sps → VkH265Picture → Option StdHrd
shown_hrd sps vkp =
    if sps.vui_parameters_present_flag
    then some (if sps.vui_params.hrd_parameters_present_flag then hrd_fields sps else vkp.hrd)
    else hrd_at vkp vkp.vui.p_hrd_parameters

fill_vui-shown :
    (sps : Sps) (vkp : VkH265Picture)
    → ((fill_vui sps vkp).vui ≡ shown_vui sps vkp)
      × (hrd_at (fill_vui sps vkp) (fill_vui sps vkp).vui.p_hrd_parameters ≡ shown_hrd sps vkp)
unfolding fill_vui vui_parameters hrd_parameters
fill_vui-shown sps vkp = elim (Bool-cases sps.vui_parameters_present_flag) [
  | inr off ↦ rw off (refl, refl)
  | inl on ↦ elim (Bool-cases sps.vui_params.hrd_parameters_present_flag) [
    | inl hrd ↦ rw (on, hrd) (refl, refl)
    | inr none_there ↦ rw (on, none_there) (refl, refl)
  ]
]

pub fill_sps_lem :
    (recent : Bool) (sps : Sps) (vkp : VkH265Picture)
    → sps_view (fill_sps recent sps vkp)
      ≡ view_with recent sps (shown_vui sps vkp) (shown_hrd sps vkp) vkp.pic_buf_mgr
fill_sps_lem recent sps vkp =
    let (vui, hrd) = fill_vui-shown sps vkp in
    fill_sps-view recent sps vkp
    ∙ ap₂ (λ v h. view_written recent sps v h vkp.pic_buf_mgr) vui hrd
    ∙ view_written-with recent sps (shown_vui sps vkp) (shown_hrd sps vkp) vkp.pic_buf_mgr

abbrev pub pps_contents : Bool → Pps → PpsView
pps_contents recent pps = record {
  pps = pps_fields recent pps;
  scaling_lists =
      if pps.scaling_list_data_present_flag then some (list_fields pps.scaling_list) else none;
}

-- After fill_pps, all that the client reaches from pStdPps is the contents of the parameter set.
pub fill_pps_lem :
    (recent : Bool) (pps : Pps) (vkp : VkH265Picture)
    → pps_view (fill_pps recent pps vkp) ≡ pps_contents recent pps
unfolding fill_pps pps_parameters fill_scaling_list
fill_pps_lem recent pps vkp = elim (Bool-cases pps.scaling_list_data_present_flag) [
  | inl on ↦ rw on refl
  | inr off ↦ rw off refl
]
