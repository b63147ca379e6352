-- ===== src/H264/ParameterSets/Views.antt =====
-- What a client reaches from the pointers pStdSps and pStdPps into a VkH264Picture, after fill_sps and
-- fill_pps.
use gst_vk_video_parser.Prelude.{
  ℕ, zero, suc, ◌+◌, ◌≤◌, ◌≡◌, refl, ap, ap₂, sym, ◌∙◌, Bool, List, [], ◌∷◌, ◌++◌, append_assoc,
  Option, none, some, length, length-append, get_or, set, set-append, take, ltb, if◌then◌else◌,
  arith, Bool-cases, inl, inr,
}
use gst_vk_video_parser.Prelude.Int.{ℤ, pos}
use gst_vk_video_parser.H264.ParameterSets.Parsed.{HrdParams, Sps, Pps}
use gst_vk_video_parser.H264.ParameterSets.Std.{
  Pointer, null, to_hrd, to_vui, to_offset_for_ref_frame, to_scaling_lists_sps,
  to_scaling_lists_pps, StdScalingLists, StdHrd, StdVui, StdSps, StdPps,
}
use gst_vk_video_parser.H264.ParameterSets.Written.{
  hrd_of_sps, hrd_pointer, hrd_parameters, vui_parameters, sps_parameters, pps_parameters,
  sps_lists, pps_lists,
}
use gst_vk_video_parser.H264.ParameterSets.Contents.{
  shown_hrd, hrd_fields, vui_fields, sps_fields, pps_fields, sps_list_fields, pps_list_fields,
  hrd_parameters-fields, hrd_of_sps-shown, vui_parameters-fields, sps_parameters-fields,
  pps_parameters-fields,
}
use gst_vk_video_parser.H264.ParameterSets.Fill.{VkH264Picture, copy_offsets, fill_sps, fill_pps}

-- What a pointer points to.
pub data Pointee : Type 0 where
  nothing : Pointee
  an_hrd : StdHrd → Pointee
  a_vui : StdVui → Pointee
  lists : StdScalingLists → Pointee
  offsets : List ℤ → Pointee

abbrev pub pointee : VkH264Picture → Pointer → Pointee
pointee vkp null = nothing
pointee vkp to_hrd = an_hrd vkp.hrd
pointee vkp to_vui = a_vui vkp.vui
pointee vkp to_offset_for_ref_frame = offsets vkp.offset_for_ref_frame
pointee vkp to_scaling_lists_sps = lists vkp.scaling_lists_sps
pointee vkp to_scaling_lists_pps = lists vkp.scaling_lists_pps

-- The first entries of an array.
abbrev pub first_offsets : ℕ → Pointee → Pointee
first_offsets n nothing = nothing
first_offsets n (an_hrd h) = an_hrd h
first_offsets n (a_vui v) = a_vui v
first_offsets n (lists l) = lists l
first_offsets n (offsets o) = offsets (take n o)

abbrev pub hrd_of : VkH264Picture → Pointee → Pointee
hrd_of vkp nothing = nothing
hrd_of vkp (an_hrd h) = nothing
hrd_of vkp (a_vui v) = pointee vkp v.p_hrd_parameters
hrd_of vkp (lists l) = nothing
hrd_of vkp (offsets o) = nothing

-- What is reached from a sequence parameter set; of the offsets as many as it counts.
pub record SpsView : Type 0 where
  pub sps : StdSps
  pub offset_for_ref_frame : Pointee
  pub scaling_lists : Pointee
  pub vui : Pointee
  pub hrd : Pointee

abbrev pub seen : VkH264Picture → Pointer → Pointer → Pointer → SpsView
seen vkp p_offsets p_lists p_vui = record {
  sps = vkp.sps;
  offset_for_ref_frame =
      first_offsets vkp.sps.num_ref_frames_in_pic_order_cnt_cycle (pointee vkp p_offsets);
  scaling_lists = pointee vkp p_lists;
  vui = pointee vkp p_vui;
  hrd = hrd_of vkp (pointee vkp p_vui);
}

abbrev pub sps_view : VkH264Picture → SpsView
sps_view vkp =
    seen vkp vkp.sps.p_offset_for_ref_frame vkp.sps.p_scaling_lists
      vkp.sps.p_sequence_parameter_set_vui

pub record PpsView : Type 0 where
  pub pps : StdPps
  pub scaling_lists : Pointee

abbrev pub pps_view : VkH264Picture → PpsView
pps_view vkp = record { pps = vkp.pps; scaling_lists = pointee vkp vkp.pps.p_scaling_lists }

-- The contents of the parameter sets.
abbrev pub hrd_contents : Option HrdParams → Pointee
hrd_contents none = nothing
hrd_contents (some hrd) = an_hrd (hrd_fields hrd)

abbrev pub sps_contents : Sps → SpsView
sps_contents sps = record {
  sps = sps_fields sps;
  offset_for_ref_frame =
      if ltb 0 sps.num_ref_frames_in_pic_order_cnt_cycle
      then offsets (take sps.num_ref_frames_in_pic_order_cnt_cycle sps.offset_for_ref_frame)
      else nothing;
  scaling_lists = if sps.scaling_matrix_present_flag then lists (sps_list_fields sps) else nothing;
  vui = if sps.vui_parameters_present_flag then a_vui (vui_fields sps) else nothing;
  hrd =
      if sps.vui_parameters_present_flag
      then hrd_contents (shown_hrd sps.vui_parameters)
      else nothing;
}

abbrev pub pps_contents : Pps → PpsView
pps_contents pps = record {
  pps = pps_fields pps;
  scaling_lists =
      if pps.pic_scaling_matrix_present_flag then lists (pps_list_fields pps) else nothing;
}

-- What the code writes.
abbrev pub hrd_written : Option HrdParams → Pointee
hrd_written none = nothing
hrd_written (some hrd) = an_hrd (hrd_parameters hrd)

abbrev pub sps_written : Sps → SpsView
sps_written sps = record {
  sps = sps_parameters sps;
  offset_for_ref_frame =
      if ltb 0 sps.num_ref_frames_in_pic_order_cnt_cycle
      then offsets (take sps.num_ref_frames_in_pic_order_cnt_cycle sps.offset_for_ref_frame)
      else nothing;
  scaling_lists = if sps.scaling_matrix_present_flag then lists (sps_lists sps) else nothing;
  vui = if sps.vui_parameters_present_flag then a_vui (vui_parameters sps) else nothing;
  hrd = if sps.vui_parameters_present_flag then hrd_written (hrd_of_sps sps) else nothing;
}

abbrev pub pps_written : Pps → PpsView
pps_written pps = record {
  pps = pps_parameters pps;
  scaling_lists = if pps.pic_scaling_matrix_present_flag then lists (pps_lists pps) else nothing;
}

-- The copy of the first entries, without the indices.
abbrev written_over : ℕ → List ℤ → List ℤ → List ℤ
written_over zero from to = to
written_over (suc n) [] to = to
written_over (suc n) (x ∷ from) [] = []
written_over (suc n) (x ∷ from) (y ∷ to) = x ∷ written_over n from to

get_or-append : (xs : List ℤ) (y : ℤ) (ys : List ℤ) → get_or (xs ++ y ∷ ys) (length xs) (pos 0) ≡ y
get_or-append [] y ys = refl
get_or-append (x ∷ xs) y ys = get_or-append xs y ys

copy_offsets-append :
    (n : ℕ) (front from done to : List ℤ)
    → length front ≡ length done
    → n ≤ length from
    → n ≤ length to
    → copy_offsets n (length done) (front ++ from) (done ++ to) ≡ done ++ written_over n from to
unfolding copy_offsets
copy_offsets-append zero front from done to same long_from long_to = refl
copy_offsets-append (suc n) front [] done to same long_from long_to = absurd (omega arith)
copy_offsets-append (suc n) front (x ∷ from) done [] same long_from long_to = absurd (omega arith)
copy_offsets-append (suc n) front (x ∷ from) done (y ∷ to) same long_from long_to =
    let longer : length (front ++ x ∷ []) ≡ length (done ++ x ∷ []) =
      omega (arith, length-append {0} front (x ∷ []), length-append {0} done (x ∷ [])) in
    let read : get_or (front ++ x ∷ from) (length done) (pos 0) ≡ x =
      ap (λ i. get_or (front ++ x ∷ from) i (pos 0)) (sym same) ∙ get_or-append front x from in
    ap
      (λ v.
        copy_offsets n (length done + 1) (front ++ x ∷ from) (set (done ++ y ∷ to) (length done) v))
      read
    ∙ ap (λ t. copy_offsets n (length done + 1) (front ++ x ∷ from) t)
        (set-append done to y x ∙ sym (append_assoc done (x ∷ []) to))
    ∙ ap₂ (λ i f. copy_offsets n i f ((done ++ x ∷ []) ++ to)) (sym (length-append done (x ∷ [])))
        (sym (append_assoc front (x ∷ []) from))
    ∙ copy_offsets-append n (front ++ x ∷ []) from (done ++ x ∷ []) to longer (omega arith)
        (omega arith)
    ∙ append_assoc done (x ∷ []) (written_over n from to)

take-written_over :
    (n : ℕ) (from to : List ℤ)
    → n ≤ length from
    → n ≤ length to
    → take n (written_over n from to) ≡ take n from
take-written_over zero from to long_from long_to = refl
take-written_over (suc n) [] to long_from long_to = absurd (omega arith)
take-written_over (suc n) (x ∷ from) [] long_from long_to = absurd (omega arith)
take-written_over (suc n) (x ∷ from) (y ∷ to) long_from long_to =
    ap (◌∷◌ x) (take-written_over n from to (omega arith) (omega arith))

copy_offsets_lem :
    (n : ℕ) (from to : List ℤ)
    → n ≤ length from
    → n ≤ length to
    → take n (copy_offsets n 0 from to) ≡ take n from
copy_offsets_lem n from to long_from long_to =
    ap (take n) (copy_offsets-append n [] from [] to refl long_from long_to)
    ∙ take-written_over n from to long_from long_to

pointed_if : Bool → VkH264Picture → Pointer → Pointee
pointed_if b vkp p = pointee vkp (if b then p else null)

fill_sps-offsets :
    (sps : Sps) (vkp : VkH264Picture)
    → sps.num_ref_frames_in_pic_order_cnt_cycle ≤ length sps.offset_for_ref_frame
    → sps.num_ref_frames_in_pic_order_cnt_cycle ≤ length vkp.offset_for_ref_frame
    → first_offsets sps.num_ref_frames_in_pic_order_cnt_cycle (
        pointed_if
          (ltb 0 sps.num_ref_frames_in_pic_order_cnt_cycle)
          (fill_sps sps vkp)
          to_offset_for_ref_frame)
      ≡ (sps_written sps).offset_for_ref_frame
unfolding fill_sps pointed_if
fill_sps-offsets sps vkp long_from long_to = elim (Bool-cases (ltb 0 n)) [
  | inl some_there ↦ rw some_there (
      ap offsets
        (copy_offsets_lem n sps.offset_for_ref_frame vkp.offset_for_ref_frame long_from long_to))
  | inr none_there ↦ rw none_there refl
]
  where
    n : ℕ
    n = sps.num_ref_frames_in_pic_order_cnt_cycle

fill_sps-lists :
    (sps : Sps) (vkp : VkH264Picture)
    → pointed_if sps.scaling_matrix_present_flag (fill_sps sps vkp) to_scaling_lists_sps
      ≡ (sps_written sps).scaling_lists
unfolding fill_sps pointed_if
fill_sps-lists sps vkp = elim (Bool-cases sps.scaling_matrix_present_flag) [
  | inl on ↦ rw on refl
  | inr off ↦ rw off refl
]

fill_sps-hrd :
    (sps : Sps) (vkp : VkH264Picture) (hrd : Option HrdParams)
    → hrd_of_sps sps ≡ hrd
    → pointee (fill_sps sps vkp) (hrd_pointer (hrd_of_sps sps)) ≡ hrd_written (hrd_of_sps sps)
unfolding fill_sps
fill_sps-hrd sps vkp none e = rw e refl
fill_sps-hrd sps vkp (some h) e = rw e refl

fill_sps-vui :
    (sps : Sps) (vkp : VkH264Picture)
    → let p = pointed_if sps.vui_parameters_present_flag (fill_sps sps vkp) to_vui in
      (p ≡ (sps_written sps).vui) × (hrd_of (fill_sps sps vkp) p ≡ (sps_written sps).hrd)
unfolding fill_sps pointed_if vui_parameters hrd_of_sps
fill_sps-vui sps vkp = elim (Bool-cases sps.vui_parameters_present_flag) [
  | inl on ↦ rw on (refl, fill_sps-hrd sps vkp (hrd_of_sps sps) refl)
  | inr off ↦ rw off (refl, refl)
]

hrd_written-contents : (o : Option HrdParams) → hrd_written o ≡ hrd_contents o
hrd_written-contents none = refl
hrd_written-contents (some hrd) = ap an_hrd (hrd_parameters-fields hrd)

sps_written-contents : (s : Sps) → sps_written s ≡ sps_contents s
sps_written-contents s =
    ap₂
      (λ q v. record (sps_written s) {
        sps = q;
        vui = if s.vui_parameters_present_flag then a_vui v else nothing;
      })
      (sps_parameters-fields s) (vui_parameters-fields s)
    ∙ ap
        (λ h. record (sps_contents s) {
          hrd = if s.vui_parameters_present_flag then h else nothing;
        })
        (hrd_written-contents (hrd_of_sps s) ∙ ap hrd_contents (hrd_of_sps-shown s))

-- After fill_sps, whatever the storage held, all that the client reaches from pStdSps is the contents of
-- the parameter set, if both arrays of offsets have room for those the parameter set counts.
pub fill_sps_lem :
    (sps : Sps) (vkp : VkH264Picture)
    → sps.num_ref_frames_in_pic_order_cnt_cycle ≤ length sps.offset_for_ref_frame
    → sps.num_ref_frames_in_pic_order_cnt_cycle ≤ length vkp.offset_for_ref_frame
    → sps_view (fill_sps sps vkp) ≡ sps_contents sps
unfolding fill_sps pointed_if sps_parameters
fill_sps_lem sps vkp long_from long_to =
    let (vui, hrd) = fill_sps-vui sps vkp in
    ap₂
      (λ o l. record (sps_view (fill_sps sps vkp)) { offset_for_ref_frame = o; scaling_lists = l })
      (fill_sps-offsets sps vkp long_from long_to) (fill_sps-lists sps vkp)
    ∙ ap₂ (λ v h. record (sps_written sps) { vui = v; hrd = h }) vui hrd
    ∙ sps_written-contents sps

-- After fill_pps all that the client reaches from pStdPps is the contents of the parameter set.
pub fill_pps_lem :
    (pps : Pps) (vkp : VkH264Picture) → pps_view (fill_pps pps vkp) ≡ pps_contents pps
unfolding fill_pps pps_parameters
fill_pps_lem pps vkp =
    ap (λ p. record (pps_view (fill_pps pps vkp)) { pps = p }) (pps_parameters-fields pps)
    ∙ elim (Bool-cases pps.pic_scaling_matrix_present_flag) [
      | inl on ↦ rw on refl
      | inr off ↦ rw off refl
    ]
