-- ===== src/H264/Starting/Stored.antt =====
-- What the client reaches after a sequence of parameter sets.
use gst_vk_video_parser.Prelude.{
  ℕ, zero, suc, ◌+◌, ◌≤◌, ◌≡◌, refl, ap, ap₂, sym, ◌∙◌, Bool, true, false, List, [], ◌∷◌, ◌++◌,
  Option, none, some, length, length-set, set, get_or, ltb, if◌then◌else◌, arith,
}
use gst_vk_video_parser.Prelude.Int.{ℤ, pos}
use gst_vk_video_parser.H264.ParameterSets.Parsed.{HrdParams, Sps, Pps}
use gst_vk_video_parser.H264.ParameterSets.Std.{
  Pointer, null, to_hrd, to_vui, to_offset_for_ref_frame, to_scaling_lists_sps,
  to_scaling_lists_pps,
}
use gst_vk_video_parser.H264.ParameterSets.Written.{
  hrd_of_sps, hrd_pointer, vui_parameters, sps_parameters,
}
use gst_vk_video_parser.H264.ParameterSets.Fill.{VkH264Picture, copy_offsets, fill_sps, fill_pps}
use gst_vk_video_parser.H264.ParameterSets.Views.{
  pointee, first_offsets, hrd_of, seen, sps_view, sps_contents, fill_sps_lem,
}
use gst_vk_video_parser.H264.Starting.{
  Decoder, Nalu, sps_nalu, pps_nalu, other_nalu, store, store_all, update_picture_parameters,
  update_all, fills_own, start_parameters, pointed,
}

-- The structures of a sequence parameter set, which point at each other.
pub record Shows (s : Sps) (vkp : VkH264Picture) : Type 0 where
  pub sps : vkp.sps ≡ sps_parameters s
  pub vui : vkp.vui ≡ vui_parameters s

-- A pointer that a sequence parameter set holds.
abbrev is_of_sps : Pointer → Bool
is_of_sps null = true
is_of_sps to_hrd = true
is_of_sps to_vui = true
is_of_sps to_offset_for_ref_frame = true
is_of_sps to_scaling_lists_sps = true
is_of_sps to_scaling_lists_pps = false

pointee-fill_pps :
    (p : Pps) (vkp : VkH264Picture) (q : Pointer)
    → is_of_sps q ≡ true
    → pointee (fill_pps p vkp) q ≡ pointee vkp q
unfolding fill_pps
pointee-fill_pps p vkp null e = refl
pointee-fill_pps p vkp to_hrd e = refl
pointee-fill_pps p vkp to_vui e = refl
pointee-fill_pps p vkp to_offset_for_ref_frame e = refl
pointee-fill_pps p vkp to_scaling_lists_sps e = refl
pointee-fill_pps p vkp to_scaling_lists_pps e = absurd (ground (arith, e))

is_of_sps-if :
    (b : Bool) (q : Pointer) → is_of_sps q ≡ true → is_of_sps (if b then q else null) ≡ true
is_of_sps-if true q e = e
is_of_sps-if false q e = refl

is_of_sps-hrd : (hrd : Option HrdParams) → is_of_sps (hrd_pointer hrd) ≡ true
is_of_sps-hrd none = refl
is_of_sps-hrd (some hrd) = refl

hrd_of-fill_pps :
    (p : Pps) (s : Sps) (vkp : VkH264Picture) (b : Bool)
    → Shows s vkp
    → hrd_of (fill_pps p vkp) (pointee (fill_pps p vkp) (if b then to_vui else null))
      ≡ hrd_of vkp (pointee vkp (if b then to_vui else null))
unfolding fill_pps vui_parameters
hrd_of-fill_pps p s vkp false shows = refl
hrd_of-fill_pps p s vkp true shows =
    pointee-fill_pps p vkp vkp.vui.p_hrd_parameters
      (ap (λ v. is_of_sps v.p_hrd_parameters) shows.vui ∙ is_of_sps-hrd (hrd_of_sps s))

view-Shows :
    (s : Sps) (vkp : VkH264Picture)
    → Shows s vkp
    → sps_view vkp
      ≡ seen vkp
          (if ltb 0 s.num_ref_frames_in_pic_order_cnt_cycle then to_offset_for_ref_frame else null)
          (if s.scaling_matrix_present_flag then to_scaling_lists_sps else null)
          (if s.vui_parameters_present_flag then to_vui else null)
unfolding sps_parameters
view-Shows s vkp shows =
    ap (λ q. seen vkp q.p_offset_for_ref_frame q.p_scaling_lists q.p_sequence_parameter_set_vui)
      shows.sps

fill_pps-Shows : (p : Pps) (s : Sps) (vkp : VkH264Picture) → Shows s vkp → Shows s (fill_pps p vkp)
unfolding fill_pps
fill_pps-Shows p s vkp shows = record { sps = shows.sps; vui = shows.vui }

pub fill_sps-Shows : (s : Sps) (vkp : VkH264Picture) → Shows s (fill_sps s vkp)
unfolding fill_sps
fill_sps-Shows s vkp = record { sps = refl; vui = refl }

-- A picture parameter set leaves what is reached from the sequence parameter set.
pub fill_pps-sps_view :
    (p : Pps) (s : Sps) (vkp : VkH264Picture)
    → Shows s vkp
    → sps_view (fill_pps p vkp) ≡ sps_view vkp
unfolding fill_pps
fill_pps-sps_view p s vkp shows =
    view-Shows s (fill_pps p vkp) (fill_pps-Shows p s vkp shows)
    ∙ ap₂
        (λ o l. record (seen vkp p_offsets p_lists p_vui) {
          offset_for_ref_frame = first_offsets vkp.sps.num_ref_frames_in_pic_order_cnt_cycle o;
          scaling_lists = l;
          vui = pointee (fill_pps p vkp) p_vui;
          hrd = hrd_of (fill_pps p vkp) (pointee (fill_pps p vkp) p_vui);
        })
        (pointee-fill_pps p vkp p_offsets (
          is_of_sps-if (ltb 0 s.num_ref_frames_in_pic_order_cnt_cycle) to_offset_for_ref_frame
            refl))
        (pointee-fill_pps p vkp p_lists
          (is_of_sps-if s.scaling_matrix_present_flag to_scaling_lists_sps refl))
    ∙ ap₂ (λ v h. record (seen vkp p_offsets p_lists p_vui) { vui = v; hrd = h })
        (pointee-fill_pps p vkp p_vui (is_of_sps-if s.vui_parameters_present_flag to_vui refl))
        (hrd_of-fill_pps p s vkp s.vui_parameters_present_flag shows)
    ∙ sym (view-Shows s vkp shows)
  where
    p_offsets : Pointer
    p_offsets =
        if ltb 0 s.num_ref_frames_in_pic_order_cnt_cycle then to_offset_for_ref_frame else null

    p_lists : Pointer
    p_lists = if s.scaling_matrix_present_flag then to_scaling_lists_sps else null

    p_vui : Pointer
    p_vui = if s.vui_parameters_present_flag then to_vui else null

length-copy_offsets : (n i : ℕ) (from to : List ℤ) → length (copy_offsets n i from to) ≡ length to
unfolding copy_offsets
length-copy_offsets zero i from to = refl
length-copy_offsets (suc n) i from to =
    length-copy_offsets n (i + 1) from (set to i (get_or from i (pos 0)))
    ∙ length-set to i (get_or from i (pos 0))

length-store :
    (u : Nalu) (vkp : VkH264Picture)
    → length (store u vkp).offset_for_ref_frame ≡ length vkp.offset_for_ref_frame
unfolding store fill_sps fill_pps
length-store (sps_nalu s) vkp =
    length-copy_offsets s.num_ref_frames_in_pic_order_cnt_cycle 0 s.offset_for_ref_frame
      vkp.offset_for_ref_frame
length-store (pps_nalu p) vkp = refl
length-store other_nalu vkp = refl

length-store_all :
    (us : List Nalu) (vkp : VkH264Picture)
    → length (store_all us vkp).offset_for_ref_frame ≡ length vkp.offset_for_ref_frame
unfolding store_all
length-store_all [] vkp = refl
length-store_all (u ∷ us) vkp = length-store_all us (store u vkp) ∙ length-store u vkp

abbrev pub has_sps : List Nalu → Bool
has_sps [] = false
has_sps (sps_nalu s ∷ us) = true
has_sps (pps_nalu p ∷ us) = has_sps us
has_sps (other_nalu ∷ us) = has_sps us

store_all-no_sps :
    (us : List Nalu) (s : Sps) (vkp : VkH264Picture)
    → has_sps us ≡ false
    → Shows s vkp
    → sps_view (store_all us vkp) ≡ sps_view vkp
unfolding store_all store
store_all-no_sps [] s vkp e shows = refl
store_all-no_sps (sps_nalu t ∷ us) s vkp e shows = absurd (ground (arith, e))
store_all-no_sps (pps_nalu p ∷ us) s vkp e shows =
    store_all-no_sps us s (fill_pps p vkp) e (fill_pps-Shows p s vkp shows)
    ∙ fill_pps-sps_view p s vkp shows
store_all-no_sps (other_nalu ∷ us) s vkp e shows = store_all-no_sps us s vkp e shows

store_all-append :
    (us vs : List Nalu) (vkp : VkH264Picture)
    → store_all (us ++ vs) vkp ≡ store_all vs (store_all us vkp)
unfolding store_all
store_all-append [] vs vkp = refl
store_all-append (u ∷ us) vs vkp = store_all-append us vs (store u vkp)

store_all-last_sps :
    (before after : List Nalu) (s : Sps) (vkp : VkH264Picture)
    → has_sps after ≡ false
    → s.num_ref_frames_in_pic_order_cnt_cycle ≤ length s.offset_for_ref_frame
    → s.num_ref_frames_in_pic_order_cnt_cycle ≤ length vkp.offset_for_ref_frame
    → sps_view (store_all (before ++ sps_nalu s ∷ after) vkp) ≡ sps_contents s
unfolding store_all store
store_all-last_sps before after s vkp none_after long_from long_to =
    let v = store_all before vkp in
    ap sps_view (store_all-append before (sps_nalu s ∷ after) vkp)
    ∙ store_all-no_sps after s (fill_sps s v) none_after (fill_sps-Shows s v)
    ∙ fill_sps_lem s v long_from (omega (arith, length-store_all before vkp))

update_all-vkp :
    (us : List Nalu) (self : Decoder) → (update_all self us).vkp ≡ store_all us self.vkp
unfolding update_all update_picture_parameters store_all
update_all-vkp [] self = refl
update_all-vkp (u ∷ us) self = update_all-vkp us (update_picture_parameters self u).1

-- For an element with out-of-band parameter sets after any sequence of NAL units with a sequence
-- parameter set, if it then counts SPS updates: all that the client reaches from pStdSps of the next
-- picture is what Contents lists for the last sequence parameter set, field by field with its offsets,
-- scaling lists, VUI and HRD parameters, whatever parameter sets the picture names and its storage
-- held. The arrays have room for the offsets that the parameter set counts.
pub update_all-shown :
    (self : Decoder) (before after : List Nalu) (s : Sps) (p : Pps) (own : VkH264Picture)
    → has_sps after ≡ false
    → s.num_ref_frames_in_pic_order_cnt_cycle ≤ length s.offset_for_ref_frame
    → s.num_ref_frames_in_pic_order_cnt_cycle ≤ length self.vkp.offset_for_ref_frame
    → fills_own (update_all self (before ++ sps_nalu s ∷ after)) ≡ false
    → let self' = update_all self (before ++ sps_nalu s ∷ after) in
      sps_view (pointed self' (start_parameters self' p own)) ≡ sps_contents s
unfolding pointed start_parameters
update_all-shown self before after s p own none_after long_from long_to shared = rw shared (
    ap sps_view (update_all-vkp (before ++ sps_nalu s ∷ after) self)
    ∙ store_all-last_sps before after s self.vkp none_after long_from long_to)
