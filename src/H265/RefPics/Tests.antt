-- ===== src/H265/RefPics/Tests.antt =====
-- Tests of the reference pictures.
use gst_vk_video_parser.Prelude.{
  ◌≡◌, refl, true, false, List, [], ◌∷◌, map, Option, none, some, replicate, arith,
}
use gst_vk_video_parser.Prelude.Int.{ℤ, pos, negsuc}
use gst_vk_video_parser.H265.RefPics.{
  Picture, filled, too_many, null_frame, out_of_bounds, new_ref_pics, add_ref_pic, fill_ref_pics,
  fill_set, ref_pic_sets, find_ref_pic, next_other,
}
use gst_vk_video_parser.H265.RefPics.Listing.{HaveFrames, listed, holding, entry}
use gst_vk_video_parser.H265.RefPics.Numbering.{fill_set_lem, ref_pic_sets_lem}

abbrev reference : ℤ → Picture
reference poc = record { ref = true; frame = some (some 7); pic_order_cnt = poc; long_term = false }

abbrev other_picture : Picture
other_picture = record { ref = false; frame = none; pic_order_cnt = pos 9; long_term = false }

abbrev without_frame : Picture
without_frame = record { ref = true; frame = none; pic_order_cnt = pos 9; long_term = false }

abbrev two_references : List Picture
two_references = reference (pos 4) ∷ other_picture ∷ reference (negsuc 1) ∷ []

have_frames : HaveFrames two_references
have_frames =
    ((λ e. (some 7, refl)), ((λ e. absurd (ground (arith, e))), ((λ e. (some 7, refl)), tt)))

-- Two references around a picture that is none.
around :
    fill_ref_pics two_references new_ref_pics
    ≡ filled (holding (entry (reference (pos 4)) ∷ entry (reference (negsuc 1)) ∷ []) 14)
unfolding fill_ref_pics add_ref_pic
around = refl

-- A reference picture without its VkPic.
null : fill_ref_pics (without_frame ∷ []) new_ref_pics ≡ null_frame
unfolding fill_ref_pics add_ref_pic
null = refl

many : fill_ref_pics (map reference (replicate 17 (pos 4))) new_ref_pics ≡ too_many
unfolding fill_ref_pics add_ref_pic
many = refl

abbrev two_wanted : List (Option ℤ)
two_wanted = none ∷ some (negsuc 1) ∷ none ∷ some (pos 4) ∷ []

fill_set_lem_example :
    fill_set (listed two_references) 2 0 two_wanted (replicate 8 0)
    ≡ filled (1 ∷ 0 ∷ 0 ∷ 0 ∷ 0 ∷ 0 ∷ 0 ∷ 0 ∷ [])
unfolding find_ref_pic
fill_set_lem_example = fill_set_lem (listed two_references) 2 two_wanted (
  (1, (entry (reference (negsuc 1)), refl, refl)),
  ((0, (entry (reference (pos 4)), refl, refl)), tt),
)

-- Nine entries that are found.
nine :
    fill_set
      (listed (map reference (replicate 9 (pos 4))))
      9
      0
      (replicate 9 (some (pos 4)))
      (replicate 8 0)
    ≡ out_of_bounds
unfolding fill_set next_other find_ref_pic
nine = refl

ref_pic_sets_lem_example :
    ref_pic_sets two_references two_wanted [] (some (pos 4) ∷ [])
    ≡ filled (
      holding (listed two_references) 14,
      record {
        st_curr_before = 1 ∷ 0 ∷ 0 ∷ 0 ∷ 0 ∷ 0 ∷ 0 ∷ 0 ∷ [];
        st_curr_after = replicate 8 0;
        lt_curr = replicate 8 0;
      },
    )
unfolding find_ref_pic
ref_pic_sets_lem_example =
    ref_pic_sets_lem two_references two_wanted [] (some (pos 4) ∷ []) have_frames (ground arith)
      (
        (
          (1, (entry (reference (negsuc 1)), refl, refl)),
          ((0, (entry (reference (pos 4)), refl, refl)), tt),
        ),
        ground arith,
        ground arith,
      )
      (tt, ground arith, ground arith)
      (((0, (entry (reference (pos 4)), refl, refl)), tt), ground arith, ground arith)
