-- ===== src/H264/SliceGroups/Tests.antt =====
-- Slice group maps of small pictures, and of one that is too large.
use gst_vk_video_parser.Prelude.{
  ℕ, [], ◌∷◌, ◌≡◌, refl, arith, zero, suc, ◌≤◌, ◌<◌, inl, inr, get_elem?, some,
}
use gst_vk_video_parser.H264.SliceGroups.{
  SliceGroupParams, Outcome, done, get_slice_group_map, fill_by_type, fill_map, dispersed,
  interleaved, fill_runs, fill_run, foreground, fill_rows, fill_columns,
}
use gst_vk_video_parser.H264.SliceGroups.Ensures.{IsEndless}
use gst_vk_video_parser.H264.SliceGroups.Endless.{
  get_slice_group_map_large, get_slice_group_map_foreground,
}
use gst_vk_video_parser.H264.SliceGroups.Groups.{
  Maps, dispersed_unit, get_slice_group_map_dispersed, get_slice_group_map_explicit,
}

-- Four by two map units.
abbrev small_picture : SliceGroupParams
small_picture = record {
  pic_size_in_map_units_minus1 = 7;
  num_slice_groups_minus1 = 1;
  slice_group_map_type = 1;
  run_length_minus1 = 2 ∷ 0 ∷ 0 ∷ 0 ∷ 0 ∷ 0 ∷ 0 ∷ 0 ∷ [];
  top_left = 0 ∷ 0 ∷ 0 ∷ 0 ∷ 0 ∷ 0 ∷ 0 ∷ 0 ∷ [];
  bottom_right = 5 ∷ 0 ∷ 0 ∷ 0 ∷ 0 ∷ 0 ∷ 0 ∷ 0 ∷ [];
  slice_group_id = 1 ∷ 1 ∷ 0 ∷ 0 ∷ 1 ∷ 1 ∷ 0 ∷ 0 ∷ [];
  pic_width_in_mbs_minus1 = 3;
}

dispersed_small : get_slice_group_map 20 small_picture ≡ done (0 ∷ 1 ∷ 0 ∷ 1 ∷ 1 ∷ 0 ∷ 1 ∷ 0 ∷ [])
unfolding get_slice_group_map fill_by_type fill_map dispersed
dispersed_small = refl

interleaved_small :
    get_slice_group_map 20 (record small_picture { slice_group_map_type = 0 })
    ≡ done (0 ∷ 0 ∷ 0 ∷ 1 ∷ 0 ∷ 0 ∷ 0 ∷ 1 ∷ [])
unfolding get_slice_group_map fill_by_type interleaved fill_runs fill_run
interleaved_small = refl

foreground_small :
    get_slice_group_map 20 (record small_picture { slice_group_map_type = 2 })
    ≡ Outcome.out_of_bounds
unfolding get_slice_group_map fill_by_type fill_map foreground fill_rows fill_columns
foreground_small = refl

abbrev large_picture : SliceGroupParams
large_picture = record small_picture { pic_size_in_map_units_minus1 = 395 }

get_slice_group_map_large_example : IsEndless (get_slice_group_map 9 large_picture)
get_slice_group_map_large_example =
    get_slice_group_map_large 9 large_picture (omega arith) (omega arith) (inr (inl refl))

abbrev foreground_picture : SliceGroupParams
foreground_picture = record small_picture { slice_group_map_type = 2 }

get_slice_group_map_foreground_example : IsEndless (get_slice_group_map 20 foreground_picture)
get_slice_group_map_foreground_example =
    get_slice_group_map_foreground 20 foreground_picture (omega arith) refl

get_slice_group_map_dispersed_example :
    Maps small_picture (dispersed_unit small_picture) (get_slice_group_map 20 small_picture)
get_slice_group_map_dispersed_example =
    get_slice_group_map_dispersed 20 small_picture refl (omega arith) (omega arith) (omega arith)
      (omega arith) (omega arith)

abbrev explicit_picture : SliceGroupParams
explicit_picture = record small_picture {
  slice_group_map_type = 6;
  num_slice_groups_minus1 = 1;
  pic_size_in_map_units_minus1 = 1;
}

explicit_ids : (k : ℕ) → k ≤ 1 → (get_elem? explicit_picture.slice_group_id k ≡ some 1) × (1 < 256)
explicit_ids zero h = (refl, omega arith)
explicit_ids (suc zero) h = (refl, omega arith)
explicit_ids (suc (suc k)) h = absurd (omega arith)

get_slice_group_map_explicit_example :
    Maps explicit_picture (λ _. 1) (get_slice_group_map 20 explicit_picture)
get_slice_group_map_explicit_example =
    get_slice_group_map_explicit 20 explicit_picture (λ _. 1) refl (omega arith) (omega arith)
      explicit_ids (omega arith)
