-- ===== src/H264/SliceGroups/Endless.antt =====
-- Where get_slice_group_map cannot return: its counters are too narrow.
use gst_vk_video_parser.Prelude.{
  ◌&&◌, ◌==◌, ℕ, zero, suc, ◌+◌, ◌≤◌, ◌≡◌, ◌≢◌, List, true, false, leb, Bool-cases, inl, inr, ◌⊎◌,
  to_u8, arith,
}
use gst_vk_video_parser.H264.SliceGroups.Ensures.{Ensures, IsEndless, >>=-Ensures}
use gst_vk_video_parser.H264.SliceGroups.{
  SliceGroupParams, Outcome, read, write, fill_map, fill_runs, fill_run, interleaved, foreground,
  get_slice_group_map, fill_by_type,
}

abbrev Never {ℓ} : {A : Type ℓ} → A → Type 0
Never _ = ⊥

fill_map-IsEndless :
    (value : ℕ → Outcome ℕ) (size fuel i : ℕ) (ret : List ℕ)
    → 255 ≤ size
    → i ≤ 255
    → IsEndless (fill_map value size fuel i ret)
unfolding fill_map
fill_map-IsEndless value size zero i ret h k = λ m e. absurd (cc)
fill_map-IsEndless value size (suc fuel) i ret h k =
    let more : leb i size ≡ true = ground arith in
    rw more (
      >>=-Ensures Never (value i) _ λ v _.
        >>=-Ensures Never (write ret i v) _
          λ ret' _. fill_map-IsEndless value size fuel (to_u8 (i + 1)) ret' h (omega arith))

-- The loop over the groups leaves `i` a byte.
abbrev IsByte : ℕ × List ℕ → Type 0
IsByte s = s.0 ≤ 255

fill_runs-IsByte :
    (inner : ℕ) (p : SliceGroupParams) (fuel i j : ℕ) (ret : List ℕ)
    → i ≤ 255
    → Ensures IsByte (fill_runs inner p fuel i j ret)
unfolding fill_runs
fill_runs-IsByte inner p zero i j ret h = λ s e. absurd (cc)
fill_runs-IsByte inner p (suc fuel) i j ret h =
    elim (Bool-cases (leb j p.num_slice_groups_minus1 && leb i p.pic_size_in_map_units_minus1)) [
      | inl more ↦ rw more (
          >>=-Ensures IsByte (read p.run_length_minus1 j) _ λ run _.
            >>=-Ensures IsByte (fill_run p.pic_size_in_map_units_minus1 run i j inner 0 ret) _
              λ r _.
                fill_runs-IsByte inner p fuel (to_u8 (i + run + 1)) (to_u8 (j + 1)) r (omega arith))
      | inr ended ↦ rw ended (λ s e. ground arith)
    ]

interleaved-IsEndless :
    (inner : ℕ) (p : SliceGroupParams) (fuel i : ℕ) (ret : List ℕ)
    → 255 ≤ p.pic_size_in_map_units_minus1
    → i ≤ 255
    → IsEndless (interleaved inner p fuel i ret)
unfolding interleaved
interleaved-IsEndless inner p zero i ret h k = λ m e. absurd (cc)
interleaved-IsEndless inner p (suc fuel) i ret h k =
    >>=-Ensures Never (fill_runs inner p inner i 0 ret) _ λ s e.
      let byte = fill_runs-IsByte inner p inner i 0 ret k s e in
      let more : leb s.0 p.pic_size_in_map_units_minus1 ≡ true = ground arith in
      rw more (interleaved-IsEndless inner p fuel s.0 s.1 h byte)

foreground-IsEndless :
    (inner : ℕ) (p : SliceGroupParams) (fuel i : ℕ) (ret : List ℕ)
    → IsEndless (foreground inner p fuel i ret)
unfolding foreground
foreground-IsEndless inner p zero i ret = λ m e. absurd (cc)
foreground-IsEndless inner p (suc fuel) i ret = >>=-Ensures Never (read p.top_left i) _ λ from _.
    >>=-Ensures Never (read p.bottom_right i) _ λ to _.
      >>=-Ensures Never _ _ λ ret' _. foreground-IsEndless inner p fuel (to_u8 (i + 255)) ret'

-- The map types whose loops count over all map units.
abbrev pub IsCounted : ℕ → Type 0
IsCounted type = (type ≡ 0) ⊎ (type ≡ 1) ⊎ (type ≡ 2) ⊎ (type ≡ 6)

fill_by_type-IsEndless :
    (fuel : ℕ) (p : SliceGroupParams) (type : ℕ) (ret : List ℕ)
    → 255 ≤ p.pic_size_in_map_units_minus1
    → IsCounted type
    → IsEndless (fill_by_type fuel p type ret)
unfolding fill_by_type
fill_by_type-IsEndless fuel p type ret large counted = elim counted [
  | inl e ↦ rw e (interleaved-IsEndless fuel p fuel 0 ret large (omega arith))
  | inr (inl e) ↦
      rw e (fill_map-IsEndless _ p.pic_size_in_map_units_minus1 fuel 0 ret large (omega arith))
  | inr (inr (inl e)) ↦ rw e (
      >>=-Ensures Never (fill_map _ p.pic_size_in_map_units_minus1 fuel 0 ret) _
        λ r _. foreground-IsEndless fuel p fuel (to_u8 (p.num_slice_groups_minus1 + 255)) r)
  | inr (inr (inr e)) ↦
      rw e (fill_map-IsEndless _ p.pic_size_in_map_units_minus1 fuel 0 ret large (omega arith))
]

-- With several slice groups of type 0, 1, 2 or 6 and more than 255 map units, no fuel lets the
-- function return a map.
pub get_slice_group_map_large :
    (fuel : ℕ) (p : SliceGroupParams)
    → p.num_slice_groups_minus1 ≢ 0
    → 255 ≤ p.pic_size_in_map_units_minus1
    → IsCounted p.slice_group_map_type
    → IsEndless (get_slice_group_map fuel p)
unfolding get_slice_group_map
get_slice_group_map_large fuel p several large counted =
    let num : (p.num_slice_groups_minus1 == 0) ≡ false = ground arith in
    rw num (fill_by_type-IsEndless fuel p p.slice_group_map_type _ large counted)

foreground_type-IsEndless :
    (fuel : ℕ) (p : SliceGroupParams) (type : ℕ) (ret : List ℕ)
    → type ≡ 2
    → IsEndless (fill_by_type fuel p type ret)
unfolding fill_by_type
foreground_type-IsEndless fuel p type ret e = rw e (
    >>=-Ensures Never (fill_map _ p.pic_size_in_map_units_minus1 fuel 0 ret) _
      λ r _. foreground-IsEndless fuel p fuel (to_u8 (p.num_slice_groups_minus1 + 255)) r)

-- With several slice groups of type 2 no fuel lets the function return a map, whatever the size of
-- the picture.
pub get_slice_group_map_foreground :
    (fuel : ℕ) (p : SliceGroupParams)
    → p.num_slice_groups_minus1 ≢ 0
    → p.slice_group_map_type ≡ 2
    → IsEndless (get_slice_group_map fuel p)
unfolding get_slice_group_map
get_slice_group_map_foreground fuel p several two =
    let num : (p.num_slice_groups_minus1 == 0) ≡ false = ground arith in
    rw num (foreground_type-IsEndless fuel p p.slice_group_map_type _ two)
