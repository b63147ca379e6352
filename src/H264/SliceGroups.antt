-- ===== src/H264/SliceGroups.antt =====
-- get_slice_group_map: which slice group each map unit of the picture belongs to. The counters `i`,
-- `j` and `k` are uint8_t, so each increment is taken modulo 256.
pub mod Ensures
pub mod Endless
pub mod Filling
pub mod Groups
mod Tests
use gst_vk_video_parser.Prelude.{
  ℕ, zero, suc, ◌+◌, ◌*◌, ◌/◌, ◌%◌, Bool, ◌&&◌, List, Option, none, some, length, get_elem?, set,
  replicate, ltb, leb, ◌==◌, if◌then◌else◌, to_u8, to_u32, add_u32,
}

-- What the function reads of GstH264PPS and of its sequence. `slice_group_id` is the array behind the
-- pointer; the three others have eight entries.
pub record SliceGroupParams : Type 0 where
  pub pic_size_in_map_units_minus1 : ℕ
  pub num_slice_groups_minus1 : ℕ
  pub slice_group_map_type : ℕ
  pub run_length_minus1 : List ℕ
  pub top_left : List ℕ
  pub bottom_right : List ℕ
  pub slice_group_id : List ℕ
  pub pic_width_in_mbs_minus1 : ℕ

-- How far a loop came with its fuel: it ended, it read or wrote outside an array, or it still runs.
pub data Outcome {ℓ} (A : Type ℓ) : Type ℓ where
  done : A → Outcome A
  out_of_bounds : Outcome A
  running : Outcome A

infixl 5 ◌>>=◌
abbrev pub ◌>>=◌ {ℓ κ} : {A : Type ℓ} {B : Type κ} → Outcome A → (A → Outcome B) → Outcome B
done a >>= f = f a
out_of_bounds >>= f = out_of_bounds
running >>= f = running

abbrev pub read : List ℕ → ℕ → Outcome ℕ
read xs i = elim (get_elem? xs i) [ none ↦ out_of_bounds | some x ↦ done x ]

-- The array is of uint8_t.
abbrev pub write : List ℕ → ℕ → ℕ → Outcome (List ℕ)
write xs i v = if ltb i (length xs) then done (set xs i (to_u8 v)) else out_of_bounds

-- `for (i = 0; i <= pic_size_in_map_units_minus1; i++) ret[i] = value (i)`, the loop of the types 1
-- and 6 and the first one of type 2.
unfoldable pub fill_map : (ℕ → Outcome ℕ) → ℕ → ℕ → ℕ → List ℕ → Outcome (List ℕ)
fill_map value size zero i ret = running
fill_map value size (suc fuel) i ret =
    let rest = (do
      v ← value i
      ret' ← write ret i v
      fill_map value size fuel (to_u8 (i + 1)) ret') in
    if leb i size then rest else done ret

-- The value that type 1 gives unit `i`.
unfoldable pub dispersed : SliceGroupParams → ℕ → ℕ
dispersed p i =
    let width = add_u32 p.pic_width_in_mbs_minus1 1 in
    let groups = add_u32 p.num_slice_groups_minus1 1 in
    add_u32 (i % width) (to_u32 (i / width * groups) / 2) % groups

-- Type 0, the innermost loop: unit `i + k` and its successors go to group `j`.
unfoldable pub fill_run : ℕ → ℕ → ℕ → ℕ → ℕ → ℕ → List ℕ → Outcome (List ℕ)
fill_run size run i j zero k ret = running
fill_run size run i j (suc fuel) k ret =
    let rest = (do ret' ← write ret (i + k) j; fill_run size run i j fuel (to_u8 (k + 1)) ret') in
    if leb k run && leb (i + k) size then rest else done ret

-- Type 0, the loop over the groups; it also returns `i`.
unfoldable pub fill_runs : ℕ → SliceGroupParams → ℕ → ℕ → ℕ → List ℕ → Outcome (ℕ × List ℕ)
fill_runs inner p zero i j ret = running
fill_runs inner p (suc fuel) i j ret =
    let size = p.pic_size_in_map_units_minus1 in
    let rest = (do
      run ← read p.run_length_minus1 j
      ret' ← fill_run size run i j inner 0 ret
      fill_runs inner p fuel (to_u8 (i + run + 1)) (to_u8 (j + 1)) ret') in
    if leb j p.num_slice_groups_minus1 && leb i size then rest else done (i, ret)

-- Type 0, the outer `do ... while`.
unfoldable pub interleaved : ℕ → SliceGroupParams → ℕ → ℕ → List ℕ → Outcome (List ℕ)
interleaved inner p zero i ret = running
interleaved inner p (suc fuel) i ret = fill_runs inner p inner i 0 ret >>= λ s.
    let rest = interleaved inner p fuel s.0 s.1 in
    if leb s.0 p.pic_size_in_map_units_minus1 then rest else done s.1

-- Type 2, `for (k = xtl; k < xbr; k++)`.
unfoldable pub fill_columns : ℕ → ℕ → ℕ → ℕ → ℕ → ℕ → List ℕ → Outcome (List ℕ)
fill_columns width xbr i j zero k ret = running
fill_columns width xbr i j (suc fuel) k ret =
    let rest = (do
      ret' ← write ret (add_u32 (to_u32 (j * width)) k) i
      fill_columns width xbr i j fuel (to_u8 (k + 1)) ret') in
    if ltb k xbr then rest else done ret

-- Type 2, `for (j = ytl; j < ybr; j++)`.
unfoldable pub fill_rows : ℕ → ℕ → ℕ → ℕ → ℕ → ℕ → ℕ → ℕ → List ℕ → Outcome (List ℕ)
fill_rows inner width xtl xbr ybr i zero j ret = running
fill_rows inner width xtl xbr ybr i (suc fuel) j ret =
    let rest = (do
      ret' ← fill_columns width xbr i j inner (to_u8 xtl) ret
      fill_rows inner width xtl xbr ybr i fuel (to_u8 (j + 1)) ret') in
    if ltb j ybr then rest else done ret

-- Type 2, `for (i = num_slice_groups_minus1 - 1; i >= 0; i--)`: the test holds for every uint8_t.
unfoldable pub foreground : ℕ → SliceGroupParams → ℕ → ℕ → List ℕ → Outcome (List ℕ)
foreground inner p zero i ret = running
foreground inner p (suc fuel) i ret = do
  from ← read p.top_left i
  to ← read p.bottom_right i
  let width = add_u32 p.pic_width_in_mbs_minus1 1
  ret' ←
      fill_rows inner width (from % width) (to % width) (to / width) i inner (to_u8 (from / width))
        ret
  foreground inner p fuel (to_u8 (i + 255)) ret'

-- The `switch` on slice_group_map_type; the types 3, 4 and 5 leave the map as it is.
unfoldable pub fill_by_type : ℕ → SliceGroupParams → ℕ → List ℕ → Outcome (List ℕ)
fill_by_type fuel p type ret =
    let size = p.pic_size_in_map_units_minus1 in
    let num = p.num_slice_groups_minus1 in
    if type == 0
    then interleaved fuel p fuel 0 ret
    else if type == 1
    then fill_map (λ i. done (dispersed p i)) size fuel 0 ret
    else if type == 2
    then (fill_map (λ _. done num) size fuel 0 ret >>= foreground fuel p fuel (to_u8 (num + 255)))
    else if type == 6
    then fill_map (λ i. read p.slice_group_id i) size fuel 0 ret
    else done ret

-- The whole function; every loop gets the same fuel. The new map is all zero.
unfoldable pub get_slice_group_map : ℕ → SliceGroupParams → Outcome (List ℕ)
get_slice_group_map fuel p =
    let ret = replicate (add_u32 p.pic_size_in_map_units_minus1 1) 0 in
    if p.num_slice_groups_minus1 == 0
    then done ret
    else fill_by_type fuel p p.slice_group_map_type ret
