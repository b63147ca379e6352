-- ===== src/H264/SliceGroups/Groups.antt =====
-- What get_slice_group_map returns where it does.
use gst_vk_video_parser.Prelude.{
  ℕ, ◌+◌, ◌-◌, ◌%◌, ◌≤◌, ◌<◌, ◌≡◌, ◌≢◌, refl, ap, ◌∙◌, ◌*◌, ◌/◌, u32_mod, List, some, to_u32,
  add_u32, arith, length, get_elem?, replicate, length-replicate,
}
use gst_vk_video_parser.H264.SliceGroups.Filling.{fill_map-Filled}
use gst_vk_video_parser.H264.SliceGroups.{
  SliceGroupParams, Outcome, done, read, fill_map, dispersed, fill_by_type, get_slice_group_map,
}

-- A map that gives unit `k` of the picture the group `value k`, and has no other unit.
pub record Maps (p : SliceGroupParams) (value : ℕ → ℕ) (o : Outcome (List ℕ)) : Type 0 where
  pub map : List ℕ
  pub result : o ≡ done map
  pub units : length map ≡ p.pic_size_in_map_units_minus1 + 1
  pub groups : (k : ℕ) → k ≤ p.pic_size_in_map_units_minus1 → get_elem? map k ≡ some (value k)

fill_map-Maps :
    (fuel : ℕ) (p : SliceGroupParams) (read_value : ℕ → Outcome ℕ) (value : ℕ → ℕ)
    → p.pic_size_in_map_units_minus1 < 255
    → ((k : ℕ) → k ≤ p.pic_size_in_map_units_minus1 → read_value k ≡ done (value k))
    → ((k : ℕ) → k ≤ p.pic_size_in_map_units_minus1 → value k < 256)
    → p.pic_size_in_map_units_minus1 + 1 < fuel
    → Maps p value (
        fill_map read_value p.pic_size_in_map_units_minus1 fuel 0
          (replicate (add_u32 p.pic_size_in_map_units_minus1 1) 0))
fill_map-Maps fuel p read_value value small reads bytes enough =
    let size = p.pic_size_in_map_units_minus1 in
    let fresh : List ℕ = replicate (add_u32 size 1) 0 in
    let len : length fresh ≡ size + 1 = length-replicate (add_u32 size 1) 0 ∙ omega arith in
    let r =
      fill_map-Filled read_value value size small reads fuel 0 fresh len (omega arith)
        (omega arith) in
    record {
      map = r.after;
      result = r.result;
      units = r.same_length ∙ len;
      groups = λ k h.
          r.filled k (omega arith) h ∙ ap some (let b : value k < 256 = bytes k h in omega arith);
    }

-- The dispersed map of H.264 (8.2.2.2), over numbers that do not wrap.
abbrev pub dispersed_unit : SliceGroupParams → ℕ → ℕ
dispersed_unit p i =
    let width = p.pic_width_in_mbs_minus1 + 1 in
    let groups = p.num_slice_groups_minus1 + 1 in (i % width + i / width * groups / 2) % groups

div-mul-le : (i w g : ℕ) → i < 256 → g ≤ 8 → i / (w + 1) * g ≤ 2040
div-mul-le i w g a b = let quotient : i / (w + 1) ≤ 255 = grind arith in grind arith

no_wrap : (a q m : ℕ) → a < 256 → q ≤ 2040 → add_u32 a (to_u32 q / 2) % m ≡ (a + q / 2) % m
no_wrap a q m h k = ap (λ x. x % m) (omega arith)

mod-lt-byte : (i w : ℕ) → i < 256 → i % (w + 1) < 256
mod-lt-byte i w h = grind arith

dispersed-eq-unit :
    (p : SliceGroupParams) (i : ℕ)
    → i < 256
    → p.num_slice_groups_minus1 ≤ 7
    → p.pic_width_in_mbs_minus1 < u32_mod - 1
    → dispersed p i ≡ dispersed_unit p i
unfolding dispersed
dispersed-eq-unit p i a b c =
    let w = p.pic_width_in_mbs_minus1 in
    let g = p.num_slice_groups_minus1 in
    let width : add_u32 w 1 ≡ w + 1 = omega arith in
    let groups : add_u32 g 1 ≡ g + 1 = omega arith in
    rw (width, groups)
      (no_wrap (i % (w + 1)) (i / (w + 1) * (g + 1)) (g + 1) (mod-lt-byte i w a)
        (div-mul-le i w (g + 1) a (omega arith)))

mod-lt-eight : (x g : ℕ) → g ≤ 7 → x % (g + 1) < 256
mod-lt-eight x g h = let m : x % (g + 1) < g + 1 = omega arith in omega arith

dispersed_unit-byte :
    (p : SliceGroupParams) (k : ℕ) → p.num_slice_groups_minus1 ≤ 7 → dispersed_unit p k < 256
dispersed_unit-byte p k h =
    mod-lt-eight
      (k % (p.pic_width_in_mbs_minus1 + 1)
        + k / (p.pic_width_in_mbs_minus1 + 1) * (p.num_slice_groups_minus1 + 1) / 2)
      p.num_slice_groups_minus1 h

of_type_dispersed :
    (fuel : ℕ) (p : SliceGroupParams)
    → p.slice_group_map_type ≡ 1
    → p.num_slice_groups_minus1 ≢ 0
    → get_slice_group_map fuel p
      ≡ fill_map
          (λ i. done (dispersed p i))
          p.pic_size_in_map_units_minus1
          fuel
          0
          (replicate (add_u32 p.pic_size_in_map_units_minus1 1) 0)
unfolding get_slice_group_map fill_by_type
of_type_dispersed fuel p type several = ground arith

of_type_explicit :
    (fuel : ℕ) (p : SliceGroupParams)
    → p.slice_group_map_type ≡ 6
    → p.num_slice_groups_minus1 ≢ 0
    → get_slice_group_map fuel p
      ≡ fill_map
          (λ i. read p.slice_group_id i)
          p.pic_size_in_map_units_minus1
          fuel
          0
          (replicate (add_u32 p.pic_size_in_map_units_minus1 1) 0)
unfolding get_slice_group_map fill_by_type
of_type_explicit fuel p type several = ground arith

-- With two to eight slice groups of type 1 and at most 255 map units the function returns, with
-- fuel for every unit, exactly the dispersed map of the standard.
pub get_slice_group_map_dispersed :
    (fuel : ℕ) (p : SliceGroupParams)
    → p.slice_group_map_type ≡ 1
    → p.num_slice_groups_minus1 ≢ 0
    → p.num_slice_groups_minus1 ≤ 7
    → p.pic_width_in_mbs_minus1 < u32_mod - 1
    → p.pic_size_in_map_units_minus1 < 255
    → p.pic_size_in_map_units_minus1 + 1 < fuel
    → Maps p (dispersed_unit p) (get_slice_group_map fuel p)
get_slice_group_map_dispersed fuel p type several few narrow small enough =
    rw (of_type_dispersed fuel p type several) (
      fill_map-Maps fuel p (λ i. done (dispersed p i)) (dispersed_unit p) small
        (λ k h. ap done (dispersed-eq-unit p k (omega arith) few narrow))
        (λ k h. dispersed_unit-byte p k few) enough)

-- With several slice groups of type 6 and at most 255 map units, each with an identifier that is a
-- byte, the function returns, with fuel for every unit, the identifiers in order.
pub get_slice_group_map_explicit :
    (fuel : ℕ) (p : SliceGroupParams) (ids : ℕ → ℕ)
    → p.slice_group_map_type ≡ 6
    → p.num_slice_groups_minus1 ≢ 0
    → p.pic_size_in_map_units_minus1 < 255
    → ((k : ℕ)
        → k ≤ p.pic_size_in_map_units_minus1
        → (get_elem? p.slice_group_id k ≡ some (ids k)) × (ids k < 256))
    → p.pic_size_in_map_units_minus1 + 1 < fuel
    → Maps p ids (get_slice_group_map fuel p)
get_slice_group_map_explicit fuel p ids type several small at enough =
    rw (of_type_explicit fuel p type several) (
      fill_map-Maps fuel p (λ i. read p.slice_group_id i) ids small
        (λ k h. rw ((at k h).0, read) refl) (λ k h. (at k h).1) enough)
