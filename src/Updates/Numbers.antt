-- ===== src/Updates/Numbers.antt =====
-- The numbers of the updates.
use gst_vk_video_parser.Prelude.{
  ℕ, zero, suc, ◌≡◌, refl, ap, Bool, true, false, List, [], ◌∷◌, add_u32,
}
use gst_vk_video_parser.Updates.{
  NalType, sps, pps, vps, other, Counts, Update, h264_update, h265_update, updates,
}

abbrev pub keep : Bool → ℕ → List ℕ → List ℕ
keep true n ns = n ∷ ns
keep false n ns = ns

-- The numbers of the updates with the chosen types, in order.
abbrev pub numbers : (NalType → Bool) → List Update → List ℕ
numbers chosen [] = []
numbers chosen (u ∷ us) = keep (chosen u.update_type) u.update_sequence_count (numbers chosen us)

abbrev pub one_if : Bool → ℕ → ℕ
one_if true n = suc n
one_if false n = n

-- How many of the NAL units have a chosen type.
abbrev pub how_many : (NalType → Bool) → List NalType → ℕ
how_many chosen [] = 0
how_many chosen (n ∷ ns) = one_if (chosen n) (how_many chosen ns)

-- As many numbers from the first one on, modulo 2^32.
abbrev pub from : ℕ → ℕ → List ℕ
from first zero = []
from first (suc n) = first ∷ from (add_u32 first 1) n

abbrev pub is_sps : NalType → Bool
is_sps sps = true
is_sps _ = false

abbrev pub is_pps : NalType → Bool
is_pps pps = true
is_pps _ = false

abbrev pub is_pps_or_vps : NalType → Bool
is_pps_or_vps pps = true
is_pps_or_vps vps = true
is_pps_or_vps _ = false

-- For H.264, whatever the stream interleaves, the SPS updates are numbered in sequence from the SPS
-- counter on, one for each SPS, and the PPS updates from the PPS counter on, one for each PPS.
pub h264_numbers :
    (c : Counts) (ns : List NalType)
    → (numbers is_sps (updates h264_update c ns) ≡ from c.sps_update_count (how_many is_sps ns))
      × (numbers is_pps (updates h264_update c ns) ≡ from c.pps_update_count (how_many is_pps ns))
unfolding updates h264_update
h264_numbers c [] = (refl, refl)
h264_numbers c (sps ∷ ns) =
    let r = h264_numbers (record c { sps_update_count = add_u32 c.sps_update_count 1 }) ns in
    (ap (λ l. c.sps_update_count ∷ l) r.0, r.1)
h264_numbers c (pps ∷ ns) =
    let r = h264_numbers (record c { pps_update_count = add_u32 c.pps_update_count 1 }) ns in
    (r.0, ap (λ l. c.pps_update_count ∷ l) r.1)
h264_numbers c (vps ∷ ns) = h264_numbers c ns
h264_numbers c (other ∷ ns) = h264_numbers c ns

-- For H.265 the SPS updates are numbered in the same way, but the VPS updates and the PPS updates share
-- the numbers of the PPS counter.
pub h265_numbers :
    (c : Counts) (ns : List NalType)
    → (numbers is_sps (updates h265_update c ns) ≡ from c.sps_update_count (how_many is_sps ns))
      × (numbers is_pps_or_vps (updates h265_update c ns)
          ≡ from c.pps_update_count (how_many is_pps_or_vps ns))
unfolding updates h265_update
h265_numbers c [] = (refl, refl)
h265_numbers c (sps ∷ ns) =
    let r = h265_numbers (record c { sps_update_count = add_u32 c.sps_update_count 1 }) ns in
    (ap (λ l. c.sps_update_count ∷ l) r.0, r.1)
h265_numbers c (pps ∷ ns) =
    let r = h265_numbers (record c { pps_update_count = add_u32 c.pps_update_count 1 }) ns in
    (r.0, ap (λ l. c.pps_update_count ∷ l) r.1)
h265_numbers c (vps ∷ ns) =
    let r = h265_numbers (record c { pps_update_count = add_u32 c.pps_update_count 1 }) ns in
    (r.0, ap (λ l. c.pps_update_count ∷ l) r.1)
h265_numbers c (other ∷ ns) = h265_numbers c ns
