-- ===== src/H264/Dpb.antt =====
-- fill_dbp_entry and the loops of gst_vk_h264_dec_start_picture that list the reference frames. The
-- base decoder's pictures, and its two queries for references, come from the codecs library: the
-- pictures' fields and the queries' answers are arguments.
pub mod Entries
pub mod Filling
pub mod Order
mod Tests
use gst_vk_video_parser.Prelude.{
  ℕ, zero, suc, ◌+◌, Bool, true, false, ◌&&◌, List, [], ◌∷◌, Option, none, some, length, get_elem?,
  set, replicate, ltb, if◌then◌else◌,
}
use gst_vk_video_parser.Prelude.Int.{ℤ, pos}

-- GstH264PictureField
pub data PictureField : Type 0 where
  frame top_field bottom_field : PictureField

-- The two order counts of a picture.
pub record FieldOrderCnt : Type 0 where
  pub top : ℤ
  pub bottom : ℤ

-- What the decoder reads of a GstH264Picture. `user_data` is the `pic` of its VkPic, if it has one;
-- `pic` is itself null where there is no client. `other_field` holds the counts of the other field.
pub record Picture : Type 0 where
  pub user_data : Option (Option ℕ)
  pub is_long_term_ref : Bool
  pub pic_num : ℤ
  pub long_term_pic_num : ℤ
  pub nonexisting : Bool
  pub field : PictureField
  pub order_cnt : FieldOrderCnt
  pub other_field : Option FieldOrderCnt

-- VkParserH264DpbEntry
pub record DpbEntry : Type 0 where
  pub pic_buf : Option ℕ
  pub frame_idx : ℤ
  pub is_long_term : Bool
  pub not_existing : Bool
  pub used_for_reference : ℕ
  pub field_order_cnt : FieldOrderCnt

-- `{ 0, }`
abbrev pub empty_entry : DpbEntry
empty_entry = record {
  pic_buf = none;
  frame_idx = pos 0;
  is_long_term = false;
  not_existing = false;
  used_for_reference = 0;
  field_order_cnt = record { top = pos 0; bottom = pos 0 };
}

-- The `switch` on the field: used_for_reference and FieldOrderCnt.
unfoldable pub field_reference :
    PictureField → FieldOrderCnt → Option FieldOrderCnt → ℕ × FieldOrderCnt
field_reference frame cnt other = (3, cnt)
field_reference bottom_field cnt (some other) = (3, record { top = other.top; bottom = cnt.bottom })
field_reference bottom_field cnt none = (2, record { top = pos 0; bottom = cnt.bottom })
field_reference top_field cnt (some other) = (3, record { top = cnt.top; bottom = other.bottom })
field_reference top_field cnt none = (2, record { top = cnt.top; bottom = pos 0 })

unfoldable pub fill_dbp_entry : Picture → DpbEntry
fill_dbp_entry p = elim p.user_data [
  | none ↦ empty_entry
  | some pic ↦ record {
    pic_buf = pic;
    frame_idx = if p.is_long_term_ref then p.long_term_pic_num else p.pic_num;
    is_long_term = p.is_long_term_ref;
    not_existing = p.nonexisting;
    used_for_reference = (field_reference p.field p.order_cnt p.other_field).0;
    field_order_cnt = (field_reference p.field p.order_cnt p.other_field).1;
  }
]

-- `VkParserH264DpbEntry dpb[16 + 1]`
abbrev pub dpb_size : ℕ
dpb_size = 17

-- The counters `i` and `ref_frame_idx` and the array.
pub record Scan : Type 0 where
  pub i : ℕ
  pub ref_frame_idx : ℕ
  pub dpb : List DpbEntry

-- `for (; ref_frame_idx < 16 + 1 && i < self->refs->len; i++)`: each round takes an entry of the array,
-- so that as many rounds as it has entries are enough.
unfoldable pub fill_dpb : ℕ → List Picture → Scan → Scan
fill_dpb zero refs s = s
fill_dpb (suc rounds) refs s = elim (get_elem? refs s.i) [
  | none ↦ s
  | some pic ↦
      let rest = fill_dpb rounds refs (record {
        i = s.i + 1;
        ref_frame_idx = s.ref_frame_idx + 1;
        dpb = set s.dpb s.ref_frame_idx (fill_dbp_entry pic);
      }) in
      if ltb s.ref_frame_idx dpb_size then rest else s
]

-- `for (; ref_frame_idx < 16 + 1; ref_frame_idx++) h264->dpb[ref_frame_idx] = { 0, }`
unfoldable pub clear_dpb : ℕ → ℕ → List DpbEntry → List DpbEntry
clear_dpb zero ref_frame_idx dpb = dpb
clear_dpb (suc rounds) ref_frame_idx dpb =
    let rest = clear_dpb rounds (ref_frame_idx + 1) (set dpb ref_frame_idx empty_entry) in
    if ltb ref_frame_idx dpb_size then rest else dpb

-- The block "reference frames": the array starts out zero, and `i` is not reset between the loops.
unfoldable pub reference_frames : List Picture → List Picture → List DpbEntry
reference_frames short_term long_term =
    let first =
      fill_dpb dpb_size short_term
        (record { i = 0; ref_frame_idx = 0; dpb = replicate dpb_size empty_entry }) in
    let second = fill_dpb dpb_size long_term first in
    clear_dpb dpb_size second.ref_frame_idx second.dpb
