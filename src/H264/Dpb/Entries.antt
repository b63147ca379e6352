-- ===== src/H264/Dpb/Entries.antt =====
-- The entry that fill_dbp_entry makes of one picture.
use gst_vk_video_parser.Prelude.{
  ℕ, ◌≡◌, ◌≢◌, ◌↔◌, ◌⊎◌, refl, inl, inr, Option, none, some, arith, Option-cases,
}
use gst_vk_video_parser.H264.Dpb.{
  Picture, PictureField, frame, top_field, bottom_field, FieldOrderCnt, fill_dbp_entry,
  field_reference,
}

-- The picture is a frame, or a field whose other field is known.
abbrev pub IsComplete : Picture → Type 0
IsComplete p = (p.field ≡ frame) ⊎ (p.other_field ≢ none)

field_reference_complete :
    (f : PictureField) (cnt : FieldOrderCnt) (other : Option FieldOrderCnt)
    → ((field_reference f cnt other).0 ≡ 3) ↔ ((f ≡ frame) ⊎ (other ≢ none))
unfolding field_reference
field_reference_complete frame cnt other = (λ _. inl refl, λ _. refl)
field_reference_complete top_field cnt (some o) = (λ _. inr (λ e. cc), λ _. refl)
field_reference_complete top_field cnt none =
    (λ e. absurd (omega arith), λ s. elim s [ inl e ↦ absurd (cc) | inr e ↦ absurd (e refl) ])
field_reference_complete bottom_field cnt (some o) = (λ _. inr (λ e. cc), λ _. refl)
field_reference_complete bottom_field cnt none =
    (λ e. absurd (omega arith), λ s. elim s [ inl e ↦ absurd (cc) | inr e ↦ absurd (e refl) ])

-- For a picture that has decoder data the entry is marked as used by both fields, 3, exactly when the
-- picture is a frame or its other field is known.
pub fill_dbp_entry_both :
    (p : Picture) (pic : Option ℕ)
    → p.user_data ≡ some pic
    → ((fill_dbp_entry p).used_for_reference ≡ 3) ↔ IsComplete p
unfolding fill_dbp_entry
fill_dbp_entry_both p pic e =
    rw (e, fill_dbp_entry) (field_reference_complete p.field p.order_cnt p.other_field)

field_reference_never_top :
    (f : PictureField) (cnt : FieldOrderCnt) (other : Option FieldOrderCnt)
    → (field_reference f cnt other).0 ≢ 1
unfolding field_reference
field_reference_never_top frame cnt other e = omega arith
field_reference_never_top top_field cnt (some o) e = omega arith
field_reference_never_top top_field cnt none e = omega arith
field_reference_never_top bottom_field cnt (some o) e = omega arith
field_reference_never_top bottom_field cnt none e = omega arith

-- No picture is ever marked as used by its top field alone, 1.
pub fill_dbp_entry_never_top : (p : Picture) → (fill_dbp_entry p).used_for_reference ≢ 1
unfolding fill_dbp_entry
fill_dbp_entry_never_top p = elim (Option-cases p.user_data) [
  | inl e ↦ rw (e, fill_dbp_entry) (λ h. omega arith)
  | inr (pic, e) ↦
      rw (e, fill_dbp_entry) (field_reference_never_top p.field p.order_cnt p.other_field)
]
