-- ===== src/H265/RefPics/Listing.antt =====
-- The list of the reference pictures.
use gst_vk_video_parser.Prelude.{
  ℕ, zero, suc, ◌+◌, ◌-◌, ◌≡◌, refl, ap, ap₂, sym, ◌∙◌, Bool, true, false, List, [], ◌∷◌, ◌++◌,
  append_assoc, append-nil, Option, none, some, length, length-append, set-append, replicate, leb,
  if◌then◌else◌, arith, Bool-cases, inl, inr,
}
use gst_vk_video_parser.H265.RefPics.{
  Picture, RefPic, RefPics, RefResult, filled, too_many, ◌>>=◌, empty_ref_pic, max_ref_pics,
  new_ref_pics, add_frame, add_ref_pic, fill_ref_pics,
}

abbrev pub pic_of : Option (Option ℕ) → Option ℕ
pic_of none = none
pic_of (some pic) = pic

abbrev pub entry : Picture → RefPic
entry p = record {
  pic = pic_of p.frame;
  pic_order_cnt = p.pic_order_cnt;
  is_long_term = p.long_term;
}

-- The entries of the reference pictures among the pictures, in order.
abbrev pub listed : List Picture → List RefPic
listed [] = []
listed (p ∷ ps) = if p.ref then entry p ∷ listed ps else listed ps

-- Every reference picture has its VkPic.
abbrev pub HaveFrames : List Picture → Type 0
HaveFrames [] = Unit
HaveFrames (p ∷ ps) = (p.ref ≡ true → (pic : Option ℕ) × (p.frame ≡ some pic)) × HaveFrames ps

-- The arrays with these entries in front, and `room` empty ones behind them.
abbrev pub holding : List RefPic → ℕ → RefPics
holding front room = record {
  num_ref_pic = length front;
  ref_pics = front ++ replicate room empty_ref_pic;
}

abbrev pub fits : List RefPic → ℕ → List RefPic → RefResult RefPics
fits front room rs =
    if leb (length rs) room then filled (holding (front ++ rs) (room - length rs)) else too_many

add_frame-holding :
    (p : Picture) (front : List RefPic) (room : ℕ) (pic : Option ℕ)
    → p.frame ≡ some pic
    → add_frame p.frame p (holding front (suc room)) ≡ filled (holding (front ++ entry p ∷ []) room)
add_frame-holding p front room pic e =
    let e' : RefPic = record {
      pic = pic;
      pic_order_cnt = p.pic_order_cnt;
      is_long_term = p.long_term;
    } in
    let same : e' ≡ entry p =
      ap
        (λ f. record {
          pic = pic_of f;
          pic_order_cnt = p.pic_order_cnt;
          is_long_term = p.long_term;
        })
        (sym e) in
    ap (λ f. add_frame f p (holding front (suc room))) e
    ∙ ap₂ (λ n rs. filled (record { num_ref_pic = n; ref_pics = rs }))
        (sym (length-append front (entry p ∷ [])))
        (set-append front (replicate room empty_ref_pic) empty_ref_pic e'
          ∙ ap (λ x. front ++ x ∷ replicate room empty_ref_pic) same
          ∙ sym (append_assoc front (entry p ∷ []) (replicate room empty_ref_pic)))

fits-cons :
    (front : List RefPic) (room : ℕ) (r : RefPic) (rs : List RefPic)
    → fits (front ++ r ∷ []) room rs ≡ fits front (suc room) (r ∷ rs)
fits-cons front room r rs = elim (Bool-cases (leb (length rs) room)) [
  | inl small ↦
      let small' : leb (suc (length rs)) (suc room) ≡ true = ground (arith, small) in
      let less : room - length rs ≡ suc room - suc (length rs) = omega arith in
      rw (small, small') (ap₂ (λ xs n. filled (holding xs n)) (append_assoc front (r ∷ []) rs) less)
  | inr large ↦
      let large' : leb (suc (length rs)) (suc room) ≡ false = ground (arith, large) in
      rw (large, large') refl
]

add_ref_pic_other : (p : Picture) (r : RefPics) → p.ref ≡ false → add_ref_pic p r ≡ filled r
unfolding add_ref_pic
add_ref_pic_other p r e =
    ap
      (λ b.
        if b
        then (if leb max_ref_pics r.num_ref_pic then too_many else add_frame p.frame p r)
        else filled r)
      e

-- The body of the loop for a reference picture, in a list with room and in a full one.
add_ref_pic-ref :
    (p : Picture) (front : List RefPic) (room : ℕ) (pic : Option ℕ)
    → length front + suc room ≡ 16
    → p.ref ≡ true
    → p.frame ≡ some pic
    → add_ref_pic p (holding front (suc room)) ≡ filled (holding (front ++ entry p ∷ []) room)
unfolding add_ref_pic
add_ref_pic-ref p front room pic size ref e =
    let more : leb 16 (length front) ≡ false = ground (arith, size) in
    ap (λ b. if b then added else filled (holding front (suc room))) ref
    ∙ ap (λ b. if b then too_many else add_frame p.frame p (holding front (suc room))) more
    ∙ add_frame-holding p front room pic e
  where
    added : RefResult RefPics
    added =
        if leb max_ref_pics (length front)
        then too_many
        else add_frame p.frame p (holding front (suc room))

add_ref_pic_full :
    (p : Picture) (front : List RefPic)
    → length front ≡ 16
    → p.ref ≡ true
    → add_ref_pic p (holding front zero) ≡ too_many
unfolding add_ref_pic
add_ref_pic_full p front size ref =
    let none_left : leb 16 (length front) ≡ true = ground (arith, size) in
    ap (λ b. if b then added else filled (holding front zero)) ref
    ∙ ap (λ b. if b then too_many else add_frame p.frame p (holding front zero)) none_left
  where
    added : RefResult RefPics
    added =
        if leb max_ref_pics (length front)
        then too_many
        else add_frame p.frame p (holding front zero)

listed-ref :
    (p : Picture) (ps : List Picture) (b : Bool)
    → p.ref ≡ b
    → listed (p ∷ ps) ≡ (if b then entry p ∷ listed ps else listed ps)
listed-ref p ps b e = ap (λ c. if c then entry p ∷ listed ps else listed ps) e

fill_ref_pics-fits :
    (dpb : List Picture) (front : List RefPic) (room : ℕ)
    → length front + room ≡ 16
    → HaveFrames dpb
    → fill_ref_pics dpb (holding front room) ≡ fits front room (listed dpb)
unfolding fill_ref_pics
fill_ref_pics-fits [] front room size frames =
    let fine : leb 0 room ≡ true = ground arith in
    rw fine (ap₂ (λ xs n. filled (holding xs n)) (sym (append-nil front)) (omega arith))
fill_ref_pics-fits (p ∷ ps) front zero size frames = elim (Bool-cases p.ref) [
  | inr other ↦
      ap (λ r. r >>= fill_ref_pics ps) (add_ref_pic_other p (holding front zero) other)
      ∙ fill_ref_pics-fits ps front zero size frames.1
      ∙ ap (fits front zero) (sym (listed-ref p ps false other))
  | inl ref ↦
      ap (λ r. r >>= fill_ref_pics ps) (add_ref_pic_full p front (omega arith) ref)
      ∙ full (listed ps)
      ∙ ap (fits front zero) (sym (listed-ref p ps true ref))
]
  where
    full : (rs : List RefPic) → too_many ≡ fits front zero (entry p ∷ rs)
    full rs = let large : leb (suc (length rs)) zero ≡ false = ground arith in rw large refl
fill_ref_pics-fits (p ∷ ps) front (suc room) size frames = elim (Bool-cases p.ref) [
  | inr other ↦
      ap (λ r. r >>= fill_ref_pics ps) (add_ref_pic_other p (holding front (suc room)) other)
      ∙ fill_ref_pics-fits ps front (suc room) size frames.1
      ∙ ap (fits front (suc room)) (sym (listed-ref p ps false other))
  | inl ref ↦
      let (pic, has) = frames.0 ref in
      let longer : length (front ++ entry p ∷ []) + room ≡ 16 =
        omega (arith, length-append {0} front (entry p ∷ [])) in
      ap (λ r. r >>= fill_ref_pics ps) (add_ref_pic-ref p front room pic size ref has)
      ∙ fill_ref_pics-fits ps (front ++ entry p ∷ []) room longer frames.1
      ∙ fits-cons front room (entry p) (listed ps)
      ∙ ap (fits front (suc room)) (sym (listed-ref p ps true ref))
]

-- For a decoded picture buffer whose reference pictures have their VkPics: with at most 16 of them
-- the client is shown exactly these, in order, each with its picture, order count and kind, and empty
-- entries behind them; with more the call fails with GST_FLOW_ERROR.
pub fill_ref_pics_lem :
    (dpb : List Picture)
    → HaveFrames dpb
    → fill_ref_pics dpb new_ref_pics ≡ (
        if leb (length (listed dpb)) 16
        then filled (holding (listed dpb) (16 - length (listed dpb)))
        else too_many)
fill_ref_pics_lem dpb frames = fill_ref_pics-fits dpb [] 16 (omega arith) frames
