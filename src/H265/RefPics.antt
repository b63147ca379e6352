-- ===== src/H265/RefPics.antt =====
-- The loops of gst_vk_h265_dec_start_picture that list the reference pictures and number the three
-- reference picture sets. The base decoder's pictures come from the codecs library: their fields are
-- arguments.
pub mod Listing
pub mod Numbering
mod Tests
use gst_vk_video_parser.Prelude.{
  ℕ, zero, suc, ◌+◌, Bool, true, false, List, [], ◌∷◌, Option, none, some, length, get_elem?, set,
  take, replicate, ltb, leb, ◌==◌, if◌then◌else◌,
}
use gst_vk_video_parser.Prelude.Int.{ℤ, pos, same_int}

-- What the loops read of a GstH265Picture. `frame` is the `pic` of its VkPic, if it has one; `pic` is
-- itself null where there is no client.
pub record Picture : Type 0 where
  pub ref : Bool
  pub frame : Option (Option ℕ)
  pub pic_order_cnt : ℤ
  pub long_term : Bool

-- An entry of the arrays RefPics, PicOrderCntVal and IsLongTerm.
pub record RefPic : Type 0 where
  pub pic : Option ℕ
  pub pic_order_cnt : ℤ
  pub is_long_term : Bool

-- The arrays are zero at first.
abbrev pub empty_ref_pic : RefPic
empty_ref_pic = record { pic = none; pic_order_cnt = pos 0; is_long_term = false }

-- G_N_ELEMENTS (h265->RefPics), and of each reference picture set.
abbrev pub max_ref_pics : ℕ
max_ref_pics = 16

abbrev pub max_set : ℕ
max_set = 8

-- The arrays and `num_ref_pic`.
pub record RefPics : Type 0 where
  pub num_ref_pic : ℕ
  pub ref_pics : List RefPic

abbrev pub new_ref_pics : RefPics
new_ref_pics = record { num_ref_pic = 0; ref_pics = replicate max_ref_pics empty_ref_pic }

-- How a loop ends: with its result, with GST_FLOW_ERROR, by the use of the null `other_frame`, by the use
-- of the null `vps`, or by a write outside an array.
pub data RefResult {ℓ} (A : Type ℓ) : Type ℓ where
  filled : A → RefResult A
  too_many : RefResult A
  null_frame : RefResult A
  null_vps : RefResult A
  out_of_bounds : RefResult A

infixl 5 ◌>>=◌
abbrev pub ◌>>=◌ {ℓ κ} : {A : Type ℓ} {B : Type κ} → RefResult A → (A → RefResult B) → RefResult B
filled a >>= f = f a
too_many >>= f = too_many
null_frame >>= f = null_frame
null_vps >>= f = null_vps
out_of_bounds >>= f = out_of_bounds

-- The body of the first loop for a picture that is a reference, given its frame.
abbrev pub add_frame : Option (Option ℕ) → Picture → RefPics → RefResult RefPics
add_frame none p r = null_frame
add_frame (some pic) p r = filled (record {
  num_ref_pic = r.num_ref_pic + 1;
  ref_pics =
      set r.ref_pics r.num_ref_pic
        (record { pic = pic; pic_order_cnt = p.pic_order_cnt; is_long_term = p.long_term });
})

-- The body of the first loop.
unfoldable pub add_ref_pic : Picture → RefPics → RefResult RefPics
add_ref_pic p r =
    if p.ref
    then if leb max_ref_pics r.num_ref_pic then too_many else add_frame p.frame p r
    else filled r

-- `for (i = 0; i < dpb_array->len; i++)`
unfoldable pub fill_ref_pics : List Picture → RefPics → RefResult RefPics
fill_ref_pics [] r = filled r
fill_ref_pics (p ∷ ps) r = add_ref_pic p r >>= fill_ref_pics ps

-- `while (!other && j < NumPoc...)`: the order count of the next picture that is not null, and the
-- entries after it.
unfoldable pub next_other : List (Option ℤ) → Option ℤ × List (Option ℤ)
next_other [] = (none, [])
next_other (none ∷ others) = next_other others
next_other (some poc ∷ others) = (some poc, others)

-- The index in a list of that in the rest of it.
abbrev pub shifted : Option ℕ → Option ℕ
shifted none = none
shifted (some k) = some (suc k)

-- `for (k = 0; k < num_ref_pic; k++)`: the first reference picture with the order count.
unfoldable pub find_ref_pic : List RefPic → ℤ → Option ℕ
find_ref_pic [] poc = none
find_ref_pic (r ∷ rs) poc =
    if same_int r.pic_order_cnt poc then some 0 else shifted (find_ref_pic rs poc)

abbrev pub find_other : List RefPic → Option ℤ → Option ℕ
find_other rs none = none
find_other rs (some poc) = find_ref_pic rs poc

-- `RefPicSet...[i] = k`, if there is such a `k`.
abbrev pub write_set : ℕ → Option ℕ → List ℕ → RefResult (List ℕ)
write_set i none ref_set = filled ref_set
write_set i (some k) ref_set = if ltb i max_set then filled (set ref_set i k) else out_of_bounds

-- `for (i = 0, j = 0; i < num_ref_pic; i++)`, by the rounds that are left, for one of the three sets;
-- `rs` are the reference pictures and `others` the decoder's entries from `j` on.
unfoldable pub fill_set : List RefPic → ℕ → ℕ → List (Option ℤ) → List ℕ → RefResult (List ℕ)
fill_set rs zero i others ref_set = filled ref_set
fill_set rs (suc rounds) i others ref_set =
    let (other, rest) = next_other others in
    write_set i (find_other rs other) ref_set >>= fill_set rs rounds (i + 1) rest

-- RefPicSetStCurrBefore, RefPicSetStCurrAfter and RefPicSetLtCurr.
pub record RefPicSets : Type 0 where
  pub st_curr_before : List ℕ
  pub st_curr_after : List ℕ
  pub lt_curr : List ℕ

-- The loops for the three sets, over what the first loop leaves. The three lists are the first
-- NumPocStCurrBefore, NumPocStCurrAfter and NumPocLtCurr entries of the decoder's arrays.
unfoldable pub number_ref_pics :
    List (Option ℤ) → List (Option ℤ) → List (Option ℤ) → RefPics → RefResult (RefPics × RefPicSets)
number_ref_pics before after lt r = do
  let rs = take r.num_ref_pic r.ref_pics
  let unset = replicate max_set 0
  b ← fill_set rs r.num_ref_pic 0 before unset
  a ← fill_set rs r.num_ref_pic 0 after unset
  l ← fill_set rs r.num_ref_pic 0 lt unset
  filled (r, record { st_curr_before = b; st_curr_after = a; lt_curr = l })

-- The block "reference frames".
unfoldable pub ref_pic_sets :
    List Picture
    → List (Option ℤ)
    → List (Option ℤ)
    → List (Option ℤ)
    → RefResult (RefPics × RefPicSets)
ref_pic_sets dpb before after lt =
    fill_ref_pics dpb new_ref_pics >>= number_ref_pics before after lt
