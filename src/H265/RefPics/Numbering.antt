-- ===== src/H265/RefPics/Numbering.antt =====
-- The numbers that a reference picture set is filled with.
use gst_vk_video_parser.Prelude.{
  ℕ, zero, suc, ◌+◌, ◌-◌, ◌≤◌, ◌≡◌, refl, ap, ap₂, sym, ◌∙◌, ◌⊎◌, inl, inr, true, false, List, [],
  ◌∷◌, ◌++◌, map, append_assoc, Option, none, some, length, length-append, get_elem?, set-append,
  take, replicate, ltb, leb, if◌then◌else◌, arith, Bool-cases, some_eq, take-length-append,
  take_all,
}
use gst_vk_video_parser.Prelude.Int.{ℤ, same_int, same_int_iff}
use gst_vk_video_parser.H265.RefPics.{
  Picture, RefPic, RefResult, filled, too_many, out_of_bounds, ◌>>=◌, max_set, empty_ref_pic,
  next_other, find_ref_pic, find_other, write_set, fill_set, number_ref_pics, ref_pic_sets, shifted,
}
use gst_vk_video_parser.H265.RefPics.Listing.{listed, HaveFrames, holding, fill_ref_pics_lem}

-- The order counts of the entries that are not null.
abbrev pub present : List (Option ℤ) → List ℤ
present [] = []
present (none ∷ others) = present others
present (some poc ∷ others) = poc ∷ present others

-- The position of the first reference picture with an order count.
abbrev pub number : List RefPic → ℤ → ℕ
number [] poc = 0
number (r ∷ rs) poc = if same_int r.pic_order_cnt poc then 0 else suc (number rs poc)

-- A reference picture at this position has the order count.
abbrev pub IsAt : List RefPic → ℤ → ℕ → Type 0
IsAt rs poc k = (r : RefPic) × (get_elem? rs k ≡ some r) × (r.pic_order_cnt ≡ poc)

-- Every order count is that of a reference picture.
abbrev pub Found : List RefPic → List ℤ → Type 0
Found rs [] = Unit
Found rs (poc ∷ pocs) = ((k : ℕ) × IsAt rs poc k) × Found rs pocs

behind : (o : Option ℕ) (k : ℕ) → shifted o ≡ some k → (j : ℕ) × (o ≡ some j) × (k ≡ suc j)
behind none k e = ground (arith, e)
behind (some j) k e = (j, refl, ground (arith, e))

-- The number that is found is that of a reference picture with the order count.
pub find_ref_pic_lem :
    (rs : List RefPic) (poc : ℤ) (k : ℕ)
    → find_ref_pic rs poc ≡ some k
    → (r : RefPic) × (get_elem? rs k ≡ some r) × (r.pic_order_cnt ≡ poc)
unfolding find_ref_pic
find_ref_pic_lem [] poc k e = ground (arith, e)
find_ref_pic_lem (r ∷ rs) poc k e = elim (Bool-cases (same_int r.pic_order_cnt poc)) [
  | inl same ↦
      let first : zero ≡ k = ground (arith, same, e) in
      (r, ap (get_elem? (r ∷ rs)) (sym first), (same_int_iff r.pic_order_cnt poc).0 same)
  | inr other ↦
      let (j, at, is) = behind (find_ref_pic rs poc) k (rw other at e) in
      let (r', here, same) = find_ref_pic_lem rs poc j at in
      (r', ap (get_elem? (r ∷ rs)) is ∙ here, same)
]

-- The search finds the first reference picture that has the order count.
find_ref_pic_first :
    (rs : List RefPic) (poc : ℤ) (k : ℕ)
    → IsAt rs poc k
    → find_ref_pic rs poc ≡ some (number rs poc)
unfolding find_ref_pic
find_ref_pic_first [] poc k (r, at, e) = absurd (cc)
find_ref_pic_first (x ∷ rs) poc zero (r, at, e) =
    let same : same_int x.pic_order_cnt poc ≡ true =
      (same_int_iff x.pic_order_cnt poc).1
        (ap (λ (y : RefPic). y.pic_order_cnt) (some_eq at) ∙ e) in
    rw same refl
find_ref_pic_first (x ∷ rs) poc (suc k) (r, at, e) =
    elim (Bool-cases (same_int x.pic_order_cnt poc)) [
      | inl same ↦ rw same refl
      | inr other ↦ rw other (ap shifted (find_ref_pic_first rs poc k (r, at, e)))
    ]

-- The number stands for a reference picture with the order count.
number-IsAt : (rs : List RefPic) (poc : ℤ) (k : ℕ) → IsAt rs poc k → IsAt rs poc (number rs poc)
number-IsAt rs poc k at = find_ref_pic_lem rs poc (number rs poc) (find_ref_pic_first rs poc k at)

-- No more entries than there are reference pictures and places, each for a reference picture.
abbrev pub Fits : List RefPic → List (Option ℤ) → Type 0
Fits rs others =
    Found rs (present others)
    × (length (present others) ≤ 8)
    × (length (present others) ≤ length rs)

-- A set with these numbers in front and zeros behind them, if the array has room.
abbrev pub numbered : List RefPic → List ℕ → ℕ → List ℤ → RefResult (List ℕ)
numbered rs front room pocs =
    if leb (length pocs) room
    then filled (front ++ (map (number rs) pocs ++ replicate (room - length pocs) 0))
    else out_of_bounds

numbered_none :
    (rs : List RefPic) (front : List ℕ) (room : ℕ)
    → numbered rs front room [] ≡ filled (front ++ replicate room 0)
numbered_none rs front room =
    let fine : leb 0 room ≡ true = ground arith in
    rw fine (ap (λ n. filled (front ++ replicate n 0)) (omega arith))

next_other_lem :
    (others : List (Option ℤ))
    → ((next_other others ≡ (none, [])) × (present others ≡ []))
      ⊎ ((poc : ℤ) × (rest : List (Option ℤ)) × (next_other others ≡ (some poc, rest))
          × (present others ≡ poc ∷ present rest))
unfolding next_other
next_other_lem [] = inl (refl, refl)
next_other_lem (none ∷ others) = next_other_lem others
next_other_lem (some poc ∷ others) = inr (poc, others, refl, refl)

fill_set_done :
    (rs : List RefPic) (rounds i : ℕ) (ref_set : List ℕ)
    → fill_set rs rounds i [] ref_set ≡ filled ref_set
unfolding fill_set next_other
fill_set_done rs zero i ref_set = refl
fill_set_done rs (suc rounds) i ref_set = fill_set_done rs rounds (i + 1) ref_set

fill_set_round :
    (rs : List RefPic) (rounds i : ℕ) (others : List (Option ℤ)) (ref_set : List ℕ)
    (other : Option ℤ) (rest : List (Option ℤ))
    → next_other others ≡ (other, rest)
    → fill_set rs (suc rounds) i others ref_set
      ≡ (write_set i (find_other rs other) ref_set >>= fill_set rs rounds (i + 1) rest)
unfolding fill_set
fill_set_round rs rounds i others ref_set other rest e =
    ap (λ n. write_set i (find_other rs n.0) ref_set >>= fill_set rs rounds (i + 1) n.1) e

number_cons :
    (rs : List RefPic) (front : List ℕ) (room k : ℕ) (poc : ℤ) (pocs : List ℤ)
    → k ≡ number rs poc
    → numbered rs (front ++ k ∷ []) room pocs ≡ numbered rs front (suc room) (poc ∷ pocs)
number_cons rs front room k poc pocs same = elim (Bool-cases (leb (length pocs) room)) [
  | inl small ↦
      let small' : leb (suc (length pocs)) (suc room) ≡ true = ground (arith, small) in
      let less : room - length pocs ≡ suc room - suc (length pocs) = omega arith in
      rw (small, small')
        (ap filled (
          append_assoc front (k ∷ []) (map (number rs) pocs ++ replicate (room - length pocs) 0)
          ∙ ap₂ (λ h n. front ++ h ∷ (map (number rs) pocs ++ replicate n 0)) same less))
  | inr large ↦
      let large' : leb (suc (length pocs)) (suc room) ≡ false = ground (arith, large) in
      rw (large, large') refl
]

write_set-room :
    (front : List ℕ) (room k : ℕ)
    → length front + suc room ≡ 8
    → write_set (length front) (some k) (front ++ replicate (suc room) 0)
      ≡ filled ((front ++ k ∷ []) ++ replicate room 0)
write_set-room front room k size =
    let fits : ltb (length front) 8 ≡ true = ground (arith, size) in
    rw fits (
      ap filled (
        set-append front (replicate room 0) 0 k
        ∙ sym (append_assoc front (k ∷ []) (replicate room 0))))

write_set_full :
    (front : List ℕ) (k : ℕ) (ref_set : List ℕ)
    → length front ≡ 8
    → write_set (length front) (some k) ref_set ≡ out_of_bounds
write_set_full front k ref_set size =
    let full : ltb (length front) 8 ≡ false = ground (arith, size) in rw full refl

-- A round for an entry that is found, given what the rounds after it do.
write_number :
    (rs : List RefPic) (rounds : ℕ) (front : List ℕ) (room : ℕ) (poc : ℤ) (rest : List (Option ℤ))
    (k : ℕ)
    → k ≡ number rs poc
    → length front + room ≡ 8
    → ((room' k' : ℕ)
        → length (front ++ k' ∷ []) + room' ≡ 8
        → fill_set rs rounds
            (length (front ++ k' ∷ []))
            rest
            ((front ++ k' ∷ []) ++ replicate room' 0)
          ≡ numbered rs (front ++ k' ∷ []) room' (take rounds (present rest)))
    → (write_set (length front) (some k) (front ++ replicate room 0)
        >>= fill_set rs rounds (length front + 1) rest)
      ≡ numbered rs front room (poc ∷ take rounds (present rest))
write_number rs rounds front zero poc rest k at size next =
    let full : leb (suc (length (take rounds (present rest)))) 0 ≡ false = ground arith in
    ap (λ r. r >>= fill_set rs rounds (length front + 1) rest)
      (write_set_full front k (front ++ []) (omega arith))
    ∙ sym (
        ap
          (λ b.
            if b
            then filled (
                front
                ++ (map (number rs) (poc ∷ take rounds (present rest))
                    ++ replicate (0 - length (poc ∷ take rounds (present rest))) 0))
            else out_of_bounds)
          full)
write_number rs rounds front (suc room) poc rest k at size next =
    let longer : length (front ++ k ∷ []) + room ≡ 8 =
      omega (arith, length-append {0} front (k ∷ [])) in
    ap (λ r. r >>= fill_set rs rounds (length front + 1) rest) (write_set-room front room k size)
    ∙ ap (λ n. fill_set rs rounds n rest ((front ++ k ∷ []) ++ replicate room 0))
        (sym (length-append front (k ∷ [])))
    ∙ next room k longer
    ∙ number_cons rs front room k poc (take rounds (present rest)) at

fill_set-numbered :
    (rs : List RefPic) (rounds : ℕ) (others : List (Option ℤ)) (front : List ℕ) (room : ℕ)
    → length front + room ≡ 8
    → Found rs (present others)
    → fill_set rs rounds (length front) others (front ++ replicate room 0)
      ≡ numbered rs front room (take rounds (present others))
unfolding fill_set
fill_set-numbered rs zero others front room size found = sym (numbered_none rs front room)
fill_set-numbered rs (suc rounds) others front room size found = elim (next_other_lem others) [
  | inl (e, empty) ↦
      fill_set_round rs rounds (length front) others (front ++ replicate room 0) none [] e
      ∙ fill_set_done rs rounds (length front + 1) (front ++ replicate room 0)
      ∙ sym (numbered_none rs front room)
      ∙ sym (ap (λ ps. numbered rs front room (take (suc rounds) ps)) empty)
  | inr (poc, rest, e, is) ↦
      let found' : Found rs (poc ∷ present rest) = rw is at found in
      let k = number rs poc in
      let at : find_ref_pic rs poc ≡ some k = find_ref_pic_first rs poc found'.0.0 found'.0.1 in
      fill_set_round rs rounds (length front) others (front ++ replicate room 0) (some poc) rest e
      ∙ ap
          (λ o.
            write_set (length front) o (front ++ replicate room 0)
            >>= fill_set rs rounds (length front + 1) rest)
          at
      ∙ write_number rs rounds front room poc rest k refl size (λ room' k' longer.
        fill_set-numbered rs rounds rest (front ++ k' ∷ []) room' longer found'.1)
      ∙ sym (ap (λ ps. numbered rs front room (take (suc rounds) ps)) is)
]

-- For a set of which every entry has the order count of a reference picture, over all rounds of the
-- loop: with at most eight entries that are not null among those the rounds reach, the set holds for
-- these, in order, the position of the first reference picture with the order count, and zeros behind
-- them; with more the loop writes outside the array.
pub fill_set_lem :
    (rs : List RefPic) (rounds : ℕ) (others : List (Option ℤ))
    → Found rs (present others)
    → fill_set rs rounds 0 others (replicate max_set 0) ≡ (
        if leb (length (take rounds (present others))) 8
        then filled (
            map (number rs) (take rounds (present others))
            ++ replicate (8 - length (take rounds (present others))) 0)
        else out_of_bounds)
fill_set_lem rs rounds others found = fill_set-numbered rs rounds others [] 8 (omega arith) found

abbrev pub filled_ref_set : List RefPic → List (Option ℤ) → List ℕ
filled_ref_set rs others =
    map (number rs) (present others) ++ replicate (8 - length (present others)) 0

fill_set-Fits :
    (rs : List RefPic) (others : List (Option ℤ))
    → Fits rs others
    → fill_set rs (length rs) 0 others (replicate max_set 0) ≡ filled (filled_ref_set rs others)
fill_set-Fits rs others (found, small, few) =
    let all : take (length rs) (present others) ≡ present others =
      take_all (length rs) (present others) few in
    let fine : leb (length (present others)) 8 ≡ true = ground (arith, small) in
    fill_set_lem rs (length rs) others found
    ∙ ap
        (λ ps.
          if leb (length ps) 8
          then filled (map (number rs) ps ++ replicate (8 - length ps) 0)
          else out_of_bounds)
        all
    ∙ ap (λ b. if b then filled (filled_ref_set rs others) else out_of_bounds) fine

number_ref_pics_lem :
    (rs : List RefPic) (room : ℕ) (before after lt : List (Option ℤ))
    → Fits rs before
    → Fits rs after
    → Fits rs lt
    → number_ref_pics before after lt (holding rs room)
      ≡ filled (
        holding rs room,
        record {
          st_curr_before = filled_ref_set rs before;
          st_curr_after = filled_ref_set rs after;
          lt_curr = filled_ref_set rs lt;
        },
      )
unfolding number_ref_pics
number_ref_pics_lem rs room before after lt b a l =
    let front : take (length rs) (rs ++ replicate room empty_ref_pic) ≡ rs =
      take-length-append rs (replicate room empty_ref_pic) in
    rw (front, fill_set-Fits rs before b, fill_set-Fits rs after a, fill_set-Fits rs lt l) refl

-- For a decoded picture buffer of at most 16 reference pictures, all with their VkPics, and three sets
-- of which each has at most eight entries, no more than there are reference pictures, and each for one
-- of these: the client is shown the reference pictures in order, and each set holds for its entries, in
-- order, the position of the first reference picture with the entry's order count, and zeros behind
-- them.
pub ref_pic_sets_lem :
    (dpb : List Picture) (before after lt : List (Option ℤ))
    → HaveFrames dpb
    → length (listed dpb) ≤ 16
    → Fits (listed dpb) before
    → Fits (listed dpb) after
    → Fits (listed dpb) lt
    → ref_pic_sets dpb before after lt
      ≡ filled (
        holding (listed dpb) (16 - length (listed dpb)),
        record {
          st_curr_before = filled_ref_set (listed dpb) before;
          st_curr_after = filled_ref_set (listed dpb) after;
          lt_curr = filled_ref_set (listed dpb) lt;
        },
      )
unfolding ref_pic_sets
ref_pic_sets_lem dpb before after lt frames size b a l =
    let rs = listed dpb in
    let fine : leb (length rs) 16 ≡ true = ground (arith, size) in
    ap (λ r. r >>= number_ref_pics before after lt)
      (fill_ref_pics_lem dpb frames
        ∙ ap (λ c. if c then filled (holding rs (16 - length rs)) else too_many) fine)
    ∙ number_ref_pics_lem rs (16 - length rs) before after lt b a l
