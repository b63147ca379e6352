-- ===== src/H264/Dpb/Order.antt =====
-- Which pictures the reference list of a picture shows, and in which order.
use gst_vk_video_parser.Prelude.{
  ℕ, zero, suc, ◌+◌, ◌-◌, ◌≤◌, ◌≡◌, refl, ap, ap₂, sym, ◌∙◌, List, [], ◌∷◌, ◌++◌, append_assoc,
  append-nil, length, length-append, set-append, take, drop, ltb, true, arith, length-take,
  length-map,
}
use gst_vk_video_parser.H264.Dpb.Filling.{padded, entries, scan_at, fill_dpb-Filled}
use gst_vk_video_parser.H264.Dpb.{
  Picture, DpbEntry, empty_entry, fill_dbp_entry, dpb_size, Scan, fill_dpb, clear_dpb,
  reference_frames,
}

padded-append :
    (n : ℕ) (xs ys : List DpbEntry)
    → padded n (xs ++ ys) ≡ take n xs ++ padded (n - length (take n xs)) ys
padded-append zero xs ys = refl
padded-append (suc n) [] ys =
    let same : suc n ≡ suc n - 0 = omega arith in ap (λ k. padded k ys) same
padded-append (suc n) (x ∷ xs) ys =
    ap (◌∷◌ x) (padded-append n xs ys ∙ ap (λ k. take n xs ++ padded k ys) (omega arith))

-- Writing empty entries over empty entries changes nothing.
clear_dpb_lem :
    (rounds : ℕ) (front : List DpbEntry) (n : ℕ)
    → length front + n ≡ dpb_size
    → clear_dpb rounds (length front) (front ++ padded n []) ≡ front ++ padded n []
unfolding clear_dpb
clear_dpb_lem zero front n full = refl
clear_dpb_lem (suc rounds) front zero full = ground arith
clear_dpb_lem (suc rounds) front (suc n) full =
    let e = empty_entry in
    let room : ltb (length front) dpb_size ≡ true = ground arith in
    let grown = length-append front (e ∷ []) in
    let joined = append_assoc front (e ∷ []) (padded n []) in
    rw room (
      rw (set-append front (padded n []) e e) (
        ap₂ (clear_dpb rounds) (sym grown) (sym joined)
        ∙ clear_dpb_lem rounds (front ++ e ∷ []) n (omega arith)
        ∙ joined))

Scan-eq :
    (s : Scan) (i k : ℕ) (l : List DpbEntry)
    → s.i ≡ i
    → s.ref_frame_idx ≡ k
    → s.dpb ≡ l
    → s ≡ record { i = i; ref_frame_idx = k; dpb = l }
Scan-eq s i k l p q r = λ x. record { i = p x; ref_frame_idx = q x; dpb = r x }

-- The loop as one equation.
fill_dpb_lem :
    (front : List DpbEntry) (n i : ℕ) (refs : List Picture)
    → length front + n ≡ dpb_size
    → fill_dpb dpb_size refs (scan_at front n i)
      ≡ scan_at
          (front ++ entries (take n (drop i refs)))
          (n - length (entries (take n (drop i refs))))
          (i + length (entries (take n (drop i refs))))
fill_dpb_lem front n i refs full =
    let r = fill_dpb-Filled dpb_size front n i refs full (omega arith) in
    let t = entries (take n (drop i refs)) in
    Scan-eq _ _ _ _ (r.index ∙ ap (λ l. i + length l) r.is_taken)
      (r.ref_frame_idx ∙ ap (λ l. length front + length l) r.is_taken ∙ sym (length-append front t))
      (r.dpb
        ∙ ap (λ l. front ++ (l ++ padded (n - length l) [])) r.is_taken
        ∙ sym (append_assoc front t (padded (n - length t) [])))

padded_taken :
    (n : ℕ) (xs : List DpbEntry) → padded n xs ≡ take n xs ++ padded (n - length (take n xs)) []
padded_taken n xs = ap (padded n) (sym (append-nil xs)) ∙ padded-append n xs []

take-map : (n : ℕ) (xs : List Picture) → take n (entries xs) ≡ entries (take n xs)
take-map zero xs = refl
take-map (suc n) [] = refl
take-map (suc n) (x ∷ xs) = ap (◌∷◌ (fill_dbp_entry x)) (take-map n xs)

entries-append : (xs ys : List Picture) → entries (xs ++ ys) ≡ entries xs ++ entries ys
entries-append [] ys = refl
entries-append (x ∷ xs) ys = ap (◌∷◌ (fill_dbp_entry x)) (entries-append xs ys)

length-entries-take : (n : ℕ) (xs : List Picture) → length (entries (take n xs)) ≤ n
length-entries-take n xs = omega (arith, length-map (take n xs) fill_dbp_entry, length-take n xs)

-- Two blocks, each cut to the room that is left, are one list that is cut.
two_blocks :
    (n : ℕ) (xs ys : List Picture) (m : ℕ)
    → m ≡ n - length (entries (take n xs))
    → entries (take n xs) ++ (entries (take m ys) ++ padded (m - length (entries (take m ys))) [])
      ≡ padded n (entries (xs ++ ys))
two_blocks n xs ys m e =
    rw (entries-append xs ys, padded-append n (entries xs) (entries ys), take-map n xs, ← e)
      (ap (◌++◌ (entries (take n xs))) (rw (padded_taken m (entries ys), take-map m ys) refl))

-- The list has 17 entries: the short-term references in order, then the long-term references without
-- as many of the first ones as there are short-term references (up to 17), then empty entries; what
-- does not fit is left out.
pub reference_frames_lem :
    (short_term long_term : List Picture)
    → reference_frames short_term long_term
      ≡ padded dpb_size (entries (short_term ++ drop (length (take dpb_size short_term)) long_term))
unfolding reference_frames
reference_frames_lem short_term long_term =
    let a = entries (take dpb_size short_term) in
    let n = dpb_size - length a in
    let i = length (take dpb_size short_term) in
    let b = entries (take n (drop i long_term)) in
    let skipped : 0 + length a ≡ i =
      omega (arith, length-map (take dpb_size short_term) fill_dbp_entry) in
    let short : length a ≤ dpb_size = length-entries-take dpb_size short_term in
    let short' : length b ≤ n = length-entries-take n (drop i long_term) in
    rw (fill_dpb_lem [] dpb_size 0 short_term refl) (
      rw skipped (
        rw (fill_dpb_lem a n i long_term (omega arith)) (
          clear_dpb_lem dpb_size (a ++ b) (n - length b) (omega (arith, length-append a b))
          ∙ append_assoc a b (padded (n - length b) [])
          ∙ two_blocks dpb_size short_term (drop i long_term) n refl)))

drop_all {ℓ} : {A : Type ℓ} (n : ℕ) (xs : List A) → length xs ≤ n → drop n xs ≡ []
drop_all zero [] h = refl
drop_all zero (x ∷ xs) h = absurd (omega arith)
drop_all (suc n) [] h = refl
drop_all (suc n) (x ∷ xs) h = drop_all n xs (omega arith)

-- With at most 17 short-term references, and no more long-term references than those, the client is
-- shown no long-term reference at all.
pub reference_frames_lost :
    (short_term long_term : List Picture)
    → length short_term ≤ dpb_size
    → length long_term ≤ length short_term
    → reference_frames short_term long_term ≡ reference_frames short_term []
reference_frames_lost short_term long_term few fewer =
    let i = length (take dpb_size short_term) in
    let all = length-take dpb_size short_term in
    let long_lost : drop i long_term ≡ [] = drop_all i long_term (omega arith) in
    let none_lost : drop {A = Picture} i [] ≡ [] = drop_all i [] (omega arith) in
    reference_frames_lem short_term long_term
    ∙ ap (λ l. padded dpb_size (entries (short_term ++ l))) (long_lost ∙ sym none_lost)
    ∙ sym (reference_frames_lem short_term [])
