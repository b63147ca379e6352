-- ===== src/H264/Dpb/Filling.antt =====
-- The loop that fills the reference list from one array of pictures.
use native.Mathlib.Numerals.{add-one}
use gst_vk_video_parser.Prelude.{
  some_eq, ℕ, zero, suc, ◌+◌, ◌-◌, ◌≤◌, ◌≡◌, refl, ap, ap₂, sym, ◌∙◌, List, [], ◌∷◌, ◌++◌, map,
  append_assoc, none, some, length, length-append, get_elem?, set-append, take, drop, ltb, true,
  false, arith, Option-cases, inl, inr,
}
use gst_vk_video_parser.H264.Dpb.{
  Picture, DpbEntry, empty_entry, fill_dbp_entry, dpb_size, Scan, fill_dpb,
}

-- Exactly `n` entries: the first ones of the list, then empty ones.
abbrev pub padded : ℕ → List DpbEntry → List DpbEntry
padded zero xs = []
padded (suc n) [] = empty_entry ∷ padded n []
padded (suc n) (x ∷ xs) = x ∷ padded n xs

abbrev pub entries : List Picture → List DpbEntry
entries = map fill_dbp_entry

drop-eq-cons {ℓ} :
    {A : Type ℓ} (xs : List A) (i : ℕ) (x : A)
    → get_elem? xs i ≡ some x
    → drop i xs ≡ x ∷ drop (suc i) xs
drop-eq-cons [] i x h = absurd (cc)
drop-eq-cons (y ∷ ys) zero x h = ap (λ a. a ∷ ys) (some_eq h)
drop-eq-cons (y ∷ ys) (suc i) x h = drop-eq-cons ys i x h

drop-eq-nil {ℓ} : {A : Type ℓ} (xs : List A) (i : ℕ) → get_elem? xs i ≡ none → drop i xs ≡ []
drop-eq-nil [] zero h = refl
drop-eq-nil [] (suc i) h = refl
drop-eq-nil (y ∷ ys) zero h = absurd (cc)
drop-eq-nil (y ∷ ys) (suc i) h = drop-eq-nil ys i h

-- The array with the entries of `front` filled in, and `n` empty ones behind them.
pub record Filled (front : List DpbEntry) (n i : ℕ) (refs : List Picture) (s : Scan) : Type 0 where
  pub taken : List DpbEntry
  pub is_taken : taken ≡ entries (take n (drop i refs))
  pub index : s.i ≡ i + length taken
  pub ref_frame_idx : s.ref_frame_idx ≡ length front + length taken
  pub dpb : s.dpb ≡ front ++ (taken ++ padded (n - length taken) [])

abbrev pub scan_at : List DpbEntry → ℕ → ℕ → Scan
scan_at front n i = record { i = i; ref_frame_idx = length front; dpb = front ++ padded n [] }

Filled-stop :
    (front : List DpbEntry) (n i : ℕ) (refs : List Picture)
    → take n (drop i refs) ≡ []
    → Filled front n i refs (scan_at front n i)
Filled-stop front n i refs h = record {
  taken = [];
  is_taken = rw h;
  index = omega arith;
  ref_frame_idx = omega arith;
  dpb = ap (λ k. front ++ padded k []) (omega arith);
}

fill_dpb_step :
    (rounds : ℕ) (front : List DpbEntry) (n i : ℕ) (refs : List Picture) (pic : Picture)
    → length front + suc n ≡ dpb_size
    → get_elem? refs i ≡ some pic
    → fill_dpb (suc rounds) refs (scan_at front (suc n) i)
      ≡ fill_dpb rounds refs (scan_at (front ++ fill_dbp_entry pic ∷ []) n (i + 1))
unfolding fill_dpb
fill_dpb_step rounds front n i refs pic full found =
    let e = fill_dbp_entry pic in
    let room : ltb (length front) dpb_size ≡ true = ground arith in
    let index : length front + 1 ≡ length (front ++ e ∷ []) = sym (length-append front (e ∷ [])) in
    rw (found, fill_dpb)
      (rw room (
        rw (set-append front (padded n []) empty_entry e) (
          ap₂ (λ k l. fill_dpb rounds refs (record { i = i + 1; ref_frame_idx = k; dpb = l })) index
            (sym (append_assoc front (e ∷ []) (padded n []))))))

take-nil {ℓ} : {A : Type ℓ} (n : ℕ) (xs : List A) → xs ≡ [] → take n xs ≡ []
take-nil zero xs h = refl
take-nil (suc n) xs h = rw h

-- The loop takes the references from `i` on, as many as there is room for.
pub fill_dpb-Filled :
    (rounds : ℕ) (front : List DpbEntry) (n i : ℕ) (refs : List Picture)
    → length front + n ≡ dpb_size
    → n ≤ rounds
    → Filled front n i refs (fill_dpb rounds refs (scan_at front n i))
unfolding fill_dpb
fill_dpb-Filled zero front zero i refs full enough = Filled-stop front 0 i refs refl
fill_dpb-Filled zero front (suc n) i refs full enough = absurd (omega arith)
fill_dpb-Filled (suc rounds) front zero i refs full enough =
    let no_room : ltb (length front) dpb_size ≡ false = ground arith in
    elim (Option-cases (get_elem? refs i)) [
      | inl ended ↦ rw (ended, fill_dpb) (Filled-stop front 0 i refs refl)
      | inr (pic, found) ↦ rw (found, fill_dpb) (rw no_room (Filled-stop front 0 i refs refl))
    ]
fill_dpb-Filled (suc rounds) front (suc n) i refs full enough =
    elim (Option-cases (get_elem? refs i)) [
      | inl ended ↦
          rw (ended, fill_dpb)
            (Filled-stop front (suc n) i refs
              (take-nil (suc n) (drop i refs) (drop-eq-nil refs i ended)))
      | inr (pic, found) ↦
          let e = fill_dbp_entry pic in
          let grown = length-append front (e ∷ []) in
          let r =
            fill_dpb-Filled rounds (front ++ e ∷ []) n (i + 1) refs (omega arith) (omega arith) in
          rw (fill_dpb_step rounds front n i refs pic full found) (record {
            taken = e ∷ r.taken;
            is_taken =
                rw (drop-eq-cons refs i pic found)
                  (ap (◌∷◌ e) (r.is_taken ∙ ap (λ k. entries (take n (drop k refs))) (add-one i)));
            index = omega (arith, r.index);
            ref_frame_idx = omega (arith, r.ref_frame_idx);
            dpb =
                r.dpb
                ∙ append_assoc front (e ∷ []) (r.taken ++ padded (n - length r.taken) [])
                ∙ ap (λ k. front ++ (e ∷ (r.taken ++ padded k []))) (omega arith);
          })
    ]
