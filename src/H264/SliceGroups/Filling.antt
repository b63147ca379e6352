-- ===== src/H264/SliceGroups/Filling.antt =====
-- The counted loop of get_slice_group_map over a picture of at most 255 map units.
use native.Mathlib.Decide.{ℕ_discrete, dec_le}
use gst_vk_video_parser.Prelude.{
  ℕ, zero, suc, ◌+◌, ◌≤◌, ◌<◌, ◌≡◌, refl, ◌∙◌, List, true, false, some, leb, ltb, to_u8, arith,
  length, get_elem?, set, length-set, get_elem?-set_self, get_elem?-set_ne,
}
use gst_vk_video_parser.H264.SliceGroups.{Outcome, done, fill_map}

-- The map that the loop leaves: from `i` on the values, below `i` what was there.
pub record Filled (value : ℕ → ℕ) (size i : ℕ) (before : List ℕ) (o : Outcome (List ℕ))
    : Type 0 where
  pub after : List ℕ
  pub result : o ≡ done after
  pub same_length : length after ≡ length before
  pub below : (k : ℕ) → k < i → get_elem? after k ≡ get_elem? before k
  pub filled : (k : ℕ) → i ≤ k → k ≤ size → get_elem? after k ≡ some (to_u8 (value k))

module _ (read_value : ℕ → Outcome ℕ) (value : ℕ → ℕ) (size : ℕ) (small : size < 255)
    (reads : (k : ℕ) → k ≤ size → read_value k ≡ done (value k)) where
  fill_map_step :
      (fuel i : ℕ) (ret : List ℕ)
      → length ret ≡ size + 1
      → i ≤ size
      → fill_map read_value size (suc fuel) i ret
        ≡ fill_map read_value size fuel (i + 1) (set ret i (to_u8 (value i)))
  unfolding fill_map
  fill_map_step fuel i ret len h =
      let more : leb i size ≡ true = ground arith in
      let inside : ltb i (length ret) ≡ true = ground arith in
      let narrow : to_u8 (i + 1) ≡ i + 1 = omega arith in
      rw (more, reads i h) (rw inside (rw narrow))

  Filled-step :
      (i : ℕ) (ret : List ℕ) (o : Outcome (List ℕ))
      → length ret ≡ size + 1
      → i ≤ size
      → Filled value size (i + 1) (set ret i (to_u8 (value i))) o
      → Filled value size i ret o
  Filled-step i ret o len h r = record {
    after = r.after;
    result = r.result;
    same_length = r.same_length ∙ length-set ret i (to_u8 (value i));
    below = λ k a. r.below k (omega arith) ∙ get_elem?-set_ne ret (to_u8 (value i)) (omega arith);
    filled = λ k a b. elim (ℕ_discrete i k) [
      | yes e ↦
          rw (← e)
            (r.below i (omega arith) ∙ get_elem?-set_self ret i (to_u8 (value i)) (omega arith))
      | no e ↦ r.filled k (omega arith) b
    ];
  }

  pub fill_map-Filled :
      (fuel i : ℕ) (ret : List ℕ)
      → length ret ≡ size + 1
      → size + 1 < fuel + i
      → i ≤ size + 1
      → Filled value size i ret (fill_map read_value size fuel i ret)
  unfolding fill_map
  fill_map-Filled zero i ret len enough h = absurd (omega arith)
  fill_map-Filled (suc fuel) i ret len enough h = elim (dec_le i size) [
    | yes more ↦
        let ret' = set ret i (to_u8 (value i)) in
        let len' = length-set ret i (to_u8 (value i)) in
        rw (fill_map_step fuel i ret len more) (
          Filled-step i ret _ len more
            (fill_map-Filled fuel (i + 1) ret' (omega arith) (omega arith) (omega arith)))
    | no past ↦
        let ended : leb i size ≡ false = ground arith in
        record {
          after = ret;
          result = rw ended;
          same_length = refl;
          below = λ k _. refl;
          filled = λ k a b. absurd (omega arith);
        }
  ]
