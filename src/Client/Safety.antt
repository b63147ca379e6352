-- ===== src/Client/Safety.antt =====
-- What the assertions of the client's pool ask for.
use gst_vk_video_parser.Prelude.{
  ℕ, zero, suc, ◌≤◌, ◌≡◌, ◌≢◌, refl, inl, inr, ap, ◌∙◌, sym, true, false, List, [], ◌∷◌, Option,
  none, some, get_elem?, get_or, ◌==◌, arith, Bool-cases, Option-cases, some_eq,
}
use gst_vk_video_parser.Client.{
  Pool, alloc_picture_buffer, all_available, PictureState, new_picture, vk_pic_free,
}
use gst_vk_video_parser.Client.Pool.{holds, count, count-remove, holds_self, get_or-some}
use gst_vk_video_parser.Client.Pictures.{Reachable, IsExact, Reachable-IsExact, vk_pic_free-Frees}

-- Two positions that hold the same picture are one.
count_two :
    (live : List (Option ℕ)) (k l i : ℕ)
    → get_elem? live k ≡ some (some i)
    → get_elem? live l ≡ some (some i)
    → k ≢ l
    → 2 ≤ count i live
count_two [] k l i e f h = absurd (cc)
count_two (x ∷ live) zero zero i e f h = absurd (h refl)
count_two (x ∷ live) zero (suc l) i e f h =
    let here : holds i x ≡ 1 = ap (holds i) (some_eq e) ∙ holds_self i in
    omega (arith, here, count-remove live l i (some i) f, holds_self i)
count_two (x ∷ live) (suc k) zero i e f h =
    let here : holds i x ≡ 1 = ap (holds i) (some_eq f) ∙ holds_self i in
    omega (arith, here, count-remove live k i (some i) e, holds_self i)
count_two (x ∷ live) (suc k) (suc l) i e f h =
    omega (arith, count_two live k l i e f (λ eq. h (ap suc eq)))

all_zero : (pool : Pool) → ((j : ℕ) → ◌≡◌ {A = ℕ} (get_or pool j 0) 0) → all_available pool ≡ true
unfolding all_available
all_zero [] h = refl
all_zero (n ∷ pool) h =
    let first : (n == 0) ≡ true = ground (arith, h 0) in rw first (all_zero pool (λ j. h (suc j)))

full :
    (pool : Pool) (j n : ℕ) → alloc_picture_buffer pool ≡ none → get_elem? pool j ≡ some n → n ≢ 0
unfolding alloc_picture_buffer
full [] j n e f = absurd (cc)
full (zero ∷ pool) j n e f = absurd (cc)
full (suc m ∷ pool) zero n e f = λ z. absurd (omega (arith, some_eq f))
full (suc m ∷ pool) (suc j) n e f = elim (Option-cases (alloc_picture_buffer pool)) [
  | inl rest ↦ full pool j n rest f
  | inr (r, found) ↦ absurd (some_none (rw found at e))
]
  where
    some_none : {a : ℕ × Pool} → some a ≡ none → ⊥
    some_none x = cc

-- Freeing a live VkPic passes the assertions, no picture is given to two live VkPics, all pictures are
-- available once no VkPic is alive, and a refused picture means that all are held.
pub record IsSafe (p : PictureState) : Type 0 where
  pub freed :
      (k : ℕ) (x : Option ℕ)
      → get_elem? p.live k ≡ some x
      → (after : PictureState) × (vk_pic_free p k ≡ some after)
  pub apart :
      (k l i : ℕ) → get_elem? p.live k ≡ some (some i) → get_elem? p.live l ≡ some (some i) → k ≡ l
  pub returned : p.live ≡ [] → all_available p.pool ≡ true
  pub refused :
      (new_picture p).0 ≡ false → (j n : ℕ) → get_elem? p.pool j ≡ some n → count j p.live ≡ 1

apart_at :
    (p : PictureState) (k l i : ℕ)
    → IsExact p.pool p.live
    → get_elem? p.live k ≡ some (some i)
    → get_elem? p.live l ≡ some (some i)
    → k ≡ l
apart_at p k l i x e f = elim (Bool-cases (k == l)) [
  | inl same ↦ ground (arith, same)
  | inr other ↦
      let h : k ≢ l = λ eq. ground (arith, other, eq) in
      absurd (omega (arith, count_two p.live k l i e f h, x.once i))
]

new_picture_refused :
    (p : PictureState) → (new_picture p).0 ≡ false → alloc_picture_buffer p.pool ≡ none
unfolding new_picture
new_picture_refused p e = elim (Bool-cases p.has_client) [
  | inr absent ↦ absurd (true_false (rw (absent, new_picture) at e))
  | inl given ↦ elim (Option-cases (alloc_picture_buffer p.pool)) [
    | inl none_left ↦ none_left
    | inr (r, found) ↦ absurd (true_false (rw (given, found, new_picture) at e))
  ]
]
  where
    true_false : true ≡ false → ⊥
    true_false x = cc

refused_at :
    (p : PictureState) (j n : ℕ)
    → IsExact p.pool p.live
    → alloc_picture_buffer p.pool ≡ none
    → get_elem? p.pool j ≡ some n
    → count j p.live ≡ 1
refused_at p j n x none_left e =
    let used = full p.pool j n none_left e in
    let held = sym (get_or-some p.pool j n e) ∙ x.same j in ground (arith, used, held, x.once j)

-- Whatever new pictures the decoder element asks for, and in whatever order its VkPics are freed:
-- freeing a live VkPic passes the client's assertions, no picture of the pool is given to two live
-- VkPics, all pictures are available again once no VkPic is alive, and a new picture is refused only
-- where every picture of the pool is held by one live VkPic.
pub Reachable-IsSafe : (p : PictureState) → Reachable p → IsSafe p
Reachable-IsSafe p r =
    let x = Reachable-IsExact p r in
    record {
      freed = λ k y e. (let f = vk_pic_free-Frees p k y x e in (f.after, f.result));
      apart = λ k l i e f. apart_at p k l i x e f;
      returned = λ none_live. all_zero p.pool (λ j. x.same j ∙ ap (count j) none_live);
      refused = λ e j n at_j. refused_at p j n x (new_picture_refused p e) at_j;
    }
