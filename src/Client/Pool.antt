-- ===== src/Client/Pool.antt =====
-- The pool under one allocation and one release.
use gst_vk_video_parser.Prelude.{
  ℕ, zero, suc, ◌+◌, ◌≡◌, ◌≢◌, refl, inl, inr, ap, ◌∙◌, sym, List, [], ◌∷◌, Option, none, some,
  get_elem?, get_or, set, ◌==◌, if◌then◌else◌, arith, Option-cases, some_eq,
}
use gst_vk_video_parser.Client.{Pool, alloc_picture_buffer, remove_at}

-- The VkPics that hold picture `j`.
abbrev pub holds : ℕ → Option ℕ → ℕ
holds j none = 0
holds j (some i) = if i == j then 1 else 0

abbrev pub count : ℕ → List (Option ℕ) → ℕ
count j [] = 0
count j (x ∷ xs) = holds j x + count j xs

-- An allocation takes a picture without references.
pub alloc_picture_buffer-set :
    (pool : Pool) (i : ℕ) (pool' : Pool)
    → alloc_picture_buffer pool ≡ some (i, pool')
    → (get_elem? pool i ≡ some 0) × (pool' ≡ set pool i 1)
unfolding alloc_picture_buffer
alloc_picture_buffer-set [] i pool' e = absurd (cc)
alloc_picture_buffer-set (zero ∷ pool) zero pool' e =
    (refl, sym (ap (λ (t : ℕ × Pool). t.1) (some_eq e)))
alloc_picture_buffer-set (zero ∷ pool) (suc i) pool' e = absurd (cc)
alloc_picture_buffer-set (suc n ∷ pool) i pool' e =
    elim (Option-cases (alloc_picture_buffer pool)) [
      | inl full ↦ absurd (none_some (rw full at e))
      | inr ((j, rest), found) ↦
          let e' : ◌≡◌ {A = ℕ × Pool} (suc j, suc n ∷ rest) (i, pool') = some_eq (rw found at e) in
          let ih = alloc_picture_buffer-set pool j rest found in
          let at_i : suc j ≡ i = ap (λ (t : ℕ × Pool). t.0) e' in
          rw⁻¹ at_i (ih.0, sym (ap (λ (t : ℕ × Pool). t.1) e') ∙ ap (λ r. suc n ∷ r) ih.1)
    ]
  where
    none_some : {a : ℕ × Pool} → none ≡ some a → ⊥
    none_some x = cc

pub get_or-set_self :
    (xs : List ℕ) (i v a : ℕ) → get_elem? xs i ≡ some a → get_or (set xs i v) i 0 ≡ v
get_or-set_self [] i v a e = absurd (cc)
get_or-set_self (x ∷ xs) zero v a e = refl
get_or-set_self (x ∷ xs) (suc i) v a e = get_or-set_self xs i v a e

pub get_or-set_ne : (xs : List ℕ) (i j v : ℕ) → i ≢ j → get_or (set xs i v) j 0 ≡ get_or xs j 0
get_or-set_ne [] i j v h = refl
get_or-set_ne (x ∷ xs) zero zero v h = absurd (h refl)
get_or-set_ne (x ∷ xs) zero (suc j) v h = refl
get_or-set_ne (x ∷ xs) (suc i) zero v h = refl
get_or-set_ne (x ∷ xs) (suc i) (suc j) v h = get_or-set_ne xs i j v (λ e. h (ap suc e))

pub get_or-some : (xs : List ℕ) (i a : ℕ) → get_elem? xs i ≡ some a → get_or xs i 0 ≡ a
get_or-some [] i a e = absurd (cc)
get_or-some (x ∷ xs) zero a e = some_eq e
get_or-some (x ∷ xs) (suc i) a e = get_or-some xs i a e

pub get_or-suc : (xs : List ℕ) (i n : ℕ) → get_or xs i 0 ≡ suc n → get_elem? xs i ≡ some (suc n)
get_or-suc [] i n e = absurd (omega arith)
get_or-suc (x ∷ xs) zero n e = ap some e
get_or-suc (x ∷ xs) (suc i) n e = get_or-suc xs i n e

pub count-remove :
    (live : List (Option ℕ)) (k j : ℕ) (x : Option ℕ)
    → get_elem? live k ≡ some x
    → holds j x + count j (remove_at live k) ≡ count j live
count-remove [] k j x e = absurd (cc)
count-remove (y ∷ live) zero j x e = ap (λ z. holds j z + count j live) (sym (some_eq e))
count-remove (y ∷ live) (suc k) j x e = let ih = count-remove live k j x e in omega (arith, ih)

pub holds_self : (i : ℕ) → holds i (some i) ≡ 1
holds_self i = ground arith

pub holds_other : (i j : ℕ) → i ≢ j → holds j (some i) ≡ 0
holds_other i j h = ground arith
