-- ===== src/Client/Pictures.antt =====
-- The pictures of the pool under all that the decoder elements do with them.
use gst_vk_video_parser.Prelude.{
  ℕ, zero, suc, ◌+◌, ◌≤◌, ◌≡◌, ◌≢◌, refl, inl, inr, ◌∙◌, sym, Bool, List, [], ◌∷◌, Option, none,
  some, get_elem?, get_or, set, replicate, ◌==◌, arith, Bool-cases, Option-cases, some_eq,
}
use gst_vk_video_parser.Client.{
  Pool, new_pool, alloc_picture_buffer, release_picture, PictureState, new_picture, vk_pic_free,
  remove_at,
}
use gst_vk_video_parser.Client.Pool.{
  holds, count, alloc_picture_buffer-set, get_or-set_self, get_or-set_ne, get_or-some, get_or-suc,
  count-remove, holds_self, holds_other,
}

-- A new element, with its client or without one.
abbrev pub new_pictures : Bool → PictureState
new_pictures has_client = record { has_client = has_client; pool = new_pool; live = [] }

-- What new pictures and freed pictures can lead to.
pub data Reachable : PictureState → Type 0 where
  created : (has_client : Bool) → Reachable (new_pictures has_client)
  allocates : (p : PictureState) → Reachable p → Reachable (new_picture p).1
  frees : (p p' : PictureState) (k : ℕ) → Reachable p → vk_pic_free p k ≡ some p' → Reachable p'

-- Each count of the pool is the number of VkPics that hold the picture, and this is at most 1.
pub record IsExact (pool : Pool) (live : List (Option ℕ)) : Type 0 where
  pub same : (j : ℕ) → get_or pool j 0 ≡ count j live
  pub once : (j : ℕ) → count j live ≤ 1

get_or-replicate : (n j : ℕ) → ◌≡◌ {A = ℕ} (get_or (replicate n 0) j 0) 0
get_or-replicate zero j = refl
get_or-replicate (suc n) zero = refl
get_or-replicate (suc n) (suc j) = get_or-replicate n j

IsExact-none :
    (pool : Pool) (live : List (Option ℕ)) → IsExact pool live → IsExact pool (none ∷ live)
IsExact-none pool live x = record {
  same = λ j. omega (arith, x.same j);
  once = λ j. omega (arith, x.once j);
}

IsExact-alloc :
    (pool : Pool) (live : List (Option ℕ)) (i : ℕ)
    → IsExact pool live
    → get_elem? pool i ≡ some 0
    → IsExact (set pool i 1) (some i ∷ live)
IsExact-alloc pool live i x free =
    let unused : count i live ≡ 0 = sym (x.same i) ∙ get_or-some pool i 0 free in
    record { same = same unused; once = once unused }
  where
    same : count i live ≡ 0 → (j : ℕ) → get_or (set pool i 1) j 0 ≡ holds j (some i) + count j live
    same unused j = elim (Bool-cases (i == j)) [
      | inl e ↦
          let e' : i ≡ j = ground (arith, e) in
          rw⁻¹ e' (get_or-set_self pool i 1 0 free ∙ omega (arith, unused, holds_self i))
      | inr e ↦
          let e' : i ≢ j = λ h. ground (arith, e, h) in
          get_or-set_ne pool i j 1 e' ∙ x.same j ∙ omega (arith, holds_other i j e')
    ]

    once : count i live ≡ 0 → (j : ℕ) → holds j (some i) + count j live ≤ 1
    once unused j = elim (Bool-cases (i == j)) [
      | inl e ↦ let e' : i ≡ j = ground (arith, e) in rw⁻¹ e' (omega (arith, unused, holds_self i))
      | inr e ↦
          let e' : i ≢ j = λ h. ground (arith, e, h) in omega (arith, holds_other i j e', x.once j)
    ]

IsExact-new :
    (p : PictureState)
    → IsExact p.pool p.live
    → IsExact (new_picture p).1.pool (new_picture p).1.live
unfolding new_picture
IsExact-new p x = elim (Bool-cases p.has_client) [
  | inr absent ↦ rw (absent, new_picture) (IsExact-none p.pool p.live x)
  | inl given ↦ elim (Option-cases (alloc_picture_buffer p.pool)) [
    | inl full ↦ rw (given, full, new_picture) x
    | inr ((i, pool), found) ↦
        let (free, pool_eq) = alloc_picture_buffer-set p.pool i pool found in
        rw (given, found, new_picture) (rw pool_eq (IsExact-alloc p.pool p.live i x free))
  ]
]

-- The VkPic at a position counts.
count-at : (live : List (Option ℕ)) (k i : ℕ) → get_elem? live k ≡ some (some i) → 1 ≤ count i live
count-at live k i e = let r = count-remove live k i (some i) e in omega (arith, r, holds_self i)

IsExact-free_none :
    (pool : Pool) (live : List (Option ℕ)) (k : ℕ)
    → IsExact pool live
    → get_elem? live k ≡ some none
    → IsExact pool (remove_at live k)
IsExact-free_none pool live k x e = record {
  same = λ j. omega (arith, x.same j, count-remove live k j none e);
  once = λ j. omega (arith, x.once j, count-remove live k j none e);
}

IsExact-free :
    (pool : Pool) (live : List (Option ℕ)) (k i : ℕ)
    → IsExact pool live
    → get_elem? live k ≡ some (some i)
    → (get_elem? pool i ≡ some 1) × IsExact (set pool i 0) (remove_at live k)
IsExact-free pool live k i x e =
    let held : get_or pool i 0 ≡ 1 = omega (arith, x.same i, x.once i, count-at live k i e) in
    let here = get_or-suc pool i 0 held in
    (
      here,
      record {
        same = same here;
        once = λ j. omega (arith, x.once j, count-remove live k j (some i) e);
      },
    )
  where
    same :
        get_elem? pool i ≡ some 1 → (j : ℕ) → get_or (set pool i 0) j 0 ≡ count j (remove_at live k)
    same here j = elim (Bool-cases (i == j)) [
      | inl eq ↦
          let eq' : i ≡ j = ground (arith, eq) in
          rw⁻¹ eq' (
            get_or-set_self pool i 0 1 here
            ∙ omega (arith, holds_self i, x.once i, count-remove live k i (some i) e))
      | inr ne ↦
          let ne' : i ≢ j = λ h. ground (arith, ne, h) in
          get_or-set_ne pool i j 0 ne'
          ∙ x.same j
          ∙ omega (arith, holds_other i j ne', count-remove live k j (some i) e)
    ]

-- Freeing a VkPic never fails, and keeps the counts exact.
pub record Frees (p : PictureState) (k : ℕ) : Type 0 where
  pub after : PictureState
  pub result : vk_pic_free p k ≡ some after
  pub exact : IsExact after.pool after.live

pub vk_pic_free-Frees :
    (p : PictureState) (k : ℕ) (x : Option ℕ)
    → IsExact p.pool p.live
    → get_elem? p.live k ≡ some x
    → Frees p k
unfolding vk_pic_free release_picture
vk_pic_free-Frees p k none x e = record {
  after = record p { live = remove_at p.live k };
  result = rw (e, vk_pic_free) refl;
  exact = IsExact-free_none p.pool p.live k x e;
}
vk_pic_free-Frees p k (some i) x e =
    let (here, exact) = IsExact-free p.pool p.live k i x e in
    record {
      after = record p { pool = set p.pool i 0; live = remove_at p.live k };
      result = rw (e, vk_pic_free) (rw (here, release_picture) refl);
      exact = exact;
    }

frees_live :
    (p p' : PictureState) (k : ℕ)
    → vk_pic_free p k ≡ some p'
    → (x : Option ℕ) × (get_elem? p.live k ≡ some x)
unfolding vk_pic_free
frees_live p p' k e = elim (Option-cases (get_elem? p.live k)) [
  | inl gone ↦ absurd (none_some (rw (gone, vk_pic_free) at e))
  | inr found ↦ found
]
  where
    none_some : none ≡ some p' → ⊥
    none_some x = cc

-- In every reachable state the count of each picture of the pool is the number of live VkPics that
-- hold it, and no picture is held by two of them.
pub Reachable-IsExact : (p : PictureState) → Reachable p → IsExact p.pool p.live
Reachable-IsExact _ (created c) = record {
  same = λ j. get_or-replicate 32 j;
  once = λ j. omega arith;
}
Reachable-IsExact _ (allocates p r) = IsExact-new p (Reachable-IsExact p r)
Reachable-IsExact _ (frees p p' k r e) =
    let (x, found) = frees_live p p' k e in
    let f = vk_pic_free-Frees p k x (Reachable-IsExact p r) found in
    rw (some_eq (sym f.result ∙ e)) at f.exact
