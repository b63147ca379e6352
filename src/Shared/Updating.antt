-- ===== src/Shared/Updating.antt =====
-- The objects of the client over the life of an element.
use gst_vk_video_parser.Prelude.{
  ℕ, zero, suc, ◌+◌, ◌≡◌, refl, ap, ◌∙◌, sym, false, [], ◌∷◌, ◌++◌, Option, none, some, length,
  length-replicate, get_elem?-append_middle, set-append, replicate, ◌==◌, arith, append_assoc,
}
use gst_vk_video_parser.Shared.{
  SharedObject, alive, deleted, Store, release_object, add_object_ref, reset, update, update_times,
  dispose,
}

-- The last reference to an object deletes it.
release_object-last :
    (xs ys : Store) → release_object (xs ++ alive 1 ∷ ys) (length xs) ≡ some (xs ++ deleted ∷ ys)
unfolding release_object
release_object-last xs ys =
    rw (get_elem?-append_middle xs (alive 1) ys, release_object)
      (ap some (set-append xs ys (alive 1) deleted))

add_object_ref-first :
    (xs ys : Store) → add_object_ref (xs ++ alive 0 ∷ ys) (length xs) ≡ some (xs ++ alive 1 ∷ ys)
unfolding add_object_ref
add_object_ref-first xs ys =
    rw (get_elem?-append_middle xs (alive 0) ys, add_object_ref)
      (ap some (set-append xs ys (alive 0) (alive 1)))

reset-step :
    (store mid after : Store) (i j : ℕ)
    → (j == i) ≡ false
    → release_object store i ≡ some mid
    → add_object_ref mid j ≡ some after
    → reset store (some i) (some j) ≡ some after
unfolding reset
reset-step store mid after i j different released added = rw different (rw released added)

update-step :
    (store after : Store) (shared : Option ℕ)
    → reset (store ++ alive 0 ∷ []) shared (some (length store)) ≡ some after
    → update store shared ≡ some (after, some (length store))
unfolding update
update-step store after shared e = rw (e, update) refl

length-end : (xs : Store) (y : SharedObject) → length (xs ++ y ∷ []) ≡ length xs + 1
length-end [] y = omega arith
length-end (x ∷ xs) y = omega (arith, length-end xs y)

-- An update of the store in which the pointer is the last object.
update-last :
    (xs : Store)
    → update (xs ++ alive 1 ∷ []) (some (length xs))
      ≡ some ((xs ++ deleted ∷ []) ++ alive 1 ∷ [], some (length (xs ++ deleted ∷ [])))
update-last xs =
    let store : Store = xs ++ alive 1 ∷ [] in
    let mid : Store = xs ++ deleted ∷ alive 0 ∷ [] in
    let after : Store = (xs ++ deleted ∷ []) ++ alive 1 ∷ [] in
    let same : length store ≡ length (xs ++ deleted ∷ []) =
      length-end xs (alive 1) ∙ sym (length-end xs deleted) in
    let different : (length store == length xs) ≡ false = ground (arith, length-end xs (alive 1)) in
    let released : release_object (store ++ alive 0 ∷ []) (length xs) ≡ some mid =
      ap (λ (s : Store). release_object s (length xs))
        (append_assoc xs (alive 1 ∷ []) (alive 0 ∷ []))
      ∙ release_object-last xs (alive 0 ∷ []) in
    let added : add_object_ref mid (length store) ≡ some after =
      ap (λ (s : Store). add_object_ref s (length store))
        (sym (append_assoc xs (deleted ∷ []) (alive 0 ∷ [])))
      ∙ ap (add_object_ref ((xs ++ deleted ∷ []) ++ alive 0 ∷ [])) same
      ∙ add_object_ref-first (xs ++ deleted ∷ []) [] in
    update-step store after (some (length xs)) (
      reset-step (store ++ alive 0 ∷ []) mid after (length xs) (length store) different released
        added)
    ∙ ap (λ n. some (after, some n)) same

replicate-end : (n : ℕ) → replicate n deleted ++ deleted ∷ [] ≡ replicate (suc n) deleted
replicate-end zero = refl
replicate-end (suc n) = ap (λ l. deleted ∷ l) (replicate-end n)

first_update : update_times 1 ≡ some (alive 1 ∷ [], some 0)
unfolding update_times update reset add_object_ref
first_update = refl

again : Option (Store × Option ℕ) → Option (Store × Option ℕ)
again none = none
again (some (store, shared)) = update store shared

-- After `n + 1` updates the client's last object is alive with one reference, which the element holds,
-- and the `n` objects before it are deleted; the element's dispose then deletes it too.
pub update_times_lem :
    (n : ℕ)
    → (update_times (suc n) ≡ some (replicate n deleted ++ alive 1 ∷ [], some n))
      × (dispose (replicate n deleted ++ alive 1 ∷ []) (some n) ≡ some (replicate (suc n) deleted))
unfolding update_times dispose again
update_times_lem n = (counted n, disposed n)
  where
    disposed :
        (k : ℕ)
        → release_object (replicate k deleted ++ alive 1 ∷ []) k ≡ some (replicate (suc k) deleted)
    disposed k =
        ap (release_object (replicate k deleted ++ alive 1 ∷ [])) (sym (length-replicate k deleted))
        ∙ release_object-last (replicate k deleted) []
        ∙ ap some (replicate-end k)

    counted : (k : ℕ) → update_times (suc k) ≡ some (replicate k deleted ++ alive 1 ∷ [], some k)
    counted zero = first_update
    counted (suc k) =
        ap again (counted k)
        ∙ ap (update (replicate k deleted ++ alive 1 ∷ []))
            (ap some (sym (length-replicate k deleted)))
        ∙ update-last (replicate k deleted)
        ∙ ap (λ (l : Store). some (l ++ alive 1 ∷ [], some (length l))) (replicate-end k)
        ∙ ap (λ m. some (replicate (suc k) deleted ++ alive 1 ∷ [], some m))
            (length-replicate (suc k) deleted)
