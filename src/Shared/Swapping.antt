-- ===== src/Shared/Swapping.antt =====
-- Swap and the life of its temporary.
use gst_vk_video_parser.Prelude.{
  ℕ, suc, ◌≡◌, refl, ap, ◌∷◌, ◌++◌, Option, none, some, length, get_elem?-append_middle, set-append,
}
use gst_vk_video_parser.Shared.{
  alive, Store, release_object, add_object_ref, reset, construct, destroy, swap,
}

construct-alive :
    (xs ys : Store) (n : ℕ)
    → construct (xs ++ alive n ∷ ys) (some (length xs)) ≡ some (xs ++ alive (suc n) ∷ ys)
unfolding construct reset add_object_ref
construct-alive xs ys n =
    rw (get_elem?-append_middle xs (alive n) ys, add_object_ref)
      (ap some (set-append xs ys (alive n) (alive (suc n))))

destroy-alive :
    (xs ys : Store) (n : ℕ)
    → destroy (xs ++ alive (suc (suc n)) ∷ ys) (some (length xs)) ≡ some (xs ++ alive (suc n) ∷ ys)
unfolding destroy reset release_object
destroy-alive xs ys n =
    rw (get_elem?-append_middle xs (alive (suc (suc n))) ys, release_object)
      (ap some (set-append xs ys (alive (suc (suc n))) (alive (suc n))))

-- On a pointer to an object that is alive with a reference, Swap exchanges the two pointers, whatever
-- the other one is, and leaves every count as it was.
swap-alive :
    (xs ys : Store) (n : ℕ) (q : Option ℕ)
    → swap (xs ++ alive (suc n) ∷ ys) (some (length xs)) q
      ≡ some (xs ++ alive (suc n) ∷ ys, q, some (length xs))
unfolding swap
swap-alive xs ys n q =
    rw (construct-alive xs ys (suc n), swap) (rw (destroy-alive xs ys n, swap) refl)

swap_null : (store : Store) (q : Option ℕ) → swap store none q ≡ some (store, q, none)
unfolding swap construct destroy reset
swap_null store q = refl
