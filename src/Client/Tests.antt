-- ===== src/Client/Tests.antt =====
-- A client that has given out two pictures and got one back.
use gst_vk_video_parser.Prelude.{ℕ, refl, true, List, [], ◌∷◌, some, replicate}
use gst_vk_video_parser.Client.{
  alloc_picture_buffer, release_picture, PictureState, new_picture, vk_pic_free,
}
use gst_vk_video_parser.Client.Pictures.{Reachable, created, allocates, frees, new_pictures}
use gst_vk_video_parser.Client.Safety.{IsSafe, Reachable-IsSafe}

abbrev two_pictures : PictureState
two_pictures = (new_picture (new_picture (new_pictures true)).1).1

abbrev one_returned : PictureState
one_returned = record { has_client = true; pool = 0 ∷ set_rest; live = some 1 ∷ [] }
  where
    set_rest : List ℕ
    set_rest = 1 ∷ replicate 30 0

one_returned-Reachable : Reachable one_returned
unfolding new_picture alloc_picture_buffer vk_pic_free release_picture
one_returned-Reachable =
    frees two_pictures one_returned 1
      (allocates (new_picture (new_pictures true)).1 (allocates (new_pictures true) (created true)))
      refl

Reachable-IsSafe_example : IsSafe one_returned
Reachable-IsSafe_example = Reachable-IsSafe one_returned one_returned-Reachable
