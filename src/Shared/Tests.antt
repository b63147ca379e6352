-- ===== src/Shared/Tests.antt =====
-- Three updates, then the end of the element.
use gst_vk_video_parser.Prelude.{◌≡◌, [], ◌∷◌, ◌++◌, some, replicate}
use gst_vk_video_parser.Shared.{alive, deleted, update_times, dispose}
use gst_vk_video_parser.Shared.Updating.{update_times_lem}

update_times_lem_example :
    (update_times 3 ≡ some (replicate 2 deleted ++ alive 1 ∷ [], some 2))
    × (dispose (replicate 2 deleted ++ alive 1 ∷ []) (some 2) ≡ some (replicate 3 deleted))
update_times_lem_example = update_times_lem 2
