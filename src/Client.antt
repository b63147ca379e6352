-- ===== src/Client.antt =====
-- test/VideoParserClient.h: the client of the test programs, and the pictures of its pool that the
-- decoder elements (lib/plugins/gstvkh264dec.cpp, gstvkh265dec.cpp) take and give back.
pub mod Pool
pub mod Pictures
pub mod Safety
pub mod Sequence
mod Tests
use gst_vk_video_parser.Prelude.{
  ℕ, zero, suc, ◌+◌, ◌-◌, Bool, true, false, ◌&&◌, List, [], ◌∷◌, Option, none, some, get_elem?,
  set, replicate, leb, ◌==◌, if◌then◌else◌,
}
use Prim.Native.Nat.{min}
use gst_vk_video_parser.Prelude.Int.{ℤ, pos, negsuc}

-- VideoParserClient::m_dpb: the reference counts of the pictures.
abbrev pub Pool : Type 0
Pool = List ℕ

-- `m_dpb(32)`, each picture with m_refCount 0.
abbrev pub new_pool : Pool
new_pool = replicate 32 0

-- AllocPictureBuffer: the first available picture, by its position, gets a reference.
unfoldable pub alloc_picture_buffer : Pool → Option (ℕ × Pool)
alloc_picture_buffer [] = none
alloc_picture_buffer (zero ∷ pool) = some (zero, suc zero ∷ pool)
alloc_picture_buffer (suc n ∷ pool) = elim (alloc_picture_buffer pool) [
  | none ↦ none
  | some (i, pool') ↦ some (suc i, suc n ∷ pool')
]

-- Picture::Release; `none` is its assertion that the count is above 0, or a picture that is not there.
unfoldable pub release_picture : Pool → ℕ → Option Pool
release_picture pool i = elim (get_elem? pool i) [
  | none ↦ none
  | some zero ↦ none
  | some (suc n) ↦ some (set pool i n)
]

-- The assertions of the destructor.
unfoldable pub all_available : Pool → Bool
all_available [] = true
all_available (n ∷ pool) = n == 0 && all_available pool

-- a - b on int32_t, for small a and b.
abbrev pub minus : ℕ → ℕ → ℤ
minus a b = if leb b a then pos (a - b) else negsuc (b - a - 1)

abbrev pub min_int : ℤ → ℕ → ℤ
min_int (pos n) m = pos (min n m)
min_int (negsuc n) m = negsuc n

-- BeginSequence: what the element is told to be the number of reference frames. `encode_h264` is its
-- test of the codec against VK_VIDEO_CODEC_OPERATION_ENCODE_H264_BIT_EXT.
unfoldable pub begin_sequence : Bool → Bool → ℤ → ℤ
begin_sequence encode_h264 is_svc (negsuc n) = pos 1
begin_sequence encode_h264 is_svc (pos zero) = pos 1
begin_sequence encode_h264 is_svc (pos (suc n)) =
    min_int (min_int (minus (suc n + 1) (if is_svc then 3 else 1)) (if encode_h264 then 17 else 16))
      17

-- The VkPics that are alive, by the picture of the client that each holds, and the client's pool.
pub record PictureState : Type 0 where
  pub has_client : Bool
  pub pool : Pool
  pub live : List (Option ℕ)

-- new_picture and new_field_picture: GST_FLOW_OK or not, and the VkPic that becomes the user data.
unfoldable pub new_picture : PictureState → Bool × PictureState
new_picture p =
    if p.has_client
    then elim (alloc_picture_buffer p.pool) [
      | none ↦ (false, p)
      | some (i, pool) ↦ (true, record p { pool = pool; live = some i ∷ p.live })
    ]
    else (true, record p { live = none ∷ p.live })

abbrev pub remove_at {ℓ} : {A : Type ℓ} → List A → ℕ → List A
remove_at [] k = []
remove_at (x ∷ xs) zero = xs
remove_at (x ∷ xs) (suc k) = x ∷ remove_at xs k

-- vk_pic_free on the VkPic at a position; `none` is a failed assertion, or no VkPic there.
unfoldable pub vk_pic_free : PictureState → ℕ → Option PictureState
vk_pic_free p k = elim (get_elem? p.live k) [
  | none ↦ none
  | some none ↦ some (record p { live = remove_at p.live k })
  | some (some i) ↦ elim (release_picture p.pool i) [
    | none ↦ none
    | some pool ↦ some (record p { pool = pool; live = remove_at p.live k })
  ]
]
