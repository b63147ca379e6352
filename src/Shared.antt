-- ===== src/Shared.antt =====
-- include/vkvideo_parser/VkParserVideoRefCountBase.h: VkSharedBaseObj, and the objects that
-- test/VideoParserClient.h puts into the one that a decoder element keeps (spsclient, ppsclient). The
-- store holds every object that was created; a pointer is a position in it.
pub mod Updating
mod Swapping
mod Tests
use gst_vk_video_parser.Prelude.{
  ℕ, zero, suc, ◌+◌, Bool, true, false, List, [], ◌∷◌, ◌++◌, Option, none, some, length, get_elem?,
  set, ◌==◌, if◌then◌else◌,
}

-- A PictureParameterSet with its m_refCount, or a deleted one.
pub data SharedObject : Type 0 where
  alive : ℕ → SharedObject
  deleted : SharedObject

abbrev pub Store : Type 0
Store = List SharedObject

-- PictureParameterSet::Release, then the assertion of Reset that the count is not below 0; `none` is a
-- failed assertion or the use of a deleted object.
unfoldable pub release_object : Store → ℕ → Option Store
release_object store i = elim (get_elem? store i) [
  | none ↦ none
  | some deleted ↦ none
  | some (alive zero) ↦ none
  | some (alive (suc zero)) ↦ some (set store i deleted)
  | some (alive (suc (suc n))) ↦ some (set store i (alive (suc n)))
]

-- PictureParameterSet::AddRef.
unfoldable pub add_object_ref : Store → ℕ → Option Store
add_object_ref store i = elim (get_elem? store i) [
  | none ↦ none
  | some deleted ↦ none
  | some (alive n) ↦ some (set store i (alive (suc n)))
]

abbrev pub same_pointer : Option ℕ → Option ℕ → Bool
same_pointer none none = true
same_pointer (some i) (some j) = i == j
same_pointer _ _ = false

abbrev pub release_old : Store → Option ℕ → Option Store
release_old store none = some store
release_old store (some i) = release_object store i

abbrev pub add_new : Option Store → Option ℕ → Option Store
add_new none p = none
add_new (some store) none = some store
add_new (some store) (some i) = add_object_ref store i

-- Reset: the store after the shared pointer goes from the first pointer to the second.
unfoldable pub reset : Store → Option ℕ → Option ℕ → Option Store
reset store old new =
    if same_pointer new old then some store else add_new (release_old store old) new

-- The constructors from a pointer and from another shared pointer, which start from a null pointer.
unfoldable pub construct : Store → Option ℕ → Option Store
construct store p = reset store none p

-- The destructor.
unfoldable pub destroy : Store → Option ℕ → Option Store
destroy store p = reset store p none

-- Swap, where the first pointer is that of the object it is called on: the store, and the two pointers
-- after it. The destructor of `tmp` comes last.
unfoldable pub swap : Store → Option ℕ → Option ℕ → Option (Store × Option ℕ × Option ℕ)
swap store p q = elim (construct store p) [
  | none ↦ none
  | some with_tmp ↦ elim (destroy with_tmp p) [ none ↦ none | some store' ↦ some (store', q, p) ]
]

-- UpdatePictureParameters: `shared = PictureParameterSet::create()`.
unfoldable pub update : Store → Option ℕ → Option (Store × Option ℕ)
update store shared = elim (reset (store ++ alive 0 ∷ []) shared (some (length store))) [
  | none ↦ none
  | some store' ↦ some (store', some (length store))
]

-- So many updates of a new element.
unfoldable pub update_times : ℕ → Option (Store × Option ℕ)
update_times zero = some ([], none)
update_times (suc n) = elim (update_times n) [
  | none ↦ none
  | some (store, shared) ↦ update store shared
]

-- gst_vk_h264_dec_dispose, for one of the pointers.
unfoldable pub dispose : Store → Option ℕ → Option Store
dispose store none = some store
dispose store (some i) = release_object store i
