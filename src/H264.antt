-- ===== src/H264.antt =====
-- lib/plugins/gstvkh264dec.cpp: the element that turns the H.264 base decoder's calls into Vulkan
-- Video structures for the client.
pub mod SliceGroups
pub mod Dpb
pub mod Sequence
pub mod ParameterSets
pub mod Starting
