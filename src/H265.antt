-- ===== src/H265.antt =====
-- lib/plugins/gstvkh265dec.cpp: the element that turns the H.265 base decoder's calls into Vulkan
-- Video structures for the client.
pub mod RefPics
pub mod ParameterSets
pub mod Starting
pub mod Sequence
