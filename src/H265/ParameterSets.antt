-- ===== src/H265/ParameterSets.antt =====
-- The parameter sets of lib/plugins/gstvkh265dec.cpp: what the parser gives (Parsed), the structures of
-- Vulkan Video (Std), what is written (Written), what is to be
-- written (Contents) and the storage they are kept in (Fill).
pub mod Parsed
pub mod Std
pub mod Written
pub mod Fill
pub mod Contents
pub mod Views
pub mod Zero
