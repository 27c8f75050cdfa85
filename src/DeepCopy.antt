-- ===== src/DeepCopy.antt =====
-- api/v1alpha1: the deep copies of zz_generated.deepcopy.go, on a store of the blocks that slices share.
pub mod Types
pub mod Copier
pub mod Slices
pub mod Elements
pub mod Blocks
pub mod Generated
pub mod Pointers
pub mod Fields
pub mod Arenas
pub mod Deep
pub mod Separate
pub mod Snapshot
