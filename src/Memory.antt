-- ===== src/Memory.antt =====
-- The resources as they lie in memory: structs, and maps and slices behind addresses.
pub mod Heap
pub mod Layout
pub mod Cells
pub mod Strings
pub mod Foreign
pub mod Cluster
pub mod InitBundle
pub mod Config
pub mod Cell
pub mod Copier
pub mod Libraries
pub mod Apart
pub mod Items
