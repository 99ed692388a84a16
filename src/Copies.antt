-- ===== src/Copies.antt =====
-- api/v1alpha1/zz_generated.deepcopy.go: the deep copies of the resources, on a heap of arrays and
-- maps that slices, pointers and maps refer to.
pub mod Heap
pub mod Slices
pub mod Layouts
pub mod Arrays
pub mod References
pub mod Structs
pub mod Objects
pub mod DeepCopy
pub mod Resources
pub mod Deep
pub mod Upsert
pub mod Separation
pub mod Sharing
pub mod Base
