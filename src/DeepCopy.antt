-- ===== src/DeepCopy.antt =====
-- apis/v1alpha1/zz_generated.deepcopy.go, over a memory of cells: what a deep copy copies and what it
-- would share. Elsewhere a resource is its value, and a deep copy is the value itself.
pub mod Heap
pub mod Boxes
pub mod Into
pub mod Resource
pub mod Means
pub mod Runs
pub mod Pointers
pub mod Fields
pub mod Nested
pub mod Spec
pub mod Whole
pub mod Isolation
mod Tests
