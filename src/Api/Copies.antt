-- ===== src/Api/Copies.antt =====
-- api/v1/zz_generated.deepcopy.go: what `DeepCopyInto` and `DeepCopy` do.
pub mod Heap
pub mod Structs
pub mod Copying
pub mod Lists
pub mod Receivers
pub mod Independence
pub mod Views
pub mod Parts
pub mod Objects
pub mod Deep
