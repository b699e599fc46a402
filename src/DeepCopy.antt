-- ===== src/DeepCopy.antt =====
-- api/v1/zz_generated.deepcopy.go: the copies of the custom resources. The values are here as Go
-- holds them, with their pointers; Memory is what these lead to.
pub mod Memory
pub mod Structs
pub mod Slots
pub mod Into
pub mod New
pub mod Object
pub mod Laws
pub mod Fields
pub mod Values
pub mod Deep
pub mod Lists
pub mod Copies
pub mod Objects
pub mod Shared
