-- ===== src/Vm.antt =====
-- The virtual machine of src/cvm.c.
pub mod Registers
pub mod Frames
pub mod Heap
pub mod Objects
pub mod Calls
pub mod Redirects
pub mod Allocate
pub mod Block
pub mod Stores
pub mod Pointers
pub mod Writes
pub mod Moves
pub mod SetObject
pub mod Access
pub mod Closures
pub mod Scenes
pub mod Start
