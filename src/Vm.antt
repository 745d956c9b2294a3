-- ===== src/Vm.antt =====
-- The virtual machine, vm/.
pub mod Key
pub mod HashTable
pub mod Value
pub mod Power
pub mod Equality
pub mod Grid
pub mod Stack
pub mod Array1
pub mod Index
pub mod Format
