-- ===== src/Clib.antt =====
-- The C support library, clib/.
pub mod Primes
pub mod Probing
pub mod Dict
pub mod Utf8
pub mod Array
pub mod Hash
pub mod Structs
pub mod StringBuf
