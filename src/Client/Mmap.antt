-- ===== src/Client/Mmap.antt =====
-- client/mmap.go: the shared memory area. Files, the mapping itself and the source of random numbers
-- are left out: an area is its bytes, its token and its flags.
pub mod Chunks
pub mod Token
pub mod Area
pub mod Session
mod Tests
