-- ===== src/Store.antt =====
-- src/store.rs: the persistent index. Children: the stored types, the encodings of keys and
-- values, the operations on the six trees, and the proofs about each.
pub mod Types
pub mod Codec
pub mod Loops
pub mod Index
pub mod Open
