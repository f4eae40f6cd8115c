-- ===== src/Std.antt =====
-- What the source uses of Rust's standard library: machine integers, byte strings, and the two maps.
pub mod Words
pub mod Files
pub mod Bytes
pub mod HashMap
pub mod BTreeMap
pub mod Text
