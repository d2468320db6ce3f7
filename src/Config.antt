-- ===== src/Config.antt =====
-- crates/crossscp-config/src/lib.rs: session profiles, kept in memory and in a file of lines.
-- `Fields` writes and reads one field, `Store` is the store in memory with its checks, `Lines` the
-- file format, `File` the store that is backed by a file.
pub mod Fields
pub mod Store
pub mod Lines
pub mod File
