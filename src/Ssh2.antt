-- ===== src/Ssh2.antt =====
-- crates/crossscp-protocol-sftp/src/ssh2_backend.rs: the backend over libssh2. The machine and the
-- ssh2 crate are the interfaces of `Machine`.
pub mod Paths
pub mod Copy
pub mod Remote
pub mod Upload
pub mod Progress
pub mod Download
pub mod Session
pub mod Delete
pub mod DeleteEnds
pub mod Free
pub mod Copied
pub mod Connect
mod Examples
