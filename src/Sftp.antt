-- ===== src/Sftp.antt =====
-- crates/crossscp-protocol-sftp/src/lib.rs: the settings of a connection, the store of known hosts, the
-- decision about a host key, and the adapter over a backend.
pub mod Errors
pub mod Settings
pub mod KnownHosts
pub mod Verify
pub mod Backend
mod Examples
