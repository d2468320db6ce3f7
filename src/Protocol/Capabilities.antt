-- ===== src/Protocol/Capabilities.antt =====
-- crates/crossscp-core/src/protocol.rs: what an adapter is able to do.
use cross_scp.Base.{Bool, true, false}

pub record ProtocolCapabilities : Type 0 where
  pub can_list : Bool
  pub can_upload : Bool
  pub can_download : Bool
  pub can_delete : Bool
  pub can_mkdir : Bool
  pub can_rename : Bool
  pub can_recursive_transfer : Bool
  pub can_resume_upload : Bool
  pub can_resume_download : Bool
  pub can_preserve_timestamps : Bool
  pub can_preserve_permissions : Bool
  pub can_chmod : Bool
  pub can_symlink : Bool
  pub can_hash : Bool
  pub can_server_side_copy : Bool
  pub supports_random_access : Bool
  pub uses_real_directories : Bool
  pub uses_object_prefixes : Bool
  pub requires_bucket : Bool
  pub supports_tls_policy : Bool
  pub supports_http_version_policy : Bool

unfoldable pub sftp : ProtocolCapabilities
sftp = record {
  can_list = true;
  can_upload = true;
  can_download = true;
  can_delete = true;
  can_mkdir = true;
  can_rename = false;
  can_recursive_transfer = true;
  can_resume_upload = false;
  can_resume_download = false;
  can_preserve_timestamps = false;
  can_preserve_permissions = false;
  can_chmod = false;
  can_symlink = false;
  can_hash = false;
  can_server_side_copy = false;
  supports_random_access = false;
  uses_real_directories = true;
  uses_object_prefixes = false;
  requires_bucket = false;
  supports_tls_policy = false;
  supports_http_version_policy = false;
}

unfoldable pub empty : ProtocolCapabilities
empty = record {
  can_list = false;
  can_upload = false;
  can_download = false;
  can_delete = false;
  can_mkdir = false;
  can_rename = false;
  can_recursive_transfer = false;
  can_resume_upload = false;
  can_resume_download = false;
  can_preserve_timestamps = false;
  can_preserve_permissions = false;
  can_chmod = false;
  can_symlink = false;
  can_hash = false;
  can_server_side_copy = false;
  supports_random_access = false;
  uses_real_directories = false;
  uses_object_prefixes = false;
  requires_bucket = false;
  supports_tls_policy = false;
  supports_http_version_policy = false;
}

unfoldable pub scp_transfer_only : ProtocolCapabilities
unfolding empty
scp_transfer_only = record empty {
  can_upload = true;
  can_download = true;
  can_recursive_transfer = false;
  uses_real_directories = true;
}

unfoldable pub ftp_like : Bool → ProtocolCapabilities
unfolding empty
ftp_like supports_tls_policy = record empty {
  can_list = true;
  can_upload = true;
  can_download = true;
  can_delete = true;
  can_mkdir = true;
  can_rename = true;
  can_recursive_transfer = true;
  uses_real_directories = true;
  supports_tls_policy = supports_tls_policy;
}

unfoldable pub webdav : ProtocolCapabilities
unfolding empty
webdav = record empty {
  can_list = true;
  can_upload = true;
  can_download = true;
  can_delete = true;
  can_mkdir = true;
  can_rename = true;
  can_recursive_transfer = true;
  uses_real_directories = true;
  supports_tls_policy = true;
  supports_http_version_policy = true;
}

unfoldable pub s3 : ProtocolCapabilities
unfolding empty
s3 = record empty {
  can_list = true;
  can_upload = true;
  can_download = true;
  can_delete = true;
  can_mkdir = true;
  can_rename = true;
  can_recursive_transfer = true;
  can_server_side_copy = true;
  uses_object_prefixes = true;
  requires_bucket = true;
  supports_tls_policy = true;
  supports_http_version_policy = true;
}
