-- ===== src/Protocol.antt =====
-- crates/crossscp-core/src/protocol.rs: requests, results and events of a remote file system, and
-- the names that keep both of two files.
pub mod Capabilities
pub mod Numbered
mod Examples
use cross_scp.Base.{
  ℕ, List, [], ◌∷◌, ◌++◌, Option, none, some, Bool, true, false, ltb, if◌then◌else◌, is_empty,
}
use cross_scp.Base.Text.{Text, codes, text_eq, trim_end_matches, starts_with}
use cross_scp.Base.Decimal.{to_string}
use cross_scp.Base.Paths.{rsplit_once}
use cross_scp.Protocol.Capabilities.{ProtocolCapabilities}

pub data RemoteErrorKind : Type 0 where
  auth_failed network_unreachable timeout tls_certificate host_key_trust : RemoteErrorKind
  permission_denied not_found conflict_already_exists unsupported_operation : RemoteErrorKind
  rate_limited service_unavailable unknown_backend : RemoteErrorKind

pub data RemoteOperation : Type 0 where
  list upload download mkdir delete rename capabilities : RemoteOperation

pub data FileConflictPolicy : Type 0 where
  keep_existing replace_existing keep_both : FileConflictPolicy

pub record RemoteFile : Type 0 where
  pub path : Text
  pub name : Text
  pub size : Option ℕ
  pub is_directory : Bool
  pub is_symlink : Bool
  pub permissions : Option Text

-- `copy_number.max(1)`
abbrev pub at_least_one : ℕ → ℕ
at_least_one n = if ltb n 1 then 1 else n

-- `{stem} ({copy_number}){rest}`
abbrev pub with_number : Text → ℕ → Text → Text
with_number stem n rest = stem ++ codes " (" ++ to_string n ++ codes ")" ++ rest

-- The number stands before the extension, if there is one behind a stem.
unfoldable pub number_file : Text → ℕ → Option (Text × Text) → Text
unfolding to_string
number_file name n none = with_number name n []
number_file name n (some ([], extension)) = with_number name n []
number_file name n (some (c ∷ stem, extension)) = with_number (c ∷ stem) n (b'.' ∷ extension)

unfoldable pub numbered_name : Text → ℕ → Bool → Text
unfolding number_file rsplit_once to_string
numbered_name name n true = with_number name n []
numbered_name name n false = number_file name n (rsplit_once b'.' name)

unfoldable pub normalized : Text → Text
unfolding trim_end_matches text_eq
normalized path = if text_eq path (codes "/") then path else trim_end_matches b'/' path

-- `map_or(("", normalized_path), ...)`
abbrev pub parent_and_name : Text → Option (Text × Text) → Text × Text
parent_and_name path none = ([], path)
parent_and_name path (some parts) = parts

unfoldable pub sibling : Text → Text → Text → Text
unfolding starts_with
sibling path parent name =
    if is_empty parent
    then if starts_with path (codes "/") then b'/' ∷ name else name
    else parent ++ b'/' ∷ name

unfoldable pub numbered_conflict_path : Text → ℕ → Bool → Text
unfolding normalized rsplit_once numbered_name sibling
numbered_conflict_path path copy_number is_directory =
    let whole = normalized path in
    let (parent, name) = parent_and_name whole (rsplit_once b'/' whole) in
    sibling whole parent (numbered_name name (at_least_one copy_number) is_directory)

pub record RemoteListRequest : Type 0 where
  pub path : Text

pub record RemoteTransferRequest : Type 0 where
  pub local_path : Text
  pub remote_path : Text

pub record RemoteMkdirRequest : Type 0 where
  pub remote_path : Text
  pub create_parents : Bool

pub record RemoteDeleteRequest : Type 0 where
  pub remote_path : Text
  pub recursive : Bool

pub record RemoteRenameRequest : Type 0 where
  pub source : Text
  pub target : Text
  pub overwrite : Bool

pub data RemoteOperationResult : Type 0 where
  entries : List RemoteFile → RemoteOperationResult
  transferred : ℕ → Option ℕ → RemoteOperationResult
  completed : RemoteOperationResult
  advertised : ProtocolCapabilities → RemoteOperationResult

pub data RemoteProgressEvent : Type 0 where
  started : RemoteOperation → RemoteProgressEvent
  bytes : (done : ℕ) → (total : Option ℕ) → RemoteProgressEvent
  current_file : Text → RemoteProgressEvent
  operation_completed : RemoteProgressEvent
  operation_failed : RemoteErrorKind → Text → RemoteProgressEvent
  operation_cancelled : RemoteProgressEvent

-- What all clones of a token share.
pub record CancellationToken : Type 0 where
  pub cancelled : Bool

abbrev pub fresh_token : CancellationToken
fresh_token = record { cancelled = false }

unfoldable pub cancel : CancellationToken → CancellationToken
cancel token = record token { cancelled = true }

unfoldable pub is_cancelled : CancellationToken → Bool
is_cancelled token = token.cancelled
