-- ===== src/Cli/Sessions.antt =====
-- The commands on the file of sessions, and those that only print: capabilities, the local profile and
-- the check of masks. A run prints lines, or ends with a code and a message; `usage` stands for the help
-- text.
pub mod Listed
use cross_scp.Base.{ℕ, List, [], ◌∷◌, ◌++◌, Option, none, some, Bool, true, false}
use cross_scp.Base.Result.{Result, ok, err}
use cross_scp.Base.Text.{Text, codes, join}
use cross_scp.Base.Decimal.{to_string, parse}
use cross_scp.Session.{
  SessionProtocol, sftp, SessionProfile, from_str, as_str, display_name, default_port,
  local_profile,
}
use cross_scp.Masks.{MaskSet, MaskDecision, included, excluded, include, exclude, decide}
use cross_scp.Masks
use cross_scp.Config.Store.{SessionStore, ConfigError, error_message}
use cross_scp.Config.Store
use cross_scp.Config.File.{Disk, open_store}
use cross_scp.Config.File
use cross_scp.Cli.{parse_remote_args, remote_protocol, capabilities_for, protocol_label, non_empty}

pub data Outcome : Type 0 where
  prints : List Text → Outcome
  usage : Outcome
  exits : (message : Text) → (code : ℕ) → Outcome

-- `exit_error(&format!("{command} failed: {error}"), 1)`
abbrev pub failed : Text → ConfigError → Outcome
unfolding error_message
failed command error = exits (command ++ codes " failed: " ++ error_message error) 1

abbrev or_empty : Option Text → Text
or_empty none = []
or_empty (some s) = s

unfoldable pub session_line : SessionProfile → Text
unfolding join protocol_label to_string
session_line profile = join b'\t' (
    profile.name
    ∷ protocol_label profile.protocol
    ∷ profile.host
    ∷ to_string (elim profile.port [ some port ↦ port | none ↦ 22 ])
    ∷ or_empty profile.username
    ∷ elim profile.initial_remote_path [ some path ↦ path | none ↦ codes "/" ]
    ∷ or_empty profile.credential_ref
    ∷ [])

unfoldable pub session_lines : List SessionProfile → List Text
unfolding session_line
session_lines [] = []
session_lines (profile ∷ profiles) = session_line profile ∷ session_lines profiles

unfoldable pub run_session_list : Disk → Outcome
unfolding open_store Store.list session_lines failed
run_session_list disk = elim (open_store disk) [
  | err e ↦ failed (codes "session-list") e
  | ok store ↦ elim (Store.list store) [
    | err e ↦ failed (codes "session-list") e
    | ok profiles ↦ prints (session_lines profiles)
  ]
]

-- What stands behind the path of the file.
pub record SaveArgs : Type 0 where
  pub protocol : SessionProtocol
  pub name : Text
  pub host : Text
  pub port : Text
  pub username : Text
  pub path : Text
  pub credential : Text

unfoldable pub saved_profile : SaveArgs → ℕ → SessionProfile
unfolding non_empty
saved_profile args port = record {
  name = args.name;
  protocol = args.protocol;
  host = args.host;
  port = some port;
  username = non_empty args.username;
  initial_remote_path = non_empty args.path;
  credential_ref = non_empty args.credential;
}

abbrev pub told_saved : Text → Result ConfigError (Unit {0}) → Outcome
told_saved name (ok _) = prints ((codes "saved\t" ++ name) ∷ [])
told_saved name (err e) = failed (codes "session-save") e

unfoldable pub save_to : SaveArgs → Disk → Disk × Outcome
unfolding parse open_store File.save failed saved_profile
save_to args disk = elim (parse 65536 args.port) [
  | none ↦ (disk, exits (codes "session-save failed: port must be 1-65535") 2)
  | some port ↦ elim (open_store disk) [
    | err e ↦ (disk, failed (codes "session-save") e)
    | ok store ↦
        let saved = File.save store disk (saved_profile args port) in
        (saved.disk, told_saved args.name saved.result)
  ]
]

-- The arguments behind the path of the file: with a protocol in front, or without.
unfoldable pub run_session_save : List Text → Disk → Disk × Outcome
unfolding save_to from_str
run_session_save (name ∷ host ∷ port ∷ username ∷ path ∷ credential ∷ []) disk =
    save_to
      (record {
        protocol = sftp;
        name = name;
        host = host;
        port = port;
        username = username;
        path = path;
        credential = credential;
      })
      disk
run_session_save (protocol ∷ name ∷ host ∷ port ∷ username ∷ path ∷ credential ∷ []) disk =
    elim (from_str protocol) [
      | err _ ↦ (disk, exits (codes "session-save failed: invalid protocol") 2)
      | ok named ↦
          save_to
            (record {
              protocol = named;
              name = name;
              host = host;
              port = port;
              username = username;
              path = path;
              credential = credential;
            })
            disk
    ]
run_session_save _ disk = (disk, usage)

abbrev told_removed : Text → Result ConfigError Bool → Outcome
unfolding failed
told_removed name (ok true) = prints ((codes "deleted\t" ++ name) ∷ [])
told_removed name (ok false) = prints ((codes "missing\t" ++ name) ∷ [])
told_removed name (err e) = failed (codes "session-delete") e

-- The argument behind the path of the file.
unfoldable pub run_session_delete : List Text → Disk → Disk × Outcome
unfolding open_store File.remove told_removed failed
run_session_delete (name ∷ []) disk = elim (open_store disk) [
  | err e ↦ (disk, failed (codes "session-delete") e)
  | ok store ↦
      let removed = File.remove store disk name in (removed.disk, told_removed name removed.result)
]
run_session_delete _ disk = (disk, usage)

abbrev decision_line : MaskDecision → Text
decision_line included = codes "included"
decision_line excluded = codes "excluded"

unfoldable pub run_mask_check : List Text → Outcome
unfolding include exclude decide
run_mask_check (included_mask ∷ excluded_mask ∷ path ∷ []) =
    prints
      (decision_line (decide (exclude (include Masks.new included_mask) excluded_mask) path) ∷ [])
run_mask_check _ = usage

abbrev bool_text : Bool → Text
bool_text false = codes "false"
bool_text true = codes "true"

-- The lines on a protocol.
unfoldable pub capability_lines : SessionProtocol → List Text
unfolding capabilities_for as_str display_name default_port to_string
capability_lines protocol =
    let caps = capabilities_for protocol in
    (codes "protocol\t" ++ as_str protocol)
    ∷ (codes "display_name\t" ++ display_name protocol)
    ∷ (codes "default_port\t"
        ++ to_string (elim (default_port protocol) [ some port ↦ port | none ↦ 0 ]))
    ∷ (codes "can_list\t" ++ bool_text caps.can_list)
    ∷ (codes "can_upload\t" ++ bool_text caps.can_upload)
    ∷ (codes "can_download\t" ++ bool_text caps.can_download)
    ∷ (codes "can_delete\t" ++ bool_text caps.can_delete)
    ∷ (codes "can_mkdir\t" ++ bool_text caps.can_mkdir)
    ∷ (codes "can_rename\t" ++ bool_text caps.can_rename)
    ∷ (codes "can_recursive_transfer\t" ++ bool_text caps.can_recursive_transfer)
    ∷ (codes "uses_object_prefixes\t" ++ bool_text caps.uses_object_prefixes)
    ∷ (codes "supports_tls_policy\t" ++ bool_text caps.supports_tls_policy)
    ∷ (codes "supports_http_version_policy\t" ++ bool_text caps.supports_http_version_policy)
    ∷ []

unfoldable pub run_remote_capabilities : List Text → Outcome
unfolding parse_remote_args remote_protocol capability_lines
run_remote_capabilities args = elim (parse_remote_args args) [
  | err message ↦ exits message 2
  | ok parsed ↦ elim (remote_protocol parsed) [
    | err message ↦ exits message 2
    | ok protocol ↦ prints (capability_lines protocol)
  ]
]

unfoldable pub print_local_profile : Option Text → Outcome
unfolding local_profile
print_local_profile name =
    let profile = local_profile (elim name [ some given ↦ given | none ↦ codes "local" ]) in
    prints ((codes "local profile: " ++ profile.name) ∷ [])
