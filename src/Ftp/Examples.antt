-- ===== src/Ftp/Examples.antt =====
-- Runs of the adapter against a small server: a list of names in one directory.
use cross_scp.Base.{
  ℕ, zero, suc, ap, ◌≡◌, ◌↔◌, ◌⊎◌, inr, refl, List, [], ◌∷◌, none, some, true, false, arith,
  is_empty, any, All,
}
use cross_scp.Base.Result.{ok, err}
use cross_scp.Base.Text.{Text, codes, trim, is_control, is_whitespace}
use cross_scp.Base.Paths
use cross_scp.Base.Decimal.{to_string}
use cross_scp.Session.{SessionProfile, ftp, ftps}
use cross_scp.Security.{CredentialRef, password}
use cross_scp.Protocol.{RemoteFile, keep_both, numbered_conflict_path}
use cross_scp.Ftp.{
  FtpConnectionConfig, FtpAuthMaterial, invalid_remote_path, from_profile, resolve_ftp_credentials,
  join_remote_path, split_remote_parent,
}
use cross_scp.Ftp.Adapter.{
  ListedFile, Server, FtpAdapter, with_session, list_directory, create_directory, delete_path,
  rename, remote_entry, next_available_remote_path, resolve_upload_conflict_destination,
}
use cross_scp.Ftp.Config.{RefIsValid, from_profile_iff, Grants, resolve_ftp_credentials_iff}
use cross_scp.Ftp.Paths.{directory_of, split-join_remote}
use cross_scp.Ftp.Listing.{IsChild, list_directory-IsChild, control_is_refused}
use cross_scp.Ftp.Recursive.{ended, then_next, remove_entries, delete_path_recursive}
use cross_scp.Ftp.Recursive.Below.{IsBelow, IsTight}
use cross_scp.Ftp.Recursive.Reach.{OfSession, IsConfined, delete_path_recursive-keeps}

abbrev plain_file : Text → ListedFile
plain_file name = record { name = name; size = 7; is_directory = false; is_symlink = false }

-- Every line is the name of a file; nothing can be changed.
abbrev names : Server (List Text)
names = record {
  connect = λ a. ok [];
  new_tls_connector = ok tt;
  connect_secure = λ a. ok [];
  into_secure = λ h s. ok s;
  login = λ u p s. (s, ok tt);
  quit = λ s. ok tt;
  list = λ p s. (s, ok s);
  list_fallback = λ p s. (s, ok s);
  mkdir = λ p s. (s, err (codes "550"));
  rm = λ p s. (s, err (codes "550"));
  rmdir = λ p s. (s, err (codes "550"));
  rename = λ p q s. (s, err (codes "550"));
  from_mlsx_line = λ line. ok (plain_file line);
  from_str = λ line. ok (plain_file line);
}

abbrev site : SessionProfile
site = record {
  name = codes "site";
  protocol = ftps;
  host = codes "h";
  port = none;
  username = some (codes "u");
  initial_remote_path = none;
  credential_ref = some (codes "k");
}

abbrev key : CredentialRef
key = record { as_str = codes "k" }

abbrev config : FtpConnectionConfig
config = record {
  protocol = ftp;
  host = codes "h";
  port = 21;
  username = some (codes "u");
  passive_mode = true;
  ftps_mode = none;
  initial_remote_path = none;
  credential_ref = some key;
}

abbrev auth : FtpAuthMaterial
auth = record { username = codes "u"; password = codes "p" }

abbrev adapter : FtpAdapter (List Text)
adapter = record { config = config; auth = auth; session = some (codes "a" ∷ codes "." ∷ []) }

free_name :
    next_available_remote_path names (codes "/a") false adapter ≡ (adapter, ok (codes "/a (1)"))
unfolding next_available_remote_path to_string remote_entry numbered_conflict_path
free_name = refl

listing : (l : List RemoteFile) × (list_directory names (codes "/") adapter ≡ (adapter, ok l))
unfolding list_directory
listing = (_, refl)

from_profile_iff_example : ((c : FtpConnectionConfig) × (from_profile site ≡ ok c)) ↔ (
    ((ftps ≡ ftp) ⊎ (ftps ≡ ftps))
    × (is_empty (trim (codes "h")) ≡ false)
    × RefIsValid (some (codes "k")))
from_profile_iff_example = from_profile_iff site

resolve_ftp_credentials_iff_example :
    (resolve_ftp_credentials config (λ r. ok (some (password (record { expose = codes "p" }))))
      ≡ ok auth)
    ↔ Grants config (λ r. ok (some (password (record { expose = codes "p" })))) auth
resolve_ftp_credentials_iff_example =
    resolve_ftp_credentials_iff config (λ r. ok (some (password (record { expose = codes "p" }))))
      auth

joined_plain :
    trim (join_remote_path (codes " /up ") (b'a' ∷ codes "b"))
    ≡ join_remote_path (codes " /up ") (b'a' ∷ codes "b")
unfolding join_remote_path
joined_plain = refl

up_open : Paths.ends_with (directory_of (codes " /up ")) b'/' ≡ false
unfolding Paths.ends_with trim
up_open = refl

split-join_remote_example :
    split_remote_parent (join_remote_path (codes " /up ") (b'a' ∷ codes "b"))
    ≡ (directory_of (codes " /up "), b'a' ∷ codes "b")
split-join_remote_example =
    split-join_remote (codes " /up ") (codes "b") b'a' (omega arith, (omega arith, tt))
      (inr up_open) joined_plain

list_directory-IsChild_example : All (IsChild (codes "/")) listing.0
list_directory-IsChild_example =
    list_directory-IsChild names (codes "/") adapter {after = adapter} {entries = listing.0}
      listing.1

break_is_control : any is_control (codes "a\r\nDELE b") ≡ true
unfolding any is_control
break_is_control = refl

control_is_refused_example :
    let path = codes "a\r\nDELE b" in
    (list_directory names path adapter ≡ (adapter, err (invalid_remote_path path)))
    × (create_directory names path adapter ≡ (adapter, err (invalid_remote_path path)))
    × (delete_path names path adapter ≡ (adapter, err (invalid_remote_path path)))
    × (delete_path_recursive names 5 path adapter
        ≡ (adapter, some (err (invalid_remote_path path))))
    × (remote_entry names path adapter ≡ (adapter, err (invalid_remote_path path)))
    × (resolve_upload_conflict_destination names path false keep_both adapter
        ≡ (adapter, err (invalid_remote_path path)))
    × (rename names path (codes "c") adapter ≡ (adapter, err (invalid_remote_path path)))
    × (any is_control (codes "c") ≡ false
        → rename names (codes "c") path adapter ≡ (adapter, err (invalid_remote_path path)))
control_is_refused_example =
    control_is_refused names (codes "a\r\nDELE b") (codes "c") false keep_both 4 adapter
      break_is_control

-- Every directory holds one file; what is removed is written down.
abbrev recorder : Server (List Text)
recorder = record names {
  list = λ p s. (s, ok (codes "a" ∷ []));
  rm = λ p s. (p ∷ s, ok tt);
  rmdir = λ p s. (p ∷ s, ok tt);
}

abbrev recording : FtpAdapter (List Text)
recording = record adapter { session = some [] }

removes_file_first :
    delete_path_recursive recorder 1 (codes "/d") recording
    ≡ (record adapter { session = some (codes "/d" ∷ codes "/d/a" ∷ []) }, some (ok tt))
unfolding delete_path_recursive
removes_file_first = refl

-- Every directory holds one with a blank name.
abbrev blanks : Server (List Text)
blanks = record names {
  from_mlsx_line =
      λ line. ok (record { name = line; size = 0; is_directory = true; is_symlink = false });
}

abbrev in_blanks : FtpAdapter (List Text)
in_blanks = record adapter { session = some (codes " " ∷ []) }

-- The directory is an entry of its own listing: the recursion goes on without end.
blank_directory_never_ends :
    (fuel : ℕ) → delete_path_recursive blanks fuel (codes "/a/ ") in_blanks ≡ (in_blanks, none)
unfolding delete_path_recursive
blank_directory_never_ends zero = refl
blank_directory_never_ends (suc fuel) =
    let again = delete_path_recursive blanks fuel in
    ap
      (λ r.
        then_next (then_next r (remove_entries blanks again []))
          (λ after. ended (with_session (blanks.rmdir (codes "/a/ ")) after)))
      (blank_directory_never_ends fuel)

abbrev AllBelow : List Text → Type 0
AllBelow = All (IsBelow (codes "/d"))

recorder-IsConfined : IsConfined recorder AllBelow (codes "/d")
recorder-IsConfined = record {
  list-keeps = λ path s p. p;
  fallback-keeps = λ path s p. p;
  rm-keeps = λ path s reached p. (reached, p);
  rmdir-keeps = λ path s reached p. (reached, p);
}

d-IsTight : IsTight (codes "/d")
unfolding is_whitespace
d-IsTight = record {
  first = b'/';
  behind = codes "d";
  begins = refl;
  first_shows = refl;
  before = codes "/";
  last = b'd';
  ends = refl;
  last_shows = refl;
}

delete_path_recursive-keeps_example :
    OfSession recorder AllBelow (delete_path_recursive recorder 1 (codes "/d") recording).0.session
delete_path_recursive-keeps_example =
    delete_path_recursive-keeps recorder AllBelow (codes "/d") 1 recording d-IsTight
      recorder-IsConfined tt
