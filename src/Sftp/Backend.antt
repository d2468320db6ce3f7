-- ===== src/Sftp/Backend.antt =====
-- The interface of a backend, the adapter over any backend, and the backend that is not linked.
use cross_scp.Base.{
  ℕ, zero, suc, ◌+◌, ◌/◌, ◌%◌, List, [], ◌∷◌, Option, none, some, Bool, false, if◌then◌else◌, ◌==◌,
}
use cross_scp.Base.Result.{Result, ok, err}
use cross_scp.Base.Text.{Text}
use cross_scp.Protocol.{RemoteFile}
use cross_scp.Sftp.Errors.{SftpError, backend_not_linked}
use cross_scp.Sftp.Settings.{SftpConnectionConfig}

pub record SftpRemoteFile : Type 0 where
  pub name : Text
  pub path : Text
  pub size : Option ℕ
  pub is_directory : Bool
  pub is_symlink : Bool
  pub permissions : Option ℕ

-- The digits of `{:o}` before those that are written; eleven are enough for a `u32`.
unfoldable pub octal_digits : ℕ → ℕ → Text → Text
octal_digits zero n out = out
octal_digits (suc fuel) n out =
    let rest = octal_digits fuel (n / 8) ((b'0' + n % 8) ∷ out) in
    if n / 8 == 0 then (b'0' + n % 8) ∷ out else rest

unfoldable pub into_remote_file : SftpRemoteFile → RemoteFile
unfolding octal_digits
into_remote_file file = record {
  path = file.path;
  name = file.name;
  size = file.size;
  is_directory = file.is_directory;
  is_symlink = file.is_symlink;
  permissions = elim file.permissions [
    | none ↦ none
    | some permissions ↦ some (octal_digits 11 permissions [])
  ];
}

pub record SftpFileProgress : Type 0 where
  pub source : Text
  pub destination : Text
  pub bytes_done : ℕ
  pub bytes_total : Option ℕ

-- The methods of a backend whose state is a `B`.
pub record SftpBackend (B : Type 0) : Type 0 where
  pub connect : SftpConnectionConfig → B → B × Result SftpError (Unit {0})
  pub disconnect : B → B × Result SftpError (Unit {0})
  pub is_connected : B → Bool
  pub list_directory : Text → B → B × Result SftpError (List SftpRemoteFile)
  pub upload_file : (local_path remote_path : Text) → B → B × Result SftpError SftpFileProgress
  pub download_file : (remote_path local_path : Text) → B → B × Result SftpError SftpFileProgress
  pub create_directory : Text → B → B × Result SftpError (Unit {0})
  pub delete_path : Text → B → B × Result SftpError (Unit {0})

pub record SftpAdapter (B : Type 0) : Type 0 where
  pub config : SftpConnectionConfig
  pub backend : B

-- A method of the backend, called by the adapter that owns it.
abbrev pub delegated :
    {B A : Type 0}
    → (B → B × Result SftpError A)
    → SftpAdapter B
    → SftpAdapter B × Result SftpError A
delegated call adapter =
    let (backend, result) = call adapter.backend in (record adapter { backend = backend }, result)

module _ {B : Type 0} (methods : SftpBackend B) where
  unfoldable pub connect : SftpAdapter B → SftpAdapter B × Result SftpError (Unit {0})
  connect adapter = delegated (methods.connect adapter.config) adapter

  unfoldable pub disconnect : SftpAdapter B → SftpAdapter B × Result SftpError (Unit {0})
  disconnect adapter = delegated methods.disconnect adapter

  unfoldable pub list_directory :
      Text → SftpAdapter B → SftpAdapter B × Result SftpError (List SftpRemoteFile)
  list_directory path adapter = delegated (methods.list_directory path) adapter

  unfoldable pub upload_file :
      (local_path remote_path : Text)
      → SftpAdapter B
      → SftpAdapter B × Result SftpError SftpFileProgress
  upload_file local_path remote_path adapter =
      delegated (methods.upload_file local_path remote_path) adapter

  unfoldable pub download_file :
      (remote_path local_path : Text)
      → SftpAdapter B
      → SftpAdapter B × Result SftpError SftpFileProgress
  download_file remote_path local_path adapter =
      delegated (methods.download_file remote_path local_path) adapter

  unfoldable pub create_directory :
      Text → SftpAdapter B → SftpAdapter B × Result SftpError (Unit {0})
  create_directory remote_path adapter = delegated (methods.create_directory remote_path) adapter

  unfoldable pub delete_path : Text → SftpAdapter B → SftpAdapter B × Result SftpError (Unit {0})
  delete_path remote_path adapter = delegated (methods.delete_path remote_path) adapter

  unfoldable pub is_connected : SftpAdapter B → Bool
  is_connected adapter = methods.is_connected adapter.backend

-- `BackendNotLinked`
abbrev pub not_linked : SftpBackend (Unit {0})
not_linked = record {
  connect = λ config backend. (backend, err backend_not_linked);
  disconnect = λ backend. (backend, ok tt);
  is_connected = λ backend. false;
  list_directory = λ path backend. (backend, err backend_not_linked);
  upload_file = λ local_path remote_path backend. (backend, err backend_not_linked);
  download_file = λ remote_path local_path backend. (backend, err backend_not_linked);
  create_directory = λ remote_path backend. (backend, err backend_not_linked);
  delete_path = λ remote_path backend. (backend, err backend_not_linked);
}
