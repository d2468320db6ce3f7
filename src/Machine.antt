-- ===== src/Machine.antt =====
-- What the SSH adapters use of the machine that they run on and of the ssh2 crate, as an interface:
-- each call answers with its value or with an error, and leaves another state.
pub mod Call
pub mod Names
pub mod Network
use cross_scp.Base.{ℕ, List, Option, Bool}
use cross_scp.Base.Result.{Result}
use cross_scp.Base.Text.{Text}

-- `std::io::Error`: whether its kind is `NotFound`, and its text.
pub record IoError : Type 0 where
  pub not_found : Bool
  pub message : Text

-- `ssh2::Error`: the status of the SFTP server, if it is an error of the SFTP protocol, and its text.
pub record Ssh2Error : Type 0 where
  pub sftp_code : Option ℕ
  pub message : Text

-- `std::fs::Metadata`
pub record Metadata : Type 0 where
  pub len : ℕ
  pub is_dir : Bool
  pub is_file : Bool

-- `ssh2::FileStat`
pub record FileStat : Type 0 where
  pub size : Option ℕ
  pub perm : Option ℕ

-- `std::fs::DirEntry`
pub record DirEntry : Type 0 where
  pub path : Text
  pub file_name : Text

-- The flags of `open_mode` beside `WRITE | CREATE`.
pub data OpenFlag : Type 0 where
  exclusive truncate : OpenFlag

-- `std::path` on the platform; a path is its text.
pub record Paths : Type 0 where
  pub file_name : Text → Option Text
  pub file_stem : Text → Option Text
  pub extension : Text → Option Text
  pub parent : Text → Option Text
  pub join : Text → Text → Text

-- An open file is an `H`, be it local or remote.
pub record Machine (W H : Type 0) : Type 0 where
  pub paths : Paths
  pub metadata : Text → W → W × Result IoError Metadata
  pub symlink_metadata : Text → W → W × Result IoError Metadata
  pub read_dir : Text → W → W × Result IoError (List (Result IoError DirEntry))
  pub create_dir_all : Text → W → W × Result IoError (Unit {0})
  pub remove_dir_all : Text → W → W × Result IoError (Unit {0})
  pub remove_file : Text → W → W × Result IoError (Unit {0})
  pub open_file : Text → W → W × Result IoError H
  pub create_file : Text → W → W × Result IoError H
  pub read : H → (buffer_size : ℕ) → W → W × Result IoError (List ℕ)
  pub write_all : H → List ℕ → W → W × Result IoError (Unit {0})
  -- `std::io::copy`
  pub copy : (reader writer : H) → W → W × Result IoError ℕ
  pub flush : H → W → W × Result IoError (Unit {0})
  -- `Instant::now`, in milliseconds.
  pub now : W → W × ℕ
  -- The closure of the caller that is told of the progress.
  pub report : ℕ → Option ℕ → W → W

-- The calls of a `ssh2::Sftp`.
pub record Sftp (W H : Type 0) : Type 0 where
  pub realpath : Text → W → W × Result Ssh2Error Text
  pub stat : Text → W → W × Result Ssh2Error FileStat
  pub readdir : Text → W → W × Result Ssh2Error (List (Text × FileStat))
  pub mkdir : Text → ℕ → W → W × Result Ssh2Error (Unit {0})
  pub rmdir : Text → W → W × Result Ssh2Error (Unit {0})
  pub unlink : Text → W → W × Result Ssh2Error (Unit {0})
  pub open_read : Text → W → W × Result Ssh2Error H
  pub create : Text → W → W × Result Ssh2Error H
  pub open_mode : Text → OpenFlag → ℕ → W → W × Result Ssh2Error H
