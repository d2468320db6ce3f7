-- ===== src/Ssh2/Examples.antt =====
-- Runs against a small server and a small machine.
use cross_scp.Base.{
  ℕ, ◌≤◌, ◌≡◌, ◌≢◌, inl, inr, refl, sym, arith, List, [], ◌∷◌, ◌++◌, Option, none, some, Bool, true,
  false, leb, if◌then◌else◌, is_empty, map, length, All, take, drop, Bool-cases,
}
use mathlib.Core.Path.{subst}
use cross_scp.Base.Result.{Result, ok, err}
use cross_scp.Base.Text.{Text, codes, text_eq, text_eq_iff, trim_end_matches}
use cross_scp.Protocol.{keep_existing, replace_existing, numbered_conflict_path}
use cross_scp.Security.{password}
use cross_scp.Machine.{IoError, Ssh2Error, FileStat, Paths, Machine, Sftp, exclusive, truncate}
use cross_scp.Machine.Network.{Network}
use cross_scp.Machine.Call.{out_of_fuel}
use cross_scp.Sftp.Settings.{SftpConnectionConfig}
use cross_scp.Ssh2.Paths.{entry_name}
use cross_scp.Ssh2.Delete.{IsBelow, IsConfined, delete-Keeps}
use cross_scp.Ssh2.DeleteEnds.{IsName, IsBounded, delete-Ends}
use cross_scp.Ssh2.Free.{IsAnswered, WasMissing, IsGentle, next_available-finds, create-Keeps}
use cross_scp.Ssh2.Copy.{copy_with_progress}
use cross_scp.Ssh2.Copied.{View, IsFaithful, Ascends, last_from, copy-IsCopied}
use cross_scp.Ssh2.Remote.{delete_remote_path_recursive, next_available_remote_path}
use cross_scp.Ssh2.Upload.{create_remote_file_for_policy}
use cross_scp.Ssh2.Session.{Ssh2Backend, connect, is_connected}
use cross_scp.Ssh2.Connect.{IsAuthenticated, connect-IsAuthenticated}

-- Every path is a name.
abbrev plain_paths : Paths
plain_paths = record {
  file_name = λ p. some p;
  file_stem = λ p. none;
  extension = λ p. none;
  parent = λ p. none;
  join = λ p q. q;
}

abbrev missing : Ssh2Error
missing = record { sftp_code = some 2; message = codes "no such file" }

abbrev plain_stat : FileStat
plain_stat = record { size = some 1; perm = none }

abbrev precious : Text
precious = codes "/keep"

-- What a removal leaves of `/keep`, which is there or not.
abbrev spared : Text → Bool → Bool
spared path kept = if text_eq path precious then false else kept

-- A server of files whose paths have at most ten characters.
abbrev little : Sftp Bool (Unit {0})
little = record {
  realpath = λ p w. (w, ok p);
  stat = λ p w. (w, (if leb (length p) 10 then ok plain_stat else err missing));
  readdir = λ p w. (w, ok []);
  mkdir = λ p m w. (w, ok tt);
  rmdir = λ p w. (spared p w, ok tt);
  unlink = λ p w. (spared p w, ok tt);
  open_read = λ p w. (w, ok tt);
  create = λ p w. (w, ok tt);
  open_mode = λ p flag m w. elim flag [ exclusive ↦ (w, ok tt) | truncate ↦ (false, ok tt) ];
}

below-spared :
    (path : Text) (w : Bool) → IsBelow (codes "/tmp/") path → w ≡ true → spared path w ≡ true
unfolding trim_end_matches text_eq
below-spared path w (inl e) k = subst (λ p. spared p w ≡ true) (sym e) k
below-spared path w (inr (rest, e)) k = subst (λ p. spared p w ≡ true) (sym e) k

little-IsConfined : IsConfined plain_paths little (λ w. w ≡ true) (codes "/tmp/")
little-IsConfined = record {
  stat-keeps = λ p w k. k;
  readdir-keeps = λ p w k. k;
  unlink-keeps = λ p w b k. below-spared p w b k;
  rmdir-keeps = λ p w b k. below-spared p w b k;
}

delete-Keeps_example :
    (delete_remote_path_recursive plain_paths little 3 (codes "/tmp/") true).0 ≡ true
delete-Keeps_example =
    delete-Keeps plain_paths little (λ w. w ≡ true) 3 (codes "/tmp/") true little-IsConfined refl

nil_of :
    {entries : List (Text × FileStat)}
    → ◌≡◌ {A = Result Ssh2Error (List (Text × FileStat))} (ok []) (ok entries)
    → [] ≡ entries
nil_of h = cc

little-IsBounded : IsBounded plain_paths little 10
little-IsBounded = record {
  readdir-names =
      λ p w h. subst (All (λ e. IsName (entry_name plain_paths.file_name e.0))) (nil_of h) tt;
  stat-bound = λ p w h. ground arith;
}

delete-Ends_example :
    (delete_remote_path_recursive plain_paths little 12 (codes "/tmp/") true).1 ≢ err out_of_fuel
delete-Ends_example = delete-Ends plain_paths little 10 (codes "/tmp/") true little-IsBounded

abbrev taken : Text
taken = codes "/a (1)"

-- A server on which one path is taken.
abbrev crowded : Sftp Bool (Unit {0})
crowded = record little {
  stat = λ p w. (w, (if text_eq p taken then ok plain_stat else err missing));
}

crowded-IsAnswered : IsAnswered plain_paths crowded (taken ∷ [])
crowded-IsAnswered path w = elim (Bool-cases (text_eq path taken)) [
  | inl e ↦ inl (plain_stat, rw e refl, inl ((text_eq_iff path taken).0 e))
  | inr e ↦ inr (missing, rw e refl, refl)
]

next_available-finds_example :
    (m : ℕ) × (1 ≤ m)
    × (m ≤ 2)
    × ((next_available_remote_path plain_paths crowded (codes "/a") true true).1
        ≡ ok (numbered_conflict_path (codes "/a") m true))
    × WasMissing plain_paths crowded
        (numbered_conflict_path (codes "/a") m true)
        (next_available_remote_path plain_paths crowded (codes "/a") true true).0
next_available-finds_example =
    next_available-finds plain_paths crowded (taken ∷ []) (codes "/a") true true crowded-IsAnswered
      (omega arith)

-- Where a copy stands.
record Tape : Type 0 where
  source : List ℕ
  written : List ℕ
  log : List (ℕ × Option ℕ)

abbrev refused : IoError
refused = record { not_found = true; message = codes "no" }

-- A machine that reads two bytes at a time, and whose clock stands.
abbrev taped : Machine Tape (Unit {0})
taped = record {
  paths = plain_paths;
  metadata = λ p w. (w, err refused);
  symlink_metadata = λ p w. (w, err refused);
  read_dir = λ p w. (w, err refused);
  create_dir_all = λ p w. (w, ok tt);
  remove_dir_all = λ p w. (w, ok tt);
  remove_file = λ p w. (w, ok tt);
  open_file = λ p w. (w, ok tt);
  create_file = λ p w. (w, ok tt);
  read = λ h n w. (record w { source = drop 2 w.source }, ok (take 2 w.source));
  write_all = λ h bytes w. (record w { written = w.written ++ bytes }, ok tt);
  copy = λ r h w. (w, err refused);
  flush = λ h w. (w, ok tt);
  now = λ w. (w, 0);
  report = λ done total w. record w { log = w.log ++ (done, total) ∷ [] };
}

abbrev tape_view : View Tape
tape_view = record { source = λ w. w.source; written = λ w. w.written; log = λ w. w.log }

halves : (s : List ℕ) → s ≡ take 2 s ++ drop 2 s
halves [] = refl
halves (a ∷ []) = refl
halves (a ∷ b ∷ s) = refl

taken_all : (s : List ℕ) → is_empty (take 2 s) ≡ true → drop 2 s ≡ []
taken_all [] h = refl
taken_all (a ∷ []) h = cc
taken_all (a ∷ b ∷ s) h = cc

taped-IsFaithful : IsFaithful taped tt tt tape_view
taped-IsFaithful = record {
  reads = λ w. (_, _, refl, halves w.source, λ h. taken_all w.source h, refl, refl);
  writes = λ w bytes. (_, refl, refl, refl, refl);
  flushes = λ w. (_, refl, (refl, refl, refl));
  ticks = λ w. (_, _, refl, (refl, refl, refl));
  reports = λ w done total. (refl, refl, refl);
}

abbrev three : Tape
three = record { source = 7 ∷ 8 ∷ 9 ∷ []; written = []; log = [] }

copy-IsCopied_example :
    (v : Tape) × (marks : List ℕ) × (copy_with_progress taped tt tt (λ n. (n, some 3)) 5 three
      ≡ (v, ok 3))
    × (v.written ≡ 7 ∷ 8 ∷ 9 ∷ [])
    × (v.log ≡ map (λ n. (n, some 3)) (0 ∷ marks))
    × Ascends 0 marks
    × (last_from 0 marks ≡ 3)
copy-IsCopied_example =
    copy-IsCopied taped tt tt tape_view taped-IsFaithful (λ n. (n, some 3)) 5 three (omega arith)
      (omega arith)

-- The same machine beside the little server.
abbrev taped_files : Machine Bool (Unit {0})
taped_files = record {
  paths = plain_paths;
  metadata = λ p w. (w, err refused);
  symlink_metadata = λ p w. (w, err refused);
  read_dir = λ p w. (w, err refused);
  create_dir_all = λ p w. (w, ok tt);
  remove_dir_all = λ p w. (w, ok tt);
  remove_file = λ p w. (w, ok tt);
  open_file = λ p w. (w, ok tt);
  create_file = λ p w. (w, ok tt);
  read = λ h n w. (w, ok []);
  write_all = λ h bytes w. (w, ok tt);
  copy = λ r h w. (w, err refused);
  flush = λ h w. (w, ok tt);
  now = λ w. (w, 0);
  report = λ done total w. w;
}

gentle : IsGentle taped_files little (λ w. w ≡ true)
gentle = record { stat-keeps = λ p w k. k; exclusive-keeps = λ p m w k. k }

differs : keep_existing ≢ replace_existing
differs h = cc

create-Keeps_example :
    (create_remote_file_for_policy taped_files little precious keep_existing true).0 ≡ true
create-Keeps_example =
    create-Keeps taped_files little (λ w. w ≡ true) precious keep_existing true gentle differs refl

-- A network on which every login succeeds; a state says whether one has.
abbrev open_net : Network Bool (Unit {0}) (Unit {0}) (Unit {0})
open_net = record {
  to_socket_addrs = λ h p w. (w, ok (h ∷ []));
  connect_timeout = λ a t w. (w, ok tt);
  set_read_timeout = λ t n w. (w, ok tt);
  set_write_timeout = λ t n w. (w, ok tt);
  new_session = λ w. (w, ok tt);
  set_tcp_stream = λ s t w. w;
  handshake = λ s w. (w, ok tt);
  userauth_password = λ s u p w. (true, ok tt);
  userauth_pubkey_file = λ s u p q w. (w, err missing);
  authenticated = λ s w. w;
  disconnect = λ s m w. (w, ok tt);
  sftp = λ s w. (w, ok little);
}

abbrev site : SftpConnectionConfig
site = record {
  host = codes "h";
  port = 22;
  username = some (codes "u");
  initial_remote_path = none;
  credential_ref = none;
}

abbrev closed : Ssh2Backend (Unit {0})
closed = record {
  auth = record { username = none; secret = password (record { expose = codes "p" }) };
  timeout = 10000;
  session = none;
}

connect-IsAuthenticated_example :
    (session : Unit {0}) × ◌≡◌ {A = Ssh2Backend (Unit {0})}
      (record closed { session = some tt })
      (record closed { session = some session })
    × IsAuthenticated taped_files open_net closed site session true
    × (is_connected taped_files open_net (record closed { session = some tt }) true ≡ true)
unfolding connect
connect-IsAuthenticated_example =
    connect-IsAuthenticated taped_files open_net site closed false refl
