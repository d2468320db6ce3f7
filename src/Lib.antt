-- ===== src/Lib.antt =====
-- CrossSCP: a verification library for the core of the file transfer client.
--
-- The program. The crates under crates/ are the core that its command line and its window share.
-- crates/crossscp-core holds the session profiles, the file masks, the prompts and the model of a
-- remote file system; crates/crossscp-config keeps profiles in memory and in a file;
-- crates/crossscp-security keeps secrets behind references; crates/crossscp-transfer keeps the
-- queue of jobs and decides about destinations that exist; the crates named crossscp-protocol-*
-- are the adapters that carry transfers out, with credentials from the security crate and profiles
-- from the core.
--
-- The files.
--   Base: `Result` with `?` as its bind, texts, the methods of `str` that the crates call, decimals,
--     paths, and `BTreeMap` as a list sorted by key.
--   Masks: crates/crossscp-core/src/masks.rs. `wildcard_match` is `step` repeated on a `Cursor`,
--     `MaskSet` a record. Masks/Matches.antt says what it means to match, with no search in it.
--   Session: crates/crossscp-core/src/session.rs, the protocols and the profile.
--   Prompts: crates/crossscp-core/src/prompts.rs. A broker is a function to answers.
--   Protocol: crates/crossscp-core/src/protocol.rs, capabilities, requests, and the numbered names
--     of `numbered_conflict_path`.
--   Config: crates/crossscp-config/src/lib.rs. Config/Fields.antt has the escapes, Config/Lines.antt
--     the line format, Config/Store.antt the store in memory, Config/File.antt the file behind it.
--   Security: crates/crossscp-security/src/lib.rs, references, secrets, the vault, the service.
--   Transfer: crates/crossscp-transfer/src/lib.rs, the queue and `decide_overwrite`.
--   Local: crates/crossscp-protocol-local/src/lib.rs. Local/Queue.antt executes the next job of the
--     queue, with the queue of Transfer and the broker of Prompts.
--   Ftp: crates/crossscp-protocol-ftp/src/lib.rs. Ftp/Adapter.antt has the methods of `FtpAdapter`,
--     Ftp/Recursive.antt the recursive deletion.
--   Machine: what the SSH adapters call of the operating system and of the ssh2 crate, as records of
--     functions, and `Call`, a method on their state that may fail. Machine/Names.antt is
--     `numbered_local_conflict_path` of crates/crossscp-core/src/protocol.rs.
--   Sftp: crates/crossscp-protocol-sftp/src/lib.rs: settings, the stores of known hosts, the decision
--     about a host key with the broker of Prompts, and the adapter over a backend.
--   Ssh2: crates/crossscp-protocol-sftp/src/ssh2_backend.rs. Ssh2/Remote.antt makes and removes what is
--     on the server, Ssh2/Upload.antt and Ssh2/Progress.antt send, Ssh2/Download.antt fetches,
--     Ssh2/Session.antt has the methods of `Ssh2Backend`.
--   Scp: crates/crossscp-protocol-scp/src/lib.rs. Scp/Adapter.antt has the session, Scp/Transfer.antt
--     the transfers.
--   Cli: crates/crossscp-cli/src/main.rs. Cli/Remote.antt says what a remote command runs,
--     Cli/Connect.antt and Cli/Dial.antt connect, Cli/Sessions.antt has the commands on sessions.
--
-- The model. A text is the list of its Unicode scalar values; masks work on its UTF-8 bytes, as the
-- code does. A method with `&mut self` takes the state and returns the new one with its result; a
-- fallible function returns a `Result` with the errors of its crate. The counter `next_id` is a
-- `u64` and wraps around, as do the counts of bytes of Ssh2 and Scp; a port is read below 2 ^ 16, a
-- `SystemTime` is its number of ticks, a duration its number of milliseconds or seconds. Other sizes
-- and sums are natural numbers without a bound. The matching loop runs on fuel, (text length
-- + 1) * (pattern length + 1) rounds: a retry of a star moves the remembered text position on, and
-- every other round moves on in the pattern or in both. The loops over copy numbers have
-- their own bound, `u32::MAX`. The loops and recursions of Ssh2, Scp and Ftp/Recursive.antt whose
-- end is up to the server or the file system take fuel, and stop with `out_of_fuel`, over FTP with no
-- result, without it: a copy takes one round for each read, a recursion into directories one for each
-- level. More rounds than there are bytes are enough for a copy, and for a deletion of Ssh2 two more
-- than the length of the longest path of the server. No number of rounds is enough for each FTP server,
-- since a path of it may be an entry of its own listing.
--
-- Parameters. What is not in the repository is a record of functions, or an argument: a `Disk` with
-- the errors of the operating system behind the profile file, `Files` for the local file system,
-- `Server` for the FTP library, the `Debug` text of a string, the variables of the environment, a
-- `Machine` with the files, the clock, the paths of the platform and the closure for the progress, and
-- `Sftp`, `Network` and `ScpChannels` for the ssh2 crate. No law is asked of them but by the theorems
-- of Ssh2 and Ftp/Recursive, in records that name them: what a look and a removal keep, that listings
-- give names, that paths have a longest length, that a reader gives its source in parts and a writer
-- appends. The entries of a directory are read before the loop over them, and an open file is not
-- closed.
--
-- Not modelled: the settings of HTTP, WebDAV and S3, the platform crates, and the window in C++ and
-- QML. Of the FTP adapter the transfer of files is left out, of the local adapter the listing of a
-- directory, of the command line what an action prints and the two local commands. The methods that
-- only pass arguments on
-- (`upload_file_with_progress`, `upload_file_to_exact_destination_with_progress`, `download_file`) are
-- the general ones with their arguments.
pub mod Base
pub mod Masks
pub mod Session
pub mod Transfer
pub mod Config
pub mod Security
pub mod Protocol
pub mod Ftp
pub mod Prompts
pub mod Local
pub mod Sftp
pub mod Machine
pub mod Ssh2
pub mod Scp
pub mod Cli
