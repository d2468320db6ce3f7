-- ===== src/Cli/Dial.antt =====
-- How the command line connects over SSH.
use cross_scp.Base.{Option}
use cross_scp.Base.Text.{Text}
use cross_scp.Machine.{Machine}
use cross_scp.Machine.Network.{Network}
use cross_scp.Machine.Call.{Call, ◌>>=◌, return, from_result}
use cross_scp.Scp.{ScpError}
use cross_scp.Scp.Adapter.{ScpAdapter}
use cross_scp.Scp.Adapter
use cross_scp.Sftp.Errors.{SftpError}
use cross_scp.Sftp.Settings.{SftpConnectionConfig}
use cross_scp.Ssh2.Session.{Ssh2Backend}
use cross_scp.Ssh2.Session
use cross_scp.Cli.Connect.{prepare_sftp, prepare_scp, sftp_timeout}

module _ {W H S T : Type 0} (var : Text → Option Text) (machine : Machine W H)
    (network : Network W H S T) where
  -- The adapter is its settings and the backend behind it.
  unfoldable pub connect_sftp :
      (host port username : Text) → Call W SftpError (SftpConnectionConfig × Ssh2Backend S)
  unfolding prepare_sftp sftp_timeout Session.connect
  connect_sftp host port username = do
    prepared ← from_result (prepare_sftp var host port username)
    ssh2 ←
        Session.connect machine network prepared.0
          (Session.with_timeout (sftp_timeout var) (Session.new prepared.1))
    return (prepared.0, ssh2)

  unfoldable pub connect_scp : (host port username : Text) → Call W ScpError (ScpAdapter S)
  unfolding prepare_scp sftp_timeout Adapter.connect
  connect_scp host port username = do
    prepared ← from_result (prepare_scp var host port username)
    Adapter.connect network
        (Adapter.with_timeout (sftp_timeout var) (Adapter.new prepared.0 prepared.1))
