-- ===== src/Cli/Examples.antt =====
-- Commands of main.rs on concrete arguments.
use cross_scp.Base.{◌≡◌, refl, List, [], ◌∷◌, none, true}
use cross_scp.Base.Result.{ok}
use cross_scp.Base.Text.{Text, codes}
use cross_scp.Session.{SessionProtocol, ftp, sftp}
use cross_scp.Base.Order.{text_order}
use cross_scp.Base.OrdMap
use cross_scp.Config.File.{Disk}
use cross_scp.Cli.Sessions.{SaveArgs}
use cross_scp.Cli.Remote.{RemoteAction, run_ftp_list, run_remote_list}
use cross_scp.Cli.Capable.{remote_list, Names, IsAble, run_remote-IsAble}

abbrev list_args : List Text
list_args =
    codes "--protocol"
    ∷ codes "ftp"
    ∷ codes "--host"
    ∷ codes "h"
    ∷ codes "--username"
    ∷ codes "u"
    ∷ []

abbrev listing : RemoteAction
listing = run_ftp_list ftp (codes "h") (codes "21") (codes "u") (codes "/")

list_args-run : run_remote_list list_args ≡ ok listing
unfolding run_remote_list
list_args-run = refl

run_remote-IsAble_example :
    (protocol : SessionProtocol) × Names list_args protocol × IsAble protocol listing
run_remote-IsAble_example = run_remote-IsAble remote_list list_args list_args-run

abbrev site_args : SaveArgs
site_args = record {
  protocol = sftp;
  name = codes "site";
  host = codes "h";
  port = codes "2222";
  username = codes "u";
  path = codes " ";
  credential = codes "env://K";
}

-- No file yet, and a directory that can be written.
abbrev empty_disk : Disk
empty_disk = record {
  content = none;
  has_parent = true;
  read_error = none;
  create_dir_error = none;
  write_error = none;
  torn = none;
}
