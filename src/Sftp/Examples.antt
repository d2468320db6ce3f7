-- ===== src/Sftp/Examples.antt =====
-- Runs with a store of one known host, and the environment of a live test.
use cross_scp.Base.{◌≡◌, ◌≢◌, refl, arith, [], ◌∷◌, Option, none, some, true, All, if◌then◌else◌}
use cross_scp.Base.Result.{ok}
use cross_scp.Base.Text.{Text, codes, text_eq}
use cross_scp.Base.OrdMap
use cross_scp.Base.OrdMap.{IsSorted, values}
use cross_scp.Base.Order.{pair_order, pair_eq}
use cross_scp.Prompts.{PromptBroker, remember_accepted}
use cross_scp.Sftp.KnownHosts.{
  HostKeyRecord, KnownHosts, key, check, trust, trusted, memory_store, FileHostKeyStore, open_hosts,
  file_trust, parse_host_keys, render_host_keys,
}
use cross_scp.Sftp.KnownHosts.RoundTrip.{IsStorable, Entry, parse_host_keys-render}
use cross_scp.Sftp.KnownHosts.Memory.{IsKeyed, memory_store-IsLawful, open-file_trust}
use cross_scp.Sftp.Verify.{accept_and_remember, rejected, verify_host_key_with_store}
use cross_scp.Sftp.Verify.Safety.{IsAccepted, verify-IsAccepted}
use cross_scp.Sftp.Settings.{LiveSftpTestConfig, from_env}
use cross_scp.Sftp.Settings.Live.{IsUsable, from_env-IsUsable}

abbrev old_key : HostKeyRecord
old_key = record { host = codes "h"; port = 22; algorithm = codes "rsa"; fingerprint = codes "aa" }

abbrev new_key : HostKeyRecord
new_key = record { host = codes "h"; port = 22; algorithm = codes "ed"; fingerprint = codes "b\tb" }

abbrev hosts : KnownHosts
hosts = (key old_key, old_key) ∷ []

-- The user who remembers whatever is asked.
abbrev remembering : PromptBroker
remembering request = ok remember_accepted

hosts-IsKeyed : IsKeyed hosts
hosts-IsKeyed = (refl, tt)

remembered : accept_and_remember ≢ rejected
remembered h = cc

verify-IsAccepted_example :
    IsAccepted memory_store memory_store-IsLawful remembering new_key hosts
      ((key new_key, new_key) ∷ [])
      accept_and_remember
unfolding verify_host_key_with_store memory_store check pair_eq trust
verify-IsAccepted_example =
    verify-IsAccepted memory_store memory_store-IsLawful remembering new_key hosts hosts-IsKeyed
      refl remembered

old-IsStorable : IsStorable old_key
old-IsStorable = record {
  port_fits = omega arith;
  host_start = omega arith;
  fingerprint_end = omega arith;
}

new-IsStorable : IsStorable new_key
new-IsStorable = record {
  port_fits = omega arith;
  host_start = omega arith;
  fingerprint_end = omega arith;
}

hosts-IsSorted : IsSorted hosts
hosts-IsSorted = (tt, tt)

hosts-Entry : All Entry hosts
hosts-Entry = ((refl, old-IsStorable), tt)

parse_host_keys-render_example : parse_host_keys (render_host_keys (values hosts)) ≡ ok hosts
parse_host_keys-render_example = parse_host_keys-render hosts hosts-IsSorted hosts-Entry

abbrev home : FileHostKeyStore
home = record {
  disk = record {
    content = none;
    has_parent = true;
    read_error = none;
    create_dir_error = none;
    write_error = none;
    torn = none;
  };
  memory = hosts;
}

open-file_trust_example :
    (open_hosts (file_trust new_key home).0.disk ≡ ok (OrdMap.insert (key new_key) new_key hosts))
    × (check new_key (OrdMap.insert (key new_key) new_key hosts) ≡ ok trusted)
unfolding file_trust
open-file_trust_example =
    open-file_trust new_key home hosts-IsSorted hosts-Entry new-IsStorable refl refl

-- Host, user and reference are set, and a port.
abbrev environment : Text → Option Text
environment name =
    if text_eq name (codes "CROSSSCP_SFTP_TEST_PORT")
    then some (codes "2222")
    else if text_eq name (codes "CROSSSCP_SFTP_TEST_TIMEOUT_SECS")
    then none
    else some (codes "x")

abbrev live : LiveSftpTestConfig
live = record {
  host = codes "x";
  port = 2222;
  username = codes "x";
  credential_ref = codes "x";
  timeout_secs = 10;
}

environment_is_read : from_env environment ≡ ok (some live)
unfolding from_env text_eq
environment_is_read = refl

from_env-IsUsable_example : IsUsable environment live
from_env-IsUsable_example = from_env-IsUsable environment environment_is_read
