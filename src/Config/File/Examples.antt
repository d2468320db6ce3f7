-- ===== src/Config/File/Examples.antt =====
-- Runs of the stores and of the file format, and the theorems at concrete data.
use cross_scp.Base.{[], ◌∷◌, none, some, true, false, ◌≡◌, ◌⊎◌, refl, arith, All, inr}
use cross_scp.Base.Result.{ok, err}
use cross_scp.Base.Text.{Text, codes, trim}
use cross_scp.Base.Order.{text_order}
use cross_scp.Base.OrdMap
use cross_scp.Base.OrdMap.{IsSorted, values}
use cross_scp.Session.{SessionProfile, sftp}
use cross_scp.Config.Fields.{escape, unescape, parse_port}
use cross_scp.Config.Store.{
  ConfigError, io, validate_profile, SessionStore, is_some, invalid_record,
}
use cross_scp.Config.Store
use cross_scp.Config.Store.Laws.{IsValid, save-remove-IsValid}
use cross_scp.Config.Lines.{parse_profiles, render_profiles}
use cross_scp.Config.Lines.Record.{IsStorable}
use cross_scp.Config.Lines.RoundTrip.{Entry, parse_profiles-render}
use cross_scp.Config.File.{Disk, flush, open_store, save, remove}
use cross_scp.Base.Decimal.{parse}
use cross_scp.Config.File.Reopen.{
  IsFileStore, Accepts, Refuses, open-save, save-errors, open-remove,
}
use cross_scp.Config.File.Lost.{hash_profile_lost}

abbrev profile_named : Text → SessionProfile
profile_named name = record {
  name = name;
  protocol = sftp;
  host = codes "example.com";
  port = some 22;
  username = some (codes "alice");
  initial_remote_path = none;
  credential_ref = some (codes "env://KEY");
}

abbrev site : SessionProfile
site = profile_named (codes "prod\tsite")

abbrev hash_site : SessionProfile
hash_site = profile_named (codes "#1")

site-valid : validate_profile site ≡ ok tt
unfolding validate_profile trim
site-valid = refl

hash_site-valid : validate_profile hash_site ≡ ok tt
unfolding validate_profile trim
hash_site-valid = refl

site-IsStorable : IsStorable site
site-IsStorable = record {
  valid = site-valid;
  port_fits = omega arith;
  username_text = λ h. cc;
  path_text = λ h. cc;
  credential_text = λ h. cc;
  name_start = omega arith;
  credential_end = omega arith;
}

abbrev sites : SessionStore
sites = (codes "prod\tsite", site) ∷ []

sites-Entry : All Entry sites
sites-Entry = ((refl, site-IsStorable), tt)

sites-IsFileStore : IsFileStore sites
sites-IsFileStore = record { sorted = (tt, tt); entries = sites-Entry }

sites-IsValid : IsValid sites
sites-IsValid = record { sorted = (tt, tt); entries = ((refl, site-valid), tt) }

-- A path whose directory can be made and whose file can be written and read.
abbrev disk : Disk
disk = record {
  content = none;
  has_parent = true;
  read_error = none;
  create_dir_error = none;
  write_error = none;
  torn = none;
}

escape_tab : escape (codes "a\tb\\") ≡ codes "a\\tb\\\\"
unfolding escape
escape_tab = refl

unescape_fails : unescape (codes "a\\q") ≡ err (invalid_record (codes "a\\q"))
unfolding unescape
unescape_fails = refl

port_too_large : parse_port (codes "65536") ≡ err (invalid_record (codes "invalid port: 65536"))
unfolding parse_port parse
port_too_large = refl

save-site_succeeds : (save [] disk site).result ≡ ok tt
unfolding save Store.save trim OrdMap.insert flush
save-site_succeeds = refl

save-remove-IsValid_example :
    IsValid (Store.save sites hash_site).0 × IsValid (Store.remove sites (codes "x")).0
save-remove-IsValid_example = save-remove-IsValid sites hash_site (codes "x") sites-IsValid

parse_profiles-render_example : parse_profiles (render_profiles (values sites)) ≡ ok sites
parse_profiles-render_example = parse_profiles-render sites (tt, tt) sites-Entry

open-save_example :
    (open_store (save [] disk site).disk ≡ ok (OrdMap.insert site.name site []))
    × ((save [] disk site).memory ≡ OrdMap.insert site.name site [])
    × IsFileStore (OrdMap.insert site.name site [])
open-save_example =
    open-save [] disk site (record { sorted = tt; entries = tt }) site-IsStorable refl
      save-site_succeeds

save-errors_example :
    ((e : ConfigError) × (validate_profile site ≡ err e)
      × (save [] disk site ≡ record { memory = []; disk = disk; result = err e }))
    ⊎ ((validate_profile site ≡ ok tt)
        × ((save [] disk site).memory ≡ OrdMap.insert site.name site [])
        × ((Accepts disk × ((save [] disk site).result ≡ ok tt))
            ⊎ ((e : Text) × Refuses disk e × ((save [] disk site).result ≡ err (io e)))))
save-errors_example = save-errors [] disk site

open-remove_example :
    ((OrdMap.get (codes "prod\tsite") sites ≡ none)
      × (remove sites disk (codes "prod\tsite")
          ≡ record { memory = sites; disk = disk; result = ok false }))
    ⊎ ((p : SessionProfile) × (OrdMap.get (codes "prod\tsite") sites ≡ some p)
        × ((remove sites disk (codes "prod\tsite")).memory
            ≡ OrdMap.remove (codes "prod\tsite") sites)
        × ((Accepts disk
              × ((remove sites disk (codes "prod\tsite")).result ≡ ok true)
              × (open_store (remove sites disk (codes "prod\tsite")).disk
                  ≡ ok (OrdMap.remove (codes "prod\tsite") sites)))
            ⊎ ((e : Text) × Refuses disk e
                × ((remove sites disk (codes "prod\tsite")).result ≡ err (io e)))))
open-remove_example = open-remove sites disk (codes "prod\tsite") sites-IsFileStore refl

hash_profile_lost_example :
    ((save [] disk hash_site).result ≡ ok tt) × (open_store (save [] disk hash_site).disk ≡ ok [])
hash_profile_lost_example =
    hash_profile_lost disk hash_site (codes "1") refl hash_site-valid (omega arith) refl
      (inr refl, refl)
