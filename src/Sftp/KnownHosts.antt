-- ===== src/Sftp/KnownHosts.antt =====
-- The stores of known hosts: in memory, a map from host and port, and in a file of lines with four
-- fields. The file is a `Disk`, as that of the profiles.
pub mod RoundTrip
pub mod Memory
use cross_scp.Base.{
  ℕ, List, [], ◌∷◌, ◌++◌, Option, none, some, Bool, true, false, ◌&&◌, ◌||◌, ◌^◌, if◌then◌else◌,
  is_empty,
}
use cross_scp.Base.Result.{Result, ok, err, ◌>>=◌, ok_or}
use cross_scp.Base.Text.{Text, codes, text_eq, trim, starts_with, split, join, lines, replace}
use cross_scp.Base.Decimal.{to_string, parse}
use cross_scp.Base.Order.{pair_order}
use cross_scp.Base.OrdMap
use cross_scp.Config.Fields.{backslash, tab, newline, unescape_from}
use cross_scp.Config.File.{Disk, create_parent}
use cross_scp.Sftp.Errors.{SftpError, io, invalid_known_host_record}

pub record HostKeyRecord : Type 0 where
  pub host : Text
  pub port : ℕ
  pub algorithm : Text
  pub fingerprint : Text

-- `HostKeyStoreKey`, with its derived order: host and port.
abbrev pub HostKeyStoreKey : Type 0
HostKeyStoreKey = Text × ℕ

abbrev pub key : HostKeyRecord → HostKeyStoreKey
key known = (known.host, known.port)

pub data HostKeyTrust : Type 0 where
  trusted unknown : HostKeyTrust
  changed : (expected observed : HostKeyRecord) → HostKeyTrust

-- The trait `HostKeyStore`: a store of some type, and its methods.
pub record HostKeyStore (S : Type 0) : Type 0 where
  pub check : HostKeyRecord → S → Result SftpError HostKeyTrust
  pub trust : HostKeyRecord → S → S × Result SftpError (Unit {0})
  pub forget : HostKeyStoreKey → S → S × Result SftpError Bool

abbrev pub KnownHosts : Type 0
KnownHosts = List (HostKeyStoreKey × HostKeyRecord)

unfoldable pub compare_keys : HostKeyRecord → HostKeyRecord → HostKeyTrust
unfolding text_eq
compare_keys expected observed =
    if text_eq expected.algorithm observed.algorithm
      && text_eq expected.fingerprint observed.fingerprint
    then trusted
    else changed expected observed

unfoldable pub trust_of : Option HostKeyRecord → HostKeyRecord → HostKeyTrust
unfolding compare_keys
trust_of none observed = unknown
trust_of (some expected) observed = compare_keys expected observed

unfoldable pub check : HostKeyRecord → KnownHosts → Result SftpError HostKeyTrust
unfolding OrdMap.get trust_of
check observed hosts = ok (trust_of (OrdMap.get (key observed) hosts) observed)

unfoldable pub trust : HostKeyRecord → KnownHosts → KnownHosts × Result SftpError (Unit {0})
unfolding OrdMap.insert
trust known hosts = (OrdMap.insert (key known) known hosts, ok tt)

is_some : Option HostKeyRecord → Bool
is_some none = false
is_some (some known) = true

unfoldable pub forget : HostKeyStoreKey → KnownHosts → KnownHosts × Result SftpError Bool
unfolding OrdMap.get OrdMap.remove is_some
forget k hosts = (OrdMap.remove k hosts, ok (is_some (OrdMap.get k hosts)))

-- `InMemoryHostKeyStore`
unfoldable pub memory_store : HostKeyStore KnownHosts
memory_store = record { check = check; trust = trust; forget = forget }

abbrev pub header : Text
header = codes "# CrossSCP known hosts v1"

unfoldable pub escape_field : Text → Text
unfolding replace
escape_field value =
    replace newline (codes "\\n")
      (replace tab (codes "\\t") (replace backslash (codes "\\\\") value))

unfoldable pub unescape_field : Text → Result SftpError Text
unfolding unescape_from
unescape_field value = unescape_from (invalid_known_host_record value) [] value

abbrev pub record_fields : HostKeyRecord → List Text
record_fields known =
    escape_field known.host
    ∷ to_string known.port
    ∷ escape_field known.algorithm
    ∷ escape_field known.fingerprint
    ∷ []

unfoldable pub render_record : HostKeyRecord → Text
render_record known = join tab (record_fields known)

-- The loop of `render_host_keys`, behind the comment line.
unfoldable pub render_records : List HostKeyRecord → Text
render_records [] = []
render_records (known ∷ rest) = render_record known ++ newline ∷ render_records rest

unfoldable pub render_host_keys : List HostKeyRecord → Text
unfolding render_records
render_host_keys records = header ++ newline ∷ render_records records

unfoldable pub parse_record : Text → List Text → Result SftpError HostKeyRecord
parse_record line (f0 ∷ f1 ∷ f2 ∷ f3 ∷ []) = do
  port ← ok_or (parse (2 ^ 16) f1) (invalid_known_host_record line)
  host ← unescape_field f0
  algorithm ← unescape_field f2
  fingerprint ← unescape_field f3
  ok (record { host = host; port = port; algorithm = algorithm; fingerprint = fingerprint })
parse_record line _ = err (invalid_known_host_record line)

-- One round of `parse_host_keys`.
unfoldable pub parse_host_line : KnownHosts → Text → Result SftpError KnownHosts
unfolding parse_record trust
parse_host_line hosts line = elim (is_empty (trim line) || starts_with line (codes "#")) [
  | true ↦ ok hosts
  | false ↦ parse_record line (split tab line) >>= λ known. ok (trust known hosts).0
]

unfoldable pub parse_host_lines : KnownHosts → List Text → Result SftpError KnownHosts
unfolding parse_host_line
parse_host_lines hosts [] = ok hosts
parse_host_lines hosts (line ∷ rest) = parse_host_line hosts line >>= λ h. parse_host_lines h rest

unfoldable pub parse_host_keys : Text → Result SftpError KnownHosts
unfolding parse_host_lines
parse_host_keys input = parse_host_lines [] (lines input)

-- `FileHostKeyStore`: the store in memory, and the file behind it.
pub record FileHostKeyStore : Type 0 where
  pub memory : KnownHosts
  pub disk : Disk

-- `FileHostKeyStore::open`
unfoldable pub open_hosts : Disk → Result SftpError KnownHosts
open_hosts disk = elim disk.content [
  | none ↦ ok []
  | some text ↦ elim disk.read_error [ some e ↦ err (io e) | none ↦ parse_host_keys text ]
]

unfoldable pub flush_hosts : FileHostKeyStore → FileHostKeyStore × Result SftpError (Unit {0})
unfolding create_parent
flush_hosts store = elim (create_parent store.disk) [
  | some e ↦ (store, err (io e))
  | none ↦ elim store.disk.write_error [
    | some e ↦ (record store { disk = record store.disk { content = store.disk.torn } }, err (io e))
    | none ↦ (
      record store {
        disk = record store.disk { content = some (render_host_keys (OrdMap.values store.memory)) };
      },
      ok tt,
    )
  ]
]

unfoldable pub file_trust :
    HostKeyRecord → FileHostKeyStore → FileHostKeyStore × Result SftpError (Unit {0})
unfolding trust flush_hosts
file_trust known store = flush_hosts (record store { memory = (trust known store.memory).0 })

after_forget : Result SftpError Bool → FileHostKeyStore → FileHostKeyStore × Result SftpError Bool
unfolding flush_hosts
after_forget (err e) store = (store, err e)
after_forget (ok false) store = (store, ok false)
after_forget (ok true) store =
    let (flushed, result) = flush_hosts store in (flushed, result >>= λ _. ok true)

unfoldable pub file_forget :
    HostKeyStoreKey → FileHostKeyStore → FileHostKeyStore × Result SftpError Bool
unfolding forget after_forget
file_forget k store =
    let (memory, forgotten) = forget k store.memory in
    after_forget forgotten (record store { memory = memory })

unfoldable pub file_store : HostKeyStore FileHostKeyStore
file_store = record {
  check = λ observed store. check observed store.memory;
  trust = file_trust;
  forget = file_forget;
}
