-- ===== src/Config/File.antt =====
-- `FileSessionStore`: the store in memory, and one file that is written behind each change.
-- What the operating system does with the path is a `Disk`: the content of the file, and for each
-- call the error with which it fails. A failed write leaves any content, `torn`.
pub mod Reopen
pub mod Lost
mod Examples
use cross_scp.Base.{[], Option, none, some, Bool, true, false}
use cross_scp.Base.Result.{Result, ok, err}
use cross_scp.Base.Text.{Text}
use cross_scp.Base.Order.{text_order}
use cross_scp.Base.OrdMap.{values}
use cross_scp.Session.{SessionProfile}
use cross_scp.Config.Store.{ConfigError, io, SessionStore}
use cross_scp.Config.Store
use cross_scp.Config.Lines.{render_profiles, parse_profiles}

pub record Disk : Type 0 where
  pub content : Option Text
  pub has_parent : Bool
  pub read_error : Option Text
  pub create_dir_error : Option Text
  pub write_error : Option Text
  pub torn : Option Text

-- `FileSessionStore::open`
unfoldable pub open_store : Disk → Result ConfigError SessionStore
open_store disk = elim disk.content [
  | none ↦ ok []
  | some text ↦ elim disk.read_error [ some e ↦ err (io e) | none ↦ parse_profiles text ]
]

-- `create_dir_all` of the parent, if the path has one.
unfoldable pub create_parent : Disk → Option Text
create_parent disk = elim disk.has_parent [ true ↦ disk.create_dir_error | false ↦ none ]

unfoldable pub flush : Disk → SessionStore → Disk × Result ConfigError (Unit {0})
unfolding create_parent
flush disk memory = elim (create_parent disk) [
  | some e ↦ (disk, err (io e))
  | none ↦ elim disk.write_error [
    | some e ↦ (record disk { content = disk.torn }, err (io e))
    | none ↦ (record disk { content = some (render_profiles (values memory)) }, ok tt)
  ]
]

-- The memory, the disk and the result behind a call.
abbrev pub Outcome : Type 0 → Type 0
Outcome A = record { memory : SessionStore; disk : Disk; result : Result ConfigError A }

-- `self.memory.save(profile)?; self.flush()`
unfoldable pub after_save : SessionStore × Result ConfigError (Unit {0}) → Disk → Outcome (Unit {0})
after_save (memory, err e) disk = record { memory = memory; disk = disk; result = err e }
after_save (memory, ok _) disk = record {
  memory = memory;
  disk = (flush disk memory).0;
  result = (flush disk memory).1;
}

unfoldable pub save : SessionStore → Disk → SessionProfile → Outcome (Unit {0})
unfolding after_save
save memory disk profile = after_save (Store.save memory profile) disk

-- `flush()?` and then `Ok(removed)`.
unfoldable pub after_flush : Disk × Result ConfigError (Unit {0}) → SessionStore → Outcome Bool
after_flush (disk, ok _) memory = record { memory = memory; disk = disk; result = ok true }
after_flush (disk, err e) memory = record { memory = memory; disk = disk; result = err e }

-- `let removed = self.memory.remove(name)?; if removed { self.flush()?; }`
unfoldable pub after_remove : SessionStore × Result ConfigError Bool → Disk → Outcome Bool
unfolding after_flush
after_remove (memory, err e) disk = record { memory = memory; disk = disk; result = err e }
after_remove (memory, ok false) disk = record { memory = memory; disk = disk; result = ok false }
after_remove (memory, ok true) disk = after_flush (flush disk memory) memory

unfoldable pub remove : SessionStore → Disk → Text → Outcome Bool
unfolding after_remove
remove memory disk name = after_remove (Store.remove memory name) disk
