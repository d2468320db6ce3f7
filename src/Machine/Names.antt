-- ===== src/Machine/Names.antt =====
-- crates/crossscp-core/src/protocol.rs: the name that keeps both of two local files.
use cross_scp.Base.{ℕ, [], ◌∷◌, Option, none, some, Bool, if◌then◌else◌, is_empty}
use cross_scp.Base.Text.{Text}
use cross_scp.Protocol.{at_least_one, with_number}
use cross_scp.Base.Decimal.{to_string}
use cross_scp.Machine.{Paths}

-- The number stands before the extension, if there is a stem that is not empty.
unfoldable pub numbered_local_name : Text → ℕ → Option Text → Option Text → Text
unfolding to_string
numbered_local_name name copy_number (some stem) (some extension) =
    if is_empty stem
    then with_number name copy_number []
    else with_number stem copy_number (b'.' ∷ extension)
numbered_local_name name copy_number _ _ = with_number name copy_number []

unfoldable pub numbered_local_conflict_path : Paths → Text → ℕ → Bool → Text
unfolding numbered_local_name to_string
numbered_local_conflict_path paths path copy_number is_directory =
    let name : Text = elim (paths.file_name path) [ some name ↦ name | none ↦ [] ] in
    let numbered : Text =
      if is_directory
      then with_number name (at_least_one copy_number) []
      else numbered_local_name name (at_least_one copy_number) (paths.file_stem name)
          (paths.extension name) in
    elim (paths.parent path) [ some parent ↦ paths.join parent numbered | none ↦ numbered ]
