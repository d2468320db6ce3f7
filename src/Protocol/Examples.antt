-- ===== src/Protocol/Examples.antt =====
-- Numbered names on the inputs of the tests.
use cross_scp.Base.{◌≡◌, refl, true, false}
use cross_scp.Base.Text.{codes}
use cross_scp.Base.Decimal.{to_string}
use cross_scp.Protocol.{at_least_one, numbered_conflict_path}
use cross_scp.Protocol.Numbered.{numbered_conflict_path-injective}

keeps_extension :
    numbered_conflict_path (codes "/uploads/archive.tar.gz") 2 false
    ≡ codes "/uploads/archive.tar (2).gz"
unfolding numbered_conflict_path to_string
keeps_extension = refl

keeps_hidden : numbered_conflict_path (codes "/uploads/.env") 1 false ≡ codes "/uploads/.env (1)"
unfolding numbered_conflict_path to_string
keeps_hidden = refl

suffixes_directory :
    numbered_conflict_path (codes "/uploads/photos/") 1 true ≡ codes "/uploads/photos (1)"
unfolding numbered_conflict_path to_string
suffixes_directory = refl

zero_counts_as_one :
    numbered_conflict_path (codes "a.b") 0 false ≡ numbered_conflict_path (codes "a.b") 1 false
unfolding numbered_conflict_path
zero_counts_as_one = refl

numbered_conflict_path-injective_example : at_least_one 0 ≡ at_least_one 1
numbered_conflict_path-injective_example =
    numbered_conflict_path-injective (codes "a.b") false 0 1 zero_counts_as_one
