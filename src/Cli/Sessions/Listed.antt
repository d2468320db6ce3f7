-- ===== src/Cli/Sessions/Listed.antt =====
-- What `session-list` prints behind `session-save`.
use cross_scp.Base.{List, [], ◌∷◌}
use cross_scp.Base.Text.{Text}
use cross_scp.Base.Order.{text_order}
use cross_scp.Base.OrdMap
use cross_scp.Config.Store
use cross_scp.Config.File
use cross_scp.Cli.Sessions.{SaveArgs}

-- The arguments of `session-save` behind the path of the file.
abbrev pub save_arguments : Text → SaveArgs → List Text
save_arguments protocol args =
    protocol ∷ args.name ∷ args.host ∷ args.port ∷ args.username ∷ args.path ∷ args.credential ∷ []
