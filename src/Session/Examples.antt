-- ===== src/Session/Examples.antt =====
-- Runs of the parser of protocol names, and its theorems at concrete data.
use cross_scp.Base.{none, ◌≡◌, ◌↔◌, ◌⊎◌, refl}
use cross_scp.Base.Result.{ok, err}
use cross_scp.Base.Text.{codes, trim, to_ascii_lowercase}
use cross_scp.Session.{
  SessionProtocol, ftps, web_dav, from_str, unsupported, local_profile, default_port, error_message,
}
use cross_scp.Session.Names.{Names, from_str_iff}

padded : from_str (codes " Web-DAV\t") ≡ ok web_dav
unfolding from_str
padded = refl

unknown : from_str (codes "gopher") ≡ err (unsupported (codes "gopher"))
unfolding from_str
unknown = refl

unknown_message : error_message (unsupported (codes "x")) ≡ codes "unsupported session protocol: x"
unfolding error_message
unknown_message = refl

local_has_no_port : default_port (local_profile (codes "home")).protocol ≡ none
unfolding local_profile default_port
local_has_no_port = refl

from_str_iff_example :
    ((from_str (codes "FTPS ") ≡ ok ftps) ↔ Names ftps (to_ascii_lowercase (trim (codes "FTPS "))))
    × ((from_str (codes "FTPS ") ≡ err (unsupported (codes "FTPS ")))
        ⊎ ((q : SessionProtocol) × (from_str (codes "FTPS ") ≡ ok q)))
from_str_iff_example = from_str_iff (codes "FTPS ") ftps
