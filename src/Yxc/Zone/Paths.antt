-- ===== src/Yxc/Zone/Paths.antt =====
-- Which requests the calls on a zone send.
use yamaha_cli.Prelude.{◌∷◌, ◌++◌, Option, some}
use yamaha_cli.Text.{Bytes, Table}
use yamaha_cli.Yxc.Client.{Client}
use yamaha_cli.Yxc.Client.Retry.{Asked}
use yamaha_cli.Yxc.Zone.{Call}
use yamaha_cli.Yxc.Zone.Requests.{IsZone, Refuses}

-- With a zone and parameters, the call asks for its method of that zone; without, it refuses.
abbrev pub Targets : Bytes → Option Bytes → Option Table → Call → Type 0
Targets method (some z) (some t) call =
    IsZone z × ((c : Client) → Asked (z ++ b'/' ∷ method) t 0 c (call c).1)
Targets method _ _ call = Refuses call
