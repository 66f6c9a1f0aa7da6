-- ===== src/Cli/Rediscover.antt =====
-- internal/cli/dhcp.go: a device that does not answer is looked up by its UDN, its new address is
-- saved, and the operation is tried once more.
pub mod Saved
pub mod Twin
pub mod Codes
use yamaha_cli.Prelude.{
  Bool, true, false, ◌||◌, ◌&&◌, not, List, [], ◌∷◌, Option, none, some, if◌then◌else◌,
}
use yamaha_cli.Text.{is_empty, Bytes, codes, equal, Dict, lookup, insert}
use yamaha_cli.Config.Schema.{Device, Config}
use yamaha_cli.Cli.Errors.{
  Kind, cancelled, canceled, unreachable, other, yxc, Error, has, is_yxc_transport,
  is_context_canceled,
}

-- The state of a command: `client` is the address that its client talks to.
pub record State : Type 0 where
  -- empty if the device was not resolved by an alias
  pub alias : Bytes
  pub device : Device
  pub cfg : Option Config
  pub client : Bytes

pub data Lookup : Type 0 where
  found : Bytes → Lookup
  lookup_failed : Error → Lookup

-- `shouldRediscover`
unfoldable pub should_rediscover : State → Error → Bool
unfolding has is_yxc_transport
should_rediscover s e =
    has is_yxc_transport e.chain && not (is_empty s.alias) && not (is_empty s.device.udn)

abbrev pub unreachable_error : Error → Error
unreachable_error e = record { chain = unreachable ∷ e.chain; message = codes "not reachable" }

abbrev pub cancelled_error : Error
cancelled_error = record { chain = cancelled ∷ []; message = codes "cancelled by user" }

abbrev no_config : Error
no_config = record {
  chain = other ∷ [];
  message = codes "cannot persist rediscovered host: no config";
}

abbrev or_device : Device → Option Device → Device
or_device d none = d
or_device d (some e) = e

-- The device's entry with the new address.
abbrev pub moved : State → Config → Bytes → Device
moved s cfg host = record (or_device s.device (lookup s.alias cfg.devices)) { host = host }

abbrev pub with_host : State → Config → Bytes → Config
with_host s cfg host = record cfg { devices = insert s.alias (moved s cfg host) cfg.devices }

-- The operation, the search, the file and the context's state, over a world that they change.
pub record Actions (W : Type 0) : Type 1 where
  pub op : Bytes → W → Option Error × W
  pub lookup_by_udn : Bytes → Bytes → W → Lookup × W
  pub is_done : W → Bool
  pub save : Config → W → Option Error × W
  -- an address that no client can be made for
  pub new_client : Bytes → Option Error

module _ {W : Type 0} (act : Actions W) where
  pub persist_into : State → Bytes → W → Option Config → Option Error × State × W
  unfolding lookup insert
  persist_into s host w none = (some no_config, s, w)
  persist_into s host w (some cfg) =
      let (e, w') = act.save (with_host s cfg host) w in
      (e, record s { device = moved s cfg host; cfg = some (with_host s cfg host) }, w')

  -- `persistRediscoveredHost`
  pub persist : State → Bytes → W → Option Error × State × W
  unfolding persist_into
  persist s host w = persist_into s host w s.cfg

  -- What the second try comes to.
  pub second_try : State → Option Error × W → Option Error × State × W
  unfolding has is_yxc_transport
  second_try s (none, w) = (none, s, w)
  second_try s (some e, w) =
      (some (if has is_yxc_transport e.chain then unreachable_error e else e), s, w)

  -- A new client for the address, and the second try.
  pub again : State → Bytes → W → Option Error × State × W
  unfolding second_try
  again s host w = elim (act.new_client host) [
    | some e ↦ (some e, s, w)
    | none ↦ second_try (record s { client = host }) (act.op host w)
  ]

  pub after_persist : Bytes → Option Error × State × W → Option Error × State × W
  unfolding again
  after_persist host (some e, s, w) = (some e, s, w)
  after_persist host (none, s, w) = again s host w

  pub after_lookup : State → Error → Lookup × W → Option Error × State × W
  unfolding has is_context_canceled after_persist persist
  after_lookup s e (lookup_failed e', w) = (
    some (
        if has is_context_canceled e'.chain || act.is_done w
        then cancelled_error
        else unreachable_error e),
    s,
    w,
  )
  after_lookup s e (found host, w) = after_persist host (persist s host w)

  pub after_first : State → Option Error × W → Option Error × State × W
  unfolding should_rediscover after_lookup
  after_first s (none, w) = (none, s, w)
  after_first s (some e, w) =
      if should_rediscover s e
      then after_lookup s e (act.lookup_by_udn s.device.udn s.device.host w)
      else (some e, s, w)

  -- `runWithRediscover`
  unfoldable pub run_with_rediscover : State → W → Option Error × State × W
  unfolding after_first
  run_with_rediscover s w = after_first s (act.op s.client w)
