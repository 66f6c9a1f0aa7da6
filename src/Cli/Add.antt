-- ===== src/Cli/Add.antt =====
-- internal/cli/config_cmd.go: `config add`. The config file is what it holds, or none if it does not
-- load; a save may be refused, as YAML that does not read back is.
pub mod Store
use yamaha_cli.Prelude.{
  Bool, true, false, ◌||◌, ◌&&◌, not, [], Option, none, some, is_some, if◌then◌else◌,
}
use yamaha_cli.Text.{Bytes, is_empty, trim_space, lookup, insert}
use yamaha_cli.Config.Schema.{Device, Config}
use yamaha_cli.Cli.Args.{canonical_zone, validate_config_host}

-- The argument, the flags and YAMAHA_HOST.
pub record Request : Type 0 where
  pub alias : Bytes
  pub host_flag : Bytes
  pub host_env : Bytes
  pub zone_flag : Bytes
  pub set_default : Bool
  pub force : Bool

-- What `discover.Describe` comes to.
pub data Described : Type 0 where
  receiver : Bytes → Described
  not_yamaha unreadable : Described

-- The probe of the host, which takes time: the context at its end, and what other runs of the
-- program make of the file meanwhile.
pub record Probe : Type 0 where
  pub described : Described
  pub interrupted : Bool
  pub meanwhile : Option Config → Option Config

pub data Outcome : Type 0 where
  -- with a UDN, or with the warning that there is none
  saved saved_without_udn : Outcome
  usage_error load_error alias_exists interrupted wrong_device save_error : Outcome

abbrev pub is_saved : Outcome → Bool
is_saved saved = true
is_saved saved_without_udn = true
is_saved _ = false

-- `loadConfigForAdd`
pub data Loaded : Type 0 where
  loaded : Config → Loaded
  refused : Outcome → Loaded

unfoldable pub load_config_for_add : Bytes → Bool → Option Config → Loaded
unfolding lookup
load_config_for_add alias force none = refused load_error
load_config_for_add alias force (some cfg) =
    if is_some (lookup alias cfg.devices) && not force then refused alias_exists else loaded cfg

-- The host of the flag, or of the environment.
abbrev pub host_of : Request → Bytes
host_of r =
    if is_empty (trim_space r.host_flag) then trim_space r.host_env else trim_space r.host_flag

abbrev pub device_of : Bytes → Bytes → Described → Device
device_of host zone (receiver udn) = record {
  host = host;
  udn = udn;
  device_id = [];
  default_zone = zone;
}
device_of host zone _ = record { host = host; udn = []; device_id = []; default_zone = zone }

-- The configuration with the entry.
abbrev pub with_entry : Bytes → Bool → Device → Config → Config
with_entry alias set_default d cfg = record {
  default_device = if is_empty cfg.default_device || set_default then alias else cfg.default_device;
  devices = insert alias d cfg.devices;
}

abbrev outcome_of : Described → Outcome
outcome_of (receiver udn) = saved
outcome_of _ = saved_without_udn

module _ (save_fails : Config → Bool) where
  store_entry :
      Request → Bytes → Described → Device → Option Config → Loaded → Outcome × Option Config
  unfolding insert
  store_entry r alias described d file (refused o) = (o, file)
  store_entry r alias described d file (loaded cfg) =
      let cfg' = with_entry alias r.set_default d cfg in
      if save_fails cfg' then (save_error, file) else (outcome_of described, some cfg')

  -- The file is read again behind the probe.
  save_new : Request → Bytes → Bytes → Bytes → Described → Option Config → Outcome × Option Config
  unfolding store_entry load_config_for_add
  save_new r alias host zone described file =
      store_entry r alias described (device_of host zone described) file
        (load_config_for_add alias r.force file)

  after_probe :
      Request → Bytes → Bytes → Bytes → Described → Bool → Option Config → Outcome × Option Config
  unfolding save_new
  after_probe r alias host zone (receiver udn) stopped file =
      save_new r alias host zone (receiver udn) file
  after_probe r alias host zone not_yamaha stopped file =
      if stopped then (interrupted, file) else (wrong_device, file)
  after_probe r alias host zone unreadable stopped file =
      if stopped then (interrupted, file) else save_new r alias host zone unreadable file

  probing :
      Request → Bytes → Bytes → Bytes → Probe → Option Config → Loaded → Outcome × Option Config
  unfolding after_probe
  probing r alias host zone p file (refused o) = (o, file)
  probing r alias host zone p file (loaded cfg) =
      after_probe r alias host zone p.described p.interrupted (p.meanwhile file)

  in_zone : Request → Bytes → Bytes → Probe → Option Config → Option Bytes → Outcome × Option Config
  unfolding probing load_config_for_add
  in_zone r alias host p file none = (usage_error, file)
  in_zone r alias host p file (some zone) =
      probing r alias host zone p file (load_config_for_add alias r.force file)

  -- `runConfigAdd`
  unfoldable pub run_config_add : Request → Probe → Option Config → Outcome × Option Config
  unfolding in_zone validate_config_host canonical_zone
  run_config_add r p file =
      let alias = trim_space r.alias in
      let host = host_of r in
      if is_empty alias || is_empty host || not (validate_config_host host)
      then (usage_error, file)
      else in_zone r alias host p file (canonical_zone r.zone_flag)
