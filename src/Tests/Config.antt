-- ===== src/Tests/Config.antt =====
-- Tests of the configuration file, and the theorems about it at concrete inputs.
use yamaha_cli.Prelude.{false, [], ◌∷◌, Option, none, some, if◌then◌else◌}
use yamaha_cli.Text.{Bytes, codes, equal}
use yamaha_cli.Config.Schema.{Device, Config}
use yamaha_cli.Config.Save.{Files, Faults, save_to}
use yamaha_cli.Config.Save.Atomic.{IsSaved, save_to-IsAtomic}

abbrev kitchen : Device
kitchen = record {
  host = codes "10.0.0.7";
  udn = codes "uuid:2";
  device_id = [];
  default_zone = [];
}

abbrev config : Config
config = record { default_device = []; devices = (codes "kitchen", kitchen) ∷ [] }

abbrev no_flag : Bytes
no_flag = []

abbrev env_host : Bytes
env_host = codes "10.0.0.8"

-- An encoder that writes the default device only, and its decoder.
abbrev encode : Config → Option Bytes
encode c = some c.default_device

abbrev decode : Bytes → Option Config
decode bytes = some (record { default_device = bytes; devices = [] })

abbrev path : Bytes
path = codes "config.yaml"

abbrev files : Files
files q = if equal q path then some (codes "old") else none

-- The disk is full after three bytes.
abbrev disk_full : Faults
disk_full = record {
  mkdir_fails = false;
  remove_fails = false;
  write_stops = some 3;
  rename_fails = false;
}

abbrev wanted : Config
wanted = record { default_device = codes "kitchen"; devices = [] }

save_to-IsAtomic_example :
    IsSaved encode decode path wanted files (save_to encode decode path wanted disk_full files)
save_to-IsAtomic_example = save_to-IsAtomic encode decode path wanted disk_full files
