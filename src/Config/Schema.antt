-- ===== src/Config/Schema.antt =====
-- The schema of the file, in internal/config/config.go.
use yamaha_cli.Text.{Bytes, Dict}

pub record Device : Type 0 where
  pub host : Bytes
  pub udn : Bytes
  pub device_id : Bytes
  pub default_zone : Bytes

pub record Config : Type 0 where
  pub default_device : Bytes
  pub devices : Dict Device
