-- ===== src/Config/Save.antt =====
-- `saveTo` of internal/config/config.go, over a file system that maps paths to contents. YAML is a
-- parameter. The model lists the states of the files between and within the system calls. That the
-- disk has them in this order is assumed: the code does not sync before it renames.
pub mod Atomic
use yamaha_cli.Prelude.{
  ℕ, zero, suc, ◌&&◌, ◌==◌, Bool, true, false, List, [], ◌∷◌, ◌++◌, Option, none, some, length,
  take, if◌then◌else◌,
}
use yamaha_cli.Text.{Bytes, codes, equal, Dict, lookup}
use yamaha_cli.Config.Schema.{Device, Config}

abbrev pub Files : Type 0
Files = Bytes → Option Bytes

abbrev pub put : Bytes → Option Bytes → Files → Files
put p v fs q = if equal p q then v else fs q

-- What the system calls do. A write that fails has written some bytes.
pub record Faults : Type 0 where
  pub mkdir_fails : Bool
  pub remove_fails : Bool
  pub write_stops : Option ℕ
  pub rename_fails : Bool

pub data Saved : Type 0 where
  ok : Saved
  refused : Saved
  mkdir_failed : Saved
  write_failed : Saved
  rename_failed : Saved

pub record Run : Type 0 where
  pub result : Saved
  -- all states of the files on the way, the first and the last among them
  pub visited : List Files
  pub final : Files

abbrev pub tmp_path : Bytes → Bytes
tmp_path path = path ++ codes ".tmp"

-- The states while the first `n` bytes are written.
pub partial : Bytes → Bytes → ℕ → Files → List Files
partial tmp bytes zero fs = put tmp (some []) fs ∷ []
partial tmp bytes (suc n) fs = partial tmp bytes n fs ++ put tmp (some (take (suc n) bytes)) fs ∷ []

-- `==` of two entries
unfoldable pub same_device : Device → Device → Bool
unfolding equal
same_device a b =
    equal a.host b.host
    && equal a.udn b.udn
    && equal a.device_id b.device_id
    && equal a.default_zone b.default_zone

-- `v2, ok := m2[k]; ok && v1 == v2`
unfoldable pub is_entry : Device → Option Device → Bool
unfolding same_device
is_entry d none = false
is_entry d (some e) = same_device d e

-- The loop of `maps.Equal`.
unfoldable pub within : Dict Device → Dict Device → Bool
unfolding is_entry lookup
within [] ds = true
within ((k, d) ∷ more) ds = is_entry d (lookup k ds) && within more ds

-- The default device and the devices are the same: `maps.Equal` compares the sizes first.
unfoldable pub same_config : Config → Config → Bool
unfolding equal within
same_config back c =
    equal back.default_device c.default_device
    && length back.devices == length c.devices
    && within back.devices c.devices

module _ (encode : Config → Option Bytes) (decode : Bytes → Option Config) where
  -- The encoded file, if it reads back unchanged.
  pub reads_back : Config → Bytes → Option Config → Option Bytes
  unfolding same_config
  reads_back c bytes none = none
  reads_back c bytes (some back) = if same_config back c then some bytes else none

  pub checked : Config → Option Bytes
  unfolding reads_back
  checked c = elim (encode c) [ none ↦ none | some bytes ↦ reads_back c bytes (decode bytes) ]

  -- The rename, or the removal of the temporary file.
  pub renaming : Bytes → Bytes → Bool → List Files → Files → Run
  renaming path bytes false before fs =
      let done = put path (some bytes) (put (tmp_path path) none fs) in
      record { result = ok; visited = before ++ done ∷ []; final = done }
  renaming path bytes true before fs =
      let cleaned = put (tmp_path path) none fs in
      record { result = rename_failed; visited = before ++ cleaned ∷ []; final = cleaned }

  pub writing : Bytes → Bytes → Option ℕ → Bool → List Files → Files → Run
  unfolding partial renaming
  writing path bytes (some n) rename_fails before fs = record {
    result = write_failed;
    visited = before ++ partial (tmp_path path) bytes n fs;
    final = put (tmp_path path) (some (take n bytes)) fs;
  }
  writing path bytes none rename_fails before fs =
      renaming path bytes rename_fails (before ++ partial (tmp_path path) bytes (length bytes) fs)
        (put (tmp_path path) (some bytes) fs)

  pub storing : Bytes → Bytes → Faults → Files → Run
  unfolding writing
  storing path bytes faults fs =
      if faults.mkdir_fails
      then record { result = mkdir_failed; visited = fs ∷ []; final = fs }
      else (let fs' = if faults.remove_fails then fs else put (tmp_path path) none fs in
          writing path bytes faults.write_stops faults.rename_fails (fs ∷ fs' ∷ []) fs')

  save_checked : Bytes → Faults → Files → Option Bytes → Run
  unfolding storing
  save_checked path faults fs none = record { result = refused; visited = fs ∷ []; final = fs }
  save_checked path faults fs (some bytes) = storing path bytes faults fs

  unfoldable pub save_to : Bytes → Config → Faults → Files → Run
  unfolding save_checked checked
  save_to path c faults fs = save_checked path faults fs (checked c)
