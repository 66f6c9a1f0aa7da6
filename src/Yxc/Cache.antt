-- ===== src/Yxc/Cache.antt =====
-- pkg/yxc/cache.go: the features of a device, kept in a file. The file system, the decoder of the
-- file and the call that fetches the features are parameters. Times are in seconds.
pub mod Inside
pub mod Fresh
use yamaha_cli.Prelude.{
  ℕ, ◌*◌, Bool, true, false, not, [], ◌∷◌, ◌++◌, Option, none, some, if◌then◌else◌, ltb, ◌==◌,
}
use yamaha_cli.Text.{Bytes, codes, equal, trim_right_by}

abbrev pub features_cache_ttl : ℕ
features_cache_ttl = 7 * 24 * 60 * 60

-- What stands behind the last slash, or all of it.
unfoldable pub last_part : Bytes → Bytes → Bytes
last_part part [] = part
last_part part (c ∷ s) = if c == b'/' then last_part [] s else last_part (part ++ c ∷ []) s

abbrev pub base_of_trimmed : Bytes → Bytes
unfolding last_part
base_of_trimmed [] = codes "/"
base_of_trimmed (c ∷ s) = last_part [] (c ∷ s)

-- `filepath.Base`, where the separator is a slash
unfoldable pub base : Bytes → Bytes
unfolding base_of_trimmed trim_right_by
base [] = codes "."
base (c ∷ s) = base_of_trimmed (trim_right_by (λ d. d == b'/') (c ∷ s))

abbrev pub features_name : Bytes → Bytes
features_name device_id = device_id ++ codes "-features.json"

-- `pathFor` in a directory; `none` is an error. `filepath.Join` of a clean directory and a file name.
unfoldable pub path_for : Bytes → Bytes → Option Bytes
unfolding base equal
path_for dir [] = none
path_for dir (c ∷ device_id) =
    if equal (base (features_name (c ∷ device_id))) (features_name (c ∷ device_id))
    then some (dir ++ b'/' ∷ features_name (c ∷ device_id))
    else none

-- The file: its state, and its content where it can be read.
pub data Stat : Type 0 where
  absent : Stat
  stat_failed : Stat
  -- the time since it was written
  aged : ℕ → Stat

pub record File : Type 0 where
  pub stat : Stat
  pub content : Option Bytes

pub data Loaded (F : Type 0) : Type 0 where
  hit : F → Loaded F
  miss : Loaded F
  load_failed : Loaded F

pub data Outcome (F : Type 0) : Type 0 where
  cached : F → Outcome F
  fetched : F → Outcome F
  failed : Outcome F

module _ {F : Type 0} (decode : Bytes → Option F) where
  abbrev pub decoded : Option F → Loaded F
  decoded none = miss
  decoded (some f) = hit f

  abbrev pub read_file : Option Bytes → Loaded F
  read_file none = load_failed
  read_file (some raw) = decoded (decode raw)

  abbrev pub by_stat : ℕ → Option Bytes → Stat → Loaded F
  by_stat ttl content absent = miss
  by_stat ttl content stat_failed = load_failed
  by_stat ttl content (aged t) = if ltb ttl t then miss else read_file content

  -- `tryLoad`
  unfoldable pub try_load : ℕ → File → Loaded F
  try_load ttl file = by_stat ttl file.content file.stat

  -- Fetching, and saving what was fetched.
  abbrev pub fetch_and_save : Option F → Bool → Outcome F
  fetch_and_save none saves = failed
  fetch_and_save (some f) saves = if saves then fetched f else failed

  abbrev pub or_fetch : Loaded F → Option F → Bool → Outcome F
  or_fetch (hit f) fetch saves = cached f
  or_fetch miss fetch saves = fetch_and_save fetch saves
  or_fetch load_failed fetch saves = failed

  -- `LoadOrFetch`: what the call fetches, and whether the file can be saved.
  unfoldable pub load_or_fetch : ℕ → Bool → File → Option F → Bool → Outcome F
  unfolding try_load
  load_or_fetch ttl refresh file fetch saves =
      if refresh then fetch_and_save fetch saves else or_fetch (try_load ttl file) fetch saves
