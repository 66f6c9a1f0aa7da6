-- ===== src/Cli/Wizard.antt =====
-- internal/cli/wizard.go and `discover --add` of discover.go: a receiver is picked, named and saved.
-- The answers are the lines that are read, none for a read that fails; behind the last one the reader
-- is at its end, and gives the empty line. The configuration is the copy that was loaded before the
-- questions, as in the code: what other runs save in the meantime is lost, and is not modelled.
pub mod Kept
use yamaha_cli.Prelude.{
  ℕ, zero, suc, ◌+◌, ◌-◌, ◌++◌, Bool, true, false, ◌||◌, ◌&&◌, not, List, [], ◌∷◌, Option, none,
  some, is_some, if◌then◌else◌, leb, ltb, length, ◌==◌, ℤ, pos, negsuc,
}
use yamaha_cli.Text.{
  Bytes, codes, is_empty, trim_space, trim_crlf, trim_right_by, drop_while, to_lower, has_prefix,
  lookup, insert, itoa, atoi, Dict,
}
use yamaha_cli.Config.Schema.{Device, Config}
use yamaha_cli.Discover.Fetch as Fetch
use mathlib.Core.List.{reverse}

abbrev is_alnum : ℕ → Bool
is_alnum c = (leb 97 c && leb c 122) || (leb 48 c && leb c 57)

-- One round of the loop of `slugify`: what is built so far, its last byte in front, and whether that
-- is a dash.
abbrev slug_step : ℕ → Bytes × Bool → Bytes × Bool
slug_step c (out, prev_dash) =
    if is_alnum c
    then (c ∷ out, false)
    else if not prev_dash && not (is_empty out)
    then (45 ∷ out, true)
    else (out, prev_dash)

unfoldable pub slug_from : Bytes × Bool → Bytes → Bytes
slug_from (out, prev_dash) [] = reverse out
slug_from built (c ∷ s) = slug_from (slug_step c built) s

abbrev pub or_device : Bytes → Bytes
or_device s = if is_empty s then codes "device" else s

-- `strings.Trim(s, "-")`
abbrev trim_dashes : Bytes → Bytes
trim_dashes s = trim_right_by (λ c. c == 45) (drop_while (λ c. c == 45) s)

-- `slugify`
unfoldable pub slugify : Bytes → Bytes
unfolding slug_from
slugify s =
    let t = to_lower (trim_space s) in
    if is_empty t then codes "device" else or_device (trim_dashes (slug_from ([], false) t))

abbrev pub numbered : Bytes → ℕ → Bytes
numbered base i = base ++ codes "-" ++ itoa i

-- The loop of `uniqueAlias` from number `i`, with so many numbers left.
unfoldable pub first_free : Bytes → Dict Device → ℕ → ℕ → Bytes
unfolding lookup
first_free base devices i zero = base
first_free base devices i (suc n) =
    let later = first_free base devices (suc i) n in
    if is_some (lookup (numbered base i) devices) then later else numbered base i

-- `uniqueAlias`
unfoldable pub unique_alias : Bytes → Config → Bytes
unfolding first_free lookup
unique_alias base cfg =
    if is_some (lookup base cfg.devices) then first_free base cfg.devices 2 998 else base

abbrev Answers : Type 0
Answers = List (Option Bytes)

-- `reader.ReadString('\n')`
abbrev pub read_line : Answers → Option Bytes × Answers
read_line [] = (some [], [])
read_line (a ∷ answers) = (a, answers)

abbrev answer_or : Bytes → Bytes → Bytes
answer_or def line = if is_empty (trim_space (trim_crlf line)) then def else trim_crlf line

-- `promptDefault`
abbrev pub prompt_default : Bytes → Option Bytes × Answers → Option Bytes × Answers
prompt_default def (none, answers) = (none, answers)
prompt_default def (some line, answers) = (some (answer_or def line), answers)

pub data Index : Type 0 where
  chosen : ℕ → Index
  unread invalid : Index

-- An index from 1 to `n`.
abbrev in_list : ℕ → Option ℤ → Option ℕ
in_list n none = none
in_list n (some (negsuc i)) = none
in_list n (some (pos zero)) = none
in_list n (some (pos (suc i))) = if leb (suc i) n then some i else none

-- The loop of `promptIndex`, with so many attempts left.
unfoldable pub prompt_index : ℕ → ℕ → Answers → Index × Answers
unfolding atoi
prompt_index zero n answers = (invalid, answers)
prompt_index (suc attempts) n answers =
    let (line, rest) = read_line answers in
    let later = prompt_index attempts n rest in
    elim line [
      | none ↦ (unread, rest)
      | some l ↦ elim (in_list n (atoi (trim_space l))) [ none ↦ later | some i ↦ (chosen i, rest) ]
    ]

pub data End : Type 0 where
  saved : Bytes → Device → End
  search_failed no_receiver aborted read_failed invalid_selection alias_taken save_failed : End

abbrev pub is_saved : End → Bool
is_saved (saved alias d) = true
is_saved _ = false

-- An answer that begins with `n` in either case
abbrev says_no : Bytes → Bool
says_no ans = has_prefix (to_lower (trim_space ans)) (codes "n")

abbrev pub device_of : Fetch.Device → Device
device_of picked = record {
  host = picked.host;
  udn = picked.udn;
  device_id = [];
  default_zone = codes "main";
}

abbrev pub with_picked : Bytes → Fetch.Device → Config → Config
with_picked alias picked cfg = record {
  default_device = if is_empty cfg.default_device then alias else cfg.default_device;
  devices = insert alias (device_of picked) cfg.devices;
}

-- A command's end, and the config file behind it.
module _ (save_fails : Config → Bool) where
  pub save_as : Fetch.Device → Config → Bytes → End × Config
  unfolding insert
  save_as picked cfg alias =
      let cfg' = with_picked alias picked cfg in
      if save_fails cfg' then (save_failed, cfg) else (saved alias (device_of picked), cfg')

  confirmed : Fetch.Device → Config → Bytes → Option Bytes → End × Config
  unfolding save_as unique_alias
  confirmed picked cfg alias none = (read_failed, cfg)
  confirmed picked cfg alias (some ans) =
      if says_no ans then (alias_taken, cfg) else save_as picked cfg (unique_alias alias cfg)

  -- An alias that is there already gets a number, if the user agrees.
  named : Fetch.Device → Config → Answers → Bytes → End × Config
  unfolding confirmed lookup
  named picked cfg answers alias =
      if is_some (lookup alias cfg.devices)
      then confirmed picked cfg alias (prompt_default (codes "y") (read_line answers)).0
      else save_as picked cfg alias

  named_by : Fetch.Device → Config → Bytes → Option Bytes × Answers → End × Config
  unfolding named
  named_by picked cfg default_alias (none, answers) = (read_failed, cfg)
  named_by picked cfg default_alias (some raw, answers) =
      named picked cfg answers (if is_empty (trim_space raw) then default_alias else trim_space raw)

  name_and_save : Fetch.Device → Config → Answers → End × Config
  unfolding named_by unique_alias slugify
  name_and_save picked cfg answers =
      let default_alias = unique_alias (slugify picked.name) cfg in
      named_by picked cfg default_alias (prompt_default default_alias (read_line answers))

  at_index : List Fetch.Device → Config → ℕ → Answers → End × Config
  unfolding name_and_save
  at_index [] cfg i answers = (invalid_selection, cfg)
  at_index (d ∷ devs) cfg zero answers = name_and_save d cfg answers
  at_index (d ∷ devs) cfg (suc i) answers = at_index devs cfg i answers

  of_list : List Fetch.Device → Config → Index × Answers → End × Config
  unfolding at_index
  of_list devs cfg (chosen i, answers) = at_index devs cfg i answers
  of_list devs cfg (unread, answers) = (read_failed, cfg)
  of_list devs cfg (invalid, answers) = (invalid_selection, cfg)

  agreed : Fetch.Device → Config → Option Bytes × Answers → End × Config
  unfolding name_and_save
  agreed picked cfg (none, answers) = (read_failed, cfg)
  agreed picked cfg (some ans, answers) =
      if says_no ans then (aborted, cfg) else name_and_save picked cfg answers

  -- `runWizard`
  unfoldable pub run_wizard : Option (List Fetch.Device) → Answers → Config → End × Config
  unfolding agreed of_list prompt_index
  run_wizard none answers cfg = (search_failed, cfg)
  run_wizard (some []) answers cfg = (no_receiver, cfg)
  run_wizard (some (d ∷ [])) answers cfg =
      agreed d cfg (prompt_default (codes "y") (read_line answers))
  run_wizard (some (d ∷ e ∷ devs)) answers cfg =
      of_list (d ∷ e ∷ devs) cfg (prompt_index 5 (length (d ∷ e ∷ devs)) answers)

  -- `discover --add` on a terminal
  unfoldable pub discover_add : Option (List Fetch.Device) → Answers → Config → End × Config
  unfolding name_and_save of_list prompt_index
  discover_add none answers cfg = (search_failed, cfg)
  discover_add (some []) answers cfg = (no_receiver, cfg)
  discover_add (some (d ∷ [])) answers cfg = name_and_save d cfg answers
  discover_add (some (d ∷ e ∷ devs)) answers cfg =
      of_list (d ∷ e ∷ devs) cfg (prompt_index 5 (length (d ∷ e ∷ devs)) answers)
