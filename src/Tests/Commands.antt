-- ===== src/Tests/Commands.antt =====
-- Tests of `ynca dump`, `config add`, the wizard and the setup of a command.
use yamaha_cli.Prelude.{◌≡◌, refl, Bool, true, false, List, [], ◌∷◌, none, some, length}
use yamaha_cli.Text.{
  Bytes, codes, scan_lines, trim_space, to_lower, quote, itoa, equal, has_prefix, trim_right_by,
  trim_crlf, drop_while,
}
use yamaha_cli.Ynca.Errors.{Error, no_reply}
use yamaha_cli.Ynca.Client.{Client, Read}
use yamaha_cli.Cli.Dump.{default_dump_commands, write_dump_replies, scan_dump_commands}
use yamaha_cli.Config.Schema.{Device, Config}
use yamaha_cli.Cli.Args.{validate_config_host, canonical_zone}
use yamaha_cli.Cli.Add.{Request, Probe, receiver, run_config_add, saved, alias_exists}
use yamaha_cli.Cli.Add.Store.{Refines, run_config_add-Refines}
use yamaha_cli.Cli.Wizard as Wizard
use yamaha_cli.Cli.Wizard.{slugify, unique_alias, run_wizard, discover_add}
use yamaha_cli.Cli.Wizard.Kept.{Kept, wizards-Kept}
use yamaha_cli.Discover.Fetch as Fetch
use yamaha_cli.Cli.Errors.{Kind, ynca, exit_code}
use yamaha_cli.Cli.Errors as Errors
use yamaha_cli.Cli.Root.{Invocation, setup_state, execute_error}
use yamaha_cli.Cli.Root.Settled.{Fine, setup_state-Settled}
use yamaha_cli.Cli.Root.Code.{exit_code-execute_error}

abbrev idle : Client
idle = record { wake_on_connect = false; conn = none; dials = []; wire = [] }

-- A report, a refusal and a report with a line feed in it, and their fences.
abbrev talk : List Read
talk =
    Read.line (codes "@MAIN:PWR=On")
    ∷ Read.line (codes "@SYS:VERSION=2.87")
    ∷ Read.line (codes "@UNDEFINED")
    ∷ Read.line (codes "@MAIN:VOL=\n@MAIN:MUTE=On")
    ∷ Read.line (codes "@SYS:VERSION=2.87")
    ∷ []

abbrev asks : List Bytes
asks = codes "@MAIN:PWR=?" ∷ codes "@MAIN:VOL=?" ∷ []

abbrev describe : Error → Bytes
describe e = codes "some error"

replies_written :
    write_dump_replies
      (codes "@MAIN:VOL=?")
      (codes "@MAIN:VOL=-40.0" ∷ codes "@UNDEFINED" ∷ codes "a\n\"b" ∷ [])
      []
    ≡ codes "@MAIN:VOL=-40.0\n# @MAIN:VOL=? -> @UNDEFINED\n# @MAIN:VOL=? -> \"a\\n\\\"b\"\n"
unfolding write_dump_replies quote
replies_written = refl

commands_scanned :
    scan_dump_commands (codes "# mine" ∷ codes " @MAIN:PWR=? " ∷ [] ∷ []) ≡ codes "@MAIN:PWR=?" ∷ []
unfolding scan_dump_commands trim_space
commands_scanned = refl

lines_scanned : scan_lines (codes "a\r\n\nb") ≡ codes "a" ∷ [] ∷ codes "b" ∷ []
unfolding scan_lines
lines_scanned = refl

default_count : length default_dump_commands ≡ 115
unfolding default_dump_commands
default_count = refl

hosts :
    (validate_config_host (codes "192.0.2.7") ≡ true)
    × (validate_config_host (codes "rx-v583.lan") ≡ true)
    × (validate_config_host (codes "192.0.2.300") ≡ false)
    × (validate_config_host (codes "http://rx") ≡ false)
    × (validate_config_host (codes "-rx") ≡ false)
unfolding validate_config_host
hosts = (refl, refl, refl, refl, refl)

abbrev den : Device
den = record {
  host = codes "192.0.2.7";
  udn = codes "uuid:1";
  device_id = [];
  default_zone = codes "main";
}

abbrev one_device : Config
one_device = record { default_device = codes "den"; devices = (codes "den", den) ∷ [] }

abbrev add_kitchen : Request
add_kitchen = record {
  alias = codes " kitchen ";
  host_flag = [];
  host_env = codes "rx.lan";
  zone_flag = codes "Zone2";
  set_default = true;
  force = false;
}

-- While the probe runs, another run saves the same alias.
abbrev raced : Probe
raced = record {
  described = receiver (codes "uuid:2");
  interrupted = false;
  meanwhile = λ file. some (record one_device { devices = (codes "kitchen", den) ∷ [] });
}

abbrev alone : Probe
alone = record raced { meanwhile = λ file. file }

abbrev saves : Config → Bool
saves cfg = false

kitchen_added : (run_config_add saves add_kitchen alone (some one_device)).0 ≡ saved
unfolding run_config_add validate_config_host trim_space to_lower canonical_zone
kitchen_added = refl

kitchen_raced : (run_config_add saves add_kitchen raced (some one_device)).0 ≡ alias_exists
unfolding run_config_add validate_config_host trim_space to_lower canonical_zone
kitchen_raced = refl

run_config_add-Refines_example :
    Refines add_kitchen
      (receiver (codes "uuid:2"))
      (some one_device)
      (some one_device)
      (run_config_add saves add_kitchen alone (some one_device))
run_config_add-Refines_example = run_config_add-Refines saves add_kitchen alone (some one_device)

abbrev rx : Fetch.Device
rx = record {
  name = codes "RX-V583 FBE863";
  host = codes "192.0.2.8";
  model = codes "RX-V583";
  base_url = [];
  udn = codes "uuid:3";
}

slug : slugify (codes "RX-V583 (FBE863)!") ≡ codes "rx-v583-fbe863"
unfolding slugify trim_space to_lower trim_right_by drop_while
slug = refl

den_numbered : unique_alias (codes "den") one_device ≡ codes "den-2"
unfolding unique_alias itoa equal
den_numbered = refl

-- The user wants `den`, which is there, and agrees to a number.
den_again :
    (discover_add saves
      (some (rx ∷ []))
      (some (codes "den\n") ∷ some (codes "y\n") ∷ [])
      one_device).0
    ≡ Wizard.saved (codes "den-2") (Wizard.device_of rx)
unfolding discover_add trim_space to_lower itoa trim_crlf equal has_prefix
den_again = refl

wizards-Kept_example :
    Kept one_device (run_wizard saves (some (rx ∷ [])) (some [] ∷ []) one_device).1
    × Kept one_device (discover_add saves (some (rx ∷ [])) (some [] ∷ []) one_device).1
wizards-Kept_example = wizards-Kept saves one_device (some (rx ∷ [])) (some [] ∷ [])

abbrev plain_run : Invocation
plain_run = record {
  host_flag = [];
  device_flag = [];
  zone_flag = codes "ZONE2";
  host_env = [];
  device_env = [];
  zone_env = [];
  stdin_tty = true;
  stdout_tty = true;
  found = none;
  answers = [];
  reload = λ cfg. some cfg;
}

abbrev connects : Bytes → Bool
connects host = false

setup_state-Settled_example : Fine connects plain_run (some one_device) (
    setup_state saves connects (codes "volume") (some (codes "yamaha")) plain_run (some one_device))
setup_state-Settled_example =
    setup_state-Settled saves connects (codes "volume") (some (codes "yamaha")) plain_run
      (some one_device)

abbrev silent : Errors.Error
silent = record { chain = ynca no_reply ∷ []; message = codes "ynca: no reply within timeout" }

exit_code-execute_error_example : exit_code (execute_error silent) ≡ exit_code silent
exit_code-execute_error_example = exit_code-execute_error silent
