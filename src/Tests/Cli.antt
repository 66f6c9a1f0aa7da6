-- ===== src/Tests/Cli.antt =====
-- Tests of the exit codes and of the rediscovery, and the theorems about them at concrete inputs.
use yamaha_cli.Prelude.{ℕ, suc, true, false, [], ◌∷◌, none, some, refl, if◌then◌else◌}
use yamaha_cli.Text.{codes, equal}
use yamaha_cli.Cli.Errors.{Error, other, yxc, has, is_interrupt, is_no_device, is_yxc_transport}
use yamaha_cli.Config.Schema.{Device, Config}
use yamaha_cli.Cli.Rediscover.{State, found, Actions, run_with_rediscover}
use yamaha_cli.Cli.Rediscover.Codes.{
  IsDead, AllDead, GivesUp, tried_last, run_with_rediscover-exit_code,
}
use yamaha_cli.Cli.Rediscover.Saved.{Changes, run_with_rediscover-Changes}
use yamaha_cli.Yxc.Errors as Yxc

abbrev lost : Error
lost = record {
  chain =
      other ∷ yxc (Yxc.transport (record { leaf = Yxc.other; is_net = true; message = [] })) ∷ [];
  message = codes "status: no route to host";
}

abbrev living_room : Device
living_room = record {
  host = codes "10.0.0.5";
  udn = codes "uuid:1";
  device_id = [];
  default_zone = [];
}

abbrev config : Config
config = record { default_device = codes "living"; devices = (codes "living", living_room) ∷ [] }

abbrev state : State
state = record {
  alias = codes "living";
  device = living_room;
  cfg = some config;
  client = codes "10.0.0.5";
}

-- The device has moved to another address.
abbrev moved_away : Actions ℕ
moved_away = record {
  op = λ host n. (if equal host (codes "10.0.0.9") then none else some lost, suc n);
  lookup_by_udn = λ udn host n. (found (codes "10.0.0.9"), n);
  is_done = λ n. false;
  save = λ cfg n. (none, n);
  new_client = λ host. none;
}

run_with_rediscover-Changes_example :
    Changes moved_away state 0 (run_with_rediscover moved_away state 0).1
run_with_rediscover-Changes_example = run_with_rediscover-Changes moved_away state 0

-- The device is off, and another one has its UDN.
abbrev off : Actions ℕ
off = record {
  op = λ host n. (some lost, suc n);
  lookup_by_udn = λ udn host n. (found (codes "10.0.0.9"), n);
  is_done = λ n. false;
  save = λ cfg n. (none, n);
  new_client = λ host. none;
}

lost-IsDead : IsDead lost
unfolding has is_yxc_transport is_interrupt is_no_device
lost-IsDead = record { transport = refl; no_interrupt = refl; has_device = refl }

off-AllDead : AllDead off state
off-AllDead = record {
  dead = λ host w. (lost, refl, lost-IsDead);
  quiet = λ udn host w e h. cc;
  awake = λ w. refl;
  saves = λ cfg w. refl;
  clients = λ host. refl;
  has_config = (config, refl);
}

run_with_rediscover-exit_code_example :
    GivesUp off (tried_last state (found (codes "10.0.0.9"))) (run_with_rediscover off state 0)
run_with_rediscover-exit_code_example =
    run_with_rediscover-exit_code off state off-AllDead 0 refl refl
