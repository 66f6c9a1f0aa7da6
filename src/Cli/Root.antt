-- ===== src/Cli/Root.antt =====
-- internal/cli/root.go: `setupState`, `needsDevice`, and what `Execute` makes of a command's error. The
-- commands of `config`, and the client, are built elsewhere.
pub mod Settled
pub mod Code
use yamaha_cli.Prelude.{
  Bool, true, false, ◌||◌, ◌&&◌, not, List, [], ◌∷◌, Option, none, some, if◌then◌else◌,
}
use yamaha_cli.Text.{Bytes, codes, is_empty, equal, trim_space, to_lower}
use yamaha_cli.Config.Schema.{Device, Config}
use yamaha_cli.Config.Resolve.{resolve, Resolved, device, not_found, no_device}
use yamaha_cli.Discover.Fetch as Fetch
use yamaha_cli.Cli.Args.{canonical_zone}
use yamaha_cli.Cli.Errors.{
  Kind, cancelled, unreachable, Error, has, is_yxc_transport, is_context_canceled,
}
use yamaha_cli.Cli.Rediscover.{State, unreachable_error}
use yamaha_cli.Cli.Rediscover.Twin.{is_ynca_transport}
use yamaha_cli.Cli.Wizard.{End, saved, run_wizard}

-- `needsDevice`, of a command's name and its parent's, if it has one
unfoldable pub needs_device : Bytes → Option Bytes → Bool
unfolding equal
needs_device name parent =
    if under (codes "config")
    then false
    else if one_of (codes "version" ∷ codes "completion" ∷ codes "help" ∷ codes "discover" ∷ [])
    then false
    else if one_of (codes "__complete" ∷ codes "__completeNoDesc" ∷ [])
    then false
    else if one_of (codes "diff" ∷ codes "list" ∷ [])
    then not (under (codes "ynca"))
    else if one_of (codes "config" ∷ codes "yamaha" ∷ [] ∷ [])
    then false
    else true
  where
    under : Bytes → Bool
    under p = elim parent [ none ↦ false | some q ↦ equal q p ]

    one_of : List Bytes → Bool
    one_of [] = false
    one_of (n ∷ ns) = equal name n || one_of ns

-- The flags, the environment, and the answers if a wizard asks.
pub record Invocation : Type 0 where
  pub host_flag : Bytes
  pub device_flag : Bytes
  pub zone_flag : Bytes
  pub host_env : Bytes
  pub device_env : Bytes
  pub zone_env : Bytes
  pub stdin_tty : Bool
  pub stdout_tty : Bool
  pub found : Option (List Fetch.Device)
  pub answers : List (Option Bytes)
  -- what the file holds when it is loaded again behind a wizard that saved this: `none` is a file
  -- that cannot be loaded, and another run may have saved in the meantime
  pub reload : Config → Option Config

pub data Failure : Type 0 where
  load_failed : Failure
  alias_unknown : Bytes → Failure
  no_device_configured : Failure
  wizard_ended : End → Failure
  bad_zone bad_client : Failure

-- The state of a command: that of its rediscovery, and the zone.
pub data Setup : Type 0 where
  -- a command that needs no device
  bare : Setup
  ready : State → Bytes → Setup
  failed : Failure → Setup

abbrev or_else : Bytes → Bytes → Bytes
or_else z later = if is_empty z then later else z

abbrev clean : Bytes → Bytes
clean z = to_lower (trim_space z)

-- The zone that is asked for: by the flag, the environment, the device, or `main`.
unfoldable pub zone_asked : Invocation → Device → Bytes
zone_asked v d =
    or_else (clean v.zone_flag)
      (or_else (clean v.zone_env) (or_else (clean d.default_zone) (codes "main")))

module _ (save_fails : Config → Bool) (client_fails : Bytes → Bool) where
  pub in_zone : Option Config → Bytes → Device → Option Bytes → Setup
  in_zone cfg alias d none = failed bad_zone
  in_zone cfg alias d (some zone) =
      if client_fails d.host
      then failed bad_client
      else ready (record { alias = alias; device = d; cfg = cfg; client = d.host }) zone

  pub with_device : Invocation → Option Config → Bytes → Device → Setup
  unfolding in_zone canonical_zone zone_asked
  with_device v cfg alias d = in_zone cfg alias d (canonical_zone (zone_asked v d))

  -- `cfg, _ = config.Load()`: the error of the load is not looked at.
  pub after_wizard : Invocation → End × Config → Setup × Option Config
  unfolding with_device
  after_wizard v (saved alias d, cfg) = (with_device v (v.reload cfg) alias d, some cfg)
  after_wizard v (e, cfg) = (failed (wizard_ended e), some cfg)

  pub after_resolve : Invocation → Config → Resolved → Setup × Option Config
  unfolding after_wizard run_wizard
  after_resolve v cfg (device alias d) = (with_device v (some cfg) alias d, some cfg)
  after_resolve v cfg (not_found alias) = (failed (alias_unknown alias), some cfg)
  after_resolve v cfg no_device =
      if v.stdin_tty && v.stdout_tty
      then after_wizard v (run_wizard save_fails v.found v.answers cfg)
      else (failed no_device_configured, some cfg)

  pub loaded : Invocation → Option Config → Setup × Option Config
  unfolding after_resolve resolve
  loaded v none = (failed load_failed, none)
  loaded v (some cfg) =
      after_resolve v cfg (resolve (some cfg) v.host_flag v.device_flag v.host_env v.device_env)

  -- `setupState`, and the configuration that was loaded, or that the wizard saved
  unfoldable pub setup_state :
      Bytes → Option Bytes → Invocation → Option Config → Setup × Option Config
  unfolding loaded needs_device
  setup_state name parent v file = if needs_device name parent then loaded v file else (bare, file)

unfoldable pub is_unreachable : Kind → Bool
is_unreachable unreachable = true
is_unreachable _ = false

unfoldable pub is_cancelled : Kind → Bool
is_cancelled cancelled = true
is_cancelled _ = false

-- `wrapTransportError`
unfoldable pub wrap_transport_error : Error → Error
unfolding has is_yxc_transport is_ynca_transport is_unreachable is_cancelled
wrap_transport_error e =
    if not (has is_yxc_transport e.chain) && not (has is_ynca_transport e.chain)
    then e
    else if has is_unreachable e.chain
    then e
    else if has is_cancelled e.chain
    then e
    else unreachable_error e

-- The `cancelledError` around an error
abbrev pub cancelled_by : Error → Error
cancelled_by e = record { chain = cancelled ∷ e.chain; message = codes "cancelled by user" }

-- The error that `Execute` returns for a command's error
unfoldable pub execute_error : Error → Error
unfolding wrap_transport_error has is_context_canceled
execute_error e =
    wrap_transport_error (if has is_context_canceled e.chain then cancelled_by e else e)
