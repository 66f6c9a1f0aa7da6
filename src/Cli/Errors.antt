-- ===== src/Cli/Errors.antt =====
-- internal/cli/errors.go: the errors of commands, and the exit codes that they map to.
pub mod Table
use yamaha_cli.Prelude.{
  ℕ, Bool, true, false, ◌||◌, ◌&&◌, List, [], ◌∷◌, Option, none, some, if◌then◌else◌,
}
use yamaha_cli.Text.{Bytes, codes, has_prefix, contains}
use yamaha_cli.Ynca.Errors as Ynca
use yamaha_cli.Yxc.Errors as Yxc

-- One error of a chain.
pub data Kind : Type 0 where
  cancelled no_device no_device_configured unreachable no_receiver_found : Kind
  validation power_on_timeout usage : Kind
  -- `context.Canceled`
  canceled : Kind
  yxc : Yxc.Error → Kind
  ynca : Ynca.Error → Kind
  other : Kind

-- The chain, from the outermost error inwards, and the message of the whole.
pub record Error : Type 0 where
  pub chain : List Kind
  pub message : Bytes

-- `errors.As` and `errors.Is`
unfoldable pub has : (Kind → Bool) → List Kind → Bool
has p [] = false
has p (k ∷ ks) = p k || has p ks

abbrev is_canceled_cause : Ynca.Leaf → Bool
is_canceled_cause Ynca.canceled = true
is_canceled_cause _ = false

-- The user's interrupt.
unfoldable pub is_interrupt : Kind → Bool
is_interrupt cancelled = true
is_interrupt canceled = true
is_interrupt (yxc e) = Yxc.is_canceled (Yxc.leaf_of e)
is_interrupt (ynca e) = elim (Ynca.cause_of e) [ none ↦ false | some c ↦ is_canceled_cause c.leaf ]
is_interrupt _ = false

unfoldable pub is_no_device : Kind → Bool
is_no_device no_device = true
is_no_device no_device_configured = true
is_no_device _ = false

-- Unreachable, nothing found, or an error of either transport.
unfoldable pub is_unavailable : Kind → Bool
unfolding Yxc.is_transport Ynca.is_transport
is_unavailable unreachable = true
is_unavailable no_receiver_found = true
is_unavailable (yxc e) = Yxc.is_transport e
is_unavailable (ynca e) = Ynca.is_transport e
is_unavailable _ = false

-- `yxc.IsTransport`
unfoldable pub is_yxc_transport : Kind → Bool
unfolding Yxc.is_transport
is_yxc_transport (yxc e) = Yxc.is_transport e
is_yxc_transport _ = false

-- `errors.Is(err, context.Canceled)`
unfoldable pub is_context_canceled : Kind → Bool
unfolding is_interrupt
is_context_canceled cancelled = false
is_context_canceled k = is_interrupt k

-- A response code, or a command that is not known.
unfoldable pub is_unsupported : Kind → Bool
is_unsupported (yxc (Yxc.device code method)) = true
is_unsupported (ynca (Ynca.undefined request reply)) = true
is_unsupported _ = false

unfoldable pub is_restricted : Kind → Bool
is_restricted (ynca (Ynca.restricted request reply)) = true
is_restricted _ = false

unfoldable pub is_generic : Kind → Bool
is_generic validation = true
is_generic power_on_timeout = true
is_generic _ = false

unfoldable pub is_usage : Kind → Bool
is_usage usage = true
is_usage _ = false

-- `isCobraUsageError`
unfoldable pub is_cobra_usage_error : Bytes → Bool
unfolding has_prefix contains
is_cobra_usage_error s =
    has_prefix s (codes "unknown flag")
    || has_prefix s (codes "unknown command")
    || has_prefix s (codes "unknown shorthand flag")
    || has_prefix s (codes "flag needs an argument")
    || has_prefix s (codes "invalid argument")
    || contains s (codes "requires ") && contains s (codes "arg")

-- The code of the first test that holds.
unfoldable pub ranked : Bool → Bool → Bool → Bool → Bool → Bool → Bool → Bool → ℕ
ranked interrupt no_dev unavailable unsupported restricted generic misuse cobra =
    if interrupt
    then 130
    else if no_dev
    then 64
    else if unavailable
    then 69
    else if unsupported
    then 70
    else if restricted
    then 75
    else if generic
    then 1
    else if misuse
    then 2
    else if cobra
    then 2
    else 1

unfoldable pub exit_code : Error → ℕ
unfolding ranked has is_interrupt is_no_device is_unavailable is_unsupported is_restricted
    is_generic is_usage is_cobra_usage_error
exit_code e =
    let ks = e.chain in
    ranked (has is_interrupt ks) (has is_no_device ks) (has is_unavailable ks)
      (has is_unsupported ks) (has is_restricted ks) (has is_generic ks) (has is_usage ks)
      (is_cobra_usage_error e.message)

-- `ErrorExitCode`, of an error or of none.
unfoldable pub error_exit_code : Option Error → ℕ
unfolding exit_code
error_exit_code none = 0
error_exit_code (some e) = exit_code e
