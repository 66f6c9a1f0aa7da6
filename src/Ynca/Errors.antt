-- ===== src/Ynca/Errors.antt =====
-- pkg/ynca/errors.go, and `isTimeout` and `isConnReset` of pkg/ynca/client.go.
-- A Go error chain is the error of this package on top, then perhaps a `net.OpError`, then a leaf.
use yamaha_cli.Prelude.{Bool, true, false, ◌&&◌, ◌||◌, [], Option, none, some}
use yamaha_cli.Text.{Bytes, codes, contains}

-- The innermost error. `timeout` is a deadline of the socket or an errno that says so.
pub data Leaf : Type 0 where
  canceled deadline_exceeded eof unexpected_eof closed_pipe closed : Leaf
  conn_reset broken_pipe conn_aborted conn_refused timeout other : Leaf

pub record Cause : Type 0 where
  -- wrapped in a `net.OpError`
  pub op : Bool
  pub leaf : Leaf
  -- what the leaf's `Error()` says
  pub text : Bytes

pub data Error : Type 0 where
  dial : Cause → Error
  io : Cause → Error
  protocol : Bytes → Error
  -- the request, and the receiver's line
  undefined restricted : Bytes → Bytes → Error
  no_reply too_many_lines unsupported empty_line : Error
  -- a plain `errors.New` or `fmt.Errorf` of an argument check
  invalid : Bytes → Error

pub data Result {ℓ} (A : Type ℓ) : Type ℓ where
  ok : A → Result A
  err : Error → Result A

infixl 5 ◌>>=◌
abbrev pub ◌>>=◌ {ℓ κ} : {A : Type ℓ} {B : Type κ} → Result A → (A → Result B) → Result B
ok a >>= f = f a
err e >>= f = err e

abbrev pub plain : Leaf → Cause
plain l = record { op = false; leaf = l; text = [] }

-- `errors.Is(err, leaf)` walks the chain.
abbrev pub cause_of : Error → Option Cause
cause_of (dial c) = some c
cause_of (io c) = some c
cause_of _ = none

-- The leaves that implement `net.Error`: the deadlines, and every errno.
abbrev leaf_is_net_error : Leaf → Bool
leaf_is_net_error deadline_exceeded = true
leaf_is_net_error conn_reset = true
leaf_is_net_error broken_pipe = true
leaf_is_net_error conn_aborted = true
leaf_is_net_error conn_refused = true
leaf_is_net_error timeout = true
leaf_is_net_error _ = false

abbrev leaf_is_timeout : Leaf → Bool
leaf_is_timeout deadline_exceeded = true
leaf_is_timeout timeout = true
leaf_is_timeout _ = false

-- `errors.As(err, &ne)` and then `ne.Timeout()`, which a `net.OpError` takes from its leaf.
unfoldable pub is_timeout : Cause → Bool
is_timeout c = leaf_is_timeout c.leaf

abbrev is_reset_leaf : Leaf → Bool
is_reset_leaf eof = true
is_reset_leaf closed_pipe = true
is_reset_leaf closed = true
is_reset_leaf conn_reset = true
is_reset_leaf broken_pipe = true
is_reset_leaf conn_aborted = true
is_reset_leaf _ = false

unfoldable pub is_conn_reset : Error → Bool
is_conn_reset e = elim (cause_of e) [
  | none ↦ false
  | some c ↦
      is_reset_leaf c.leaf
      || (c.op
          && (contains c.text (codes "broken pipe") || contains c.text (codes "connection reset")))
]

abbrev is_transport_cause : Leaf → Bool → Bool
is_transport_cause canceled op = false
is_transport_cause deadline_exceeded op = false
is_transport_cause eof op = true
is_transport_cause unexpected_eof op = true
is_transport_cause l op = op || leaf_is_net_error l

-- A dial that failed for any reason but the user's interrupt.
abbrev is_not_canceled : Leaf → Bool
is_not_canceled canceled = false
is_not_canceled _ = true

unfoldable pub is_transport : Error → Bool
is_transport (dial c) = is_not_canceled c.leaf
is_transport (io c) = is_transport_cause c.leaf c.op
is_transport _ = false
