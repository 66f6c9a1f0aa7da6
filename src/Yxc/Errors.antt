-- ===== src/Yxc/Errors.antt =====
-- pkg/yxc/errors.go: the errors of the HTTP client, and its tests of them in pkg/yxc/client.go.
use yamaha_cli.Prelude.{Bool, true, false, ◌||◌, Option, none, some, ℕ, ℤ, pos, ◌==◌, if◌then◌else◌}
use yamaha_cli.Text.{Bytes, codes, contains}

-- What `errors.Is` finds at the end of a chain.
pub data Leaf : Type 0 where
  canceled deadline_exceeded eof unexpected_eof other : Leaf

-- A failure of the network layer: its leaf, whether the chain has a `net.Error` or a `net.OpError`,
-- and its message.
pub record Failure : Type 0 where
  pub leaf : Leaf
  pub is_net : Bool
  pub message : Bytes

pub data Error : Type 0 where
  -- the `*Error` of a response code
  device : ℤ → Bytes → Error
  transport : Failure → Error
  http_status : ℕ → Bytes → Error
  -- an error that is passed on as it is
  plain : Failure → Error
  -- an error of the context
  context : Leaf → Error
  invalid : Bytes → Error

unfoldable pub is_transport : Error → Bool
is_transport (transport f) = true
is_transport _ = false

abbrev pub leaf_of : Error → Leaf
leaf_of (transport f) = f.leaf
leaf_of (plain f) = f.leaf
leaf_of (context l) = l
leaf_of _ = other

-- `errors.Is(err, context.Canceled)` and `errors.Is(err, context.DeadlineExceeded)`
abbrev pub is_canceled : Leaf → Bool
is_canceled canceled = true
is_canceled _ = false

abbrev pub is_deadline : Leaf → Bool
is_deadline deadline_exceeded = true
is_deadline _ = false

abbrev pub is_eof : Leaf → Bool
is_eof eof = true
is_eof unexpected_eof = true
is_eof _ = false

-- `isTransientNetErr`
unfoldable pub is_transient : Failure → Bool
unfolding contains
is_transient f =
    is_eof f.leaf
    || f.is_net
    || contains f.message (codes "connection reset")
    || contains f.message (codes "broken pipe")

-- The context's error at the time of the test, and the error.
unfoldable pub should_retry : Option Leaf → Error → Bool
unfolding is_transport
should_retry done e =
    if is_canceled (leaf_of e)
    then false
    else if is_deadline (leaf_of e)
    then elim done [ none ↦ true | some l ↦ is_deadline l ]
    else is_transport e

pub data Result {ℓ} (A : Type ℓ) : Type ℓ where
  ok : A → Result A
  err : Error → Result A

-- `newYXCError`, whose message is a function of the code.
unfoldable pub message_of : ℤ → Bytes
message_of (pos n) =
    if n == 5
    then codes "device not ready"
    else if n == 6
    then codes "not found"
    else codes "unknown"
message_of _ = codes "unknown"
