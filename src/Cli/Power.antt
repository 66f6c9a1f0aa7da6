-- ===== src/Cli/Power.antt =====
-- internal/cli/power.go: the argument of `power`, and the wait for a zone that was turned on. Time is
-- in milliseconds. What each poll of the status comes to, how long it takes, and when the context is
-- done are a `Script`; where a tick and the end of the context fall together, the context is taken.
pub mod Wait
use yamaha_cli.Prelude.{
  ℕ, zero, suc, ◌+◌, ◌-◌, ◌*◌, ◌/◌, max, Bool, true, false, not, Option, none, some, ltb, leb,
  if◌then◌else◌,
}
use yamaha_cli.Text.{Bytes, codes, equal}

abbrev pub power_on_timeout : ℕ
power_on_timeout = 10_000

abbrev pub power_poll_interval : ℕ
power_poll_interval = 200

-- `none` is a usage error.
unfoldable pub map_power_arg : Bytes → Option Bytes
unfolding equal
map_power_arg arg =
    if equal arg (codes "on")
    then some (codes "on")
    else if equal arg (codes "off")
    then some (codes "standby")
    else if equal arg (codes "standby")
    then some (codes "standby")
    else if equal arg (codes "toggle")
    then some (codes "toggle")
    else none

-- `shouldWaitForOn`; the state before is "on" or another.
unfoldable pub should_wait_for_on : Bytes → Bytes → Bool
unfolding equal
should_wait_for_on arg prior =
    if equal arg (codes "on")
    then true
    else if equal arg (codes "toggle")
    then not (equal prior (codes "on"))
    else false

-- `pollPowerOnce`: the zone is on or not, or an error, `context.Canceled` or another.
pub data Poll : Type 0 where
  is_on is_off poll_failed poll_canceled : Poll

pub record Script : Type 0 where
  pub poll : ℕ → Poll
  pub takes : ℕ → ℕ
  pub cancel_at : Option ℕ

pub data Outcome : Type 0 where
  turned_on : Outcome
  timed_out : Outcome
  canceled : Outcome

pub record State : Type 0 where
  pub now : ℕ
  pub next_tick : ℕ
  pub polls : ℕ

abbrev pub is_over : Option ℕ → ℕ → Bool
is_over none t = false
is_over (some c) t = leb c t

pub data Next : Type 0 where
  again : State → Next
  stop : Outcome → State → Next

-- A wait that begins at `start`.
module _ (script : Script) (start : ℕ) where
  abbrev pub deadline : ℕ
  deadline = start + power_on_timeout

  -- The first tick behind `t`; a tick that nobody has taken is kept, further ones are dropped.
  unfoldable pub tick_after : ℕ → ℕ
  tick_after t = start + ((t - start) / power_poll_interval + 1) * power_poll_interval

  -- The state behind the next poll.
  abbrev pub polled : State → State
  polled s = record s { now = s.now + script.takes s.polls; polls = suc s.polls }

  abbrev pub by_poll : Poll → State → Next
  by_poll is_on s = stop turned_on s
  by_poll is_off s = again s
  by_poll poll_failed s = again s
  by_poll poll_canceled s = stop canceled s

  unfoldable pub poll_once : State → Next
  poll_once s = by_poll (script.poll s.polls) (polled s)

  -- The tick is awaited and taken.
  unfoldable pub ticked : State → State
  unfolding tick_after
  ticked s = let now = max s.now s.next_tick in record s { now = now; next_tick = tick_after now }

  unfoldable pub wait_round : State → Next
  unfolding ticked poll_once
  wait_round s =
      if not (ltb s.now deadline)
      then stop timed_out s
      else if is_over script.cancel_at (max s.now s.next_tick)
      then stop canceled s
      else poll_once (ticked s)

  unfoldable pub wait_loop : ℕ → Next → Option (Outcome × State)
  unfolding wait_round
  wait_loop fuel (stop o s) = some (o, s)
  wait_loop zero (again s) = none
  wait_loop (suc fuel) (again s) = wait_loop fuel (wait_round s)

  abbrev pub begin_wait : State
  begin_wait = record { now = start; next_tick = start + power_poll_interval; polls = 0 }

  -- `waitForPowerOn`: a poll at once, and one at each tick. `none` is out of fuel.
  unfoldable pub wait_for_power_on : Option (Outcome × State)
  unfolding wait_loop poll_once
  wait_for_power_on = wait_loop (power_on_timeout / power_poll_interval + 1) (poll_once begin_wait)
