-- ===== src/Yxc/Events.antt =====
-- pkg/yxc/events.go: the subscription to pushed events, as a state machine. The supervisor's
-- `select` takes one input at a time; a call of `subscribe` runs to its end within a step.
pub mod Machine
pub mod Backoffs
use yamaha_cli.Prelude.{
  ℕ, zero, suc, ◌+◌, ◌*◌, Bool, true, false, ◌&&◌, ◌||◌, not, List, [], ◌∷◌, ◌++◌, Option, none,
  some, ℤ, pos, negsuc, ltb_ℤ, ◌==◌, if◌then◌else◌, ◌≡◌,
}
use yamaha_cli.Text.{Bytes, codes}
use yamaha_cli.Yxc.Backoff.{next_backoff}
use yamaha_cli.Yxc.Client.{Client, event_do}
use yamaha_cli.Yxc.Errors.{Error, invalid, Result, ok, err}
use yamaha_cli.Yxc.Zone.{valid_zone}

-- An IP address as a number.
abbrev pub Address : Type 0
Address = ℕ

pub data Event : Type 0 where
  subscribed : Event
  renewed : Event
  reconnect : Error → Event
  shutdown : Error → Event
  -- a packet and its sender
  pushed : Bytes → Address → Event

-- The durations, in nanoseconds.
pub record Subscriber : Type 0 where
  pub backoff_min : ℤ
  pub backoff_max : ℤ
  pub silent_after : ℤ
  pub renew_interval : ℤ

abbrev pub second : ℕ
second = 1000000000

pub or_default : ℤ → ℤ → ℤ
or_default d (pos (suc n)) = pos (suc n)
or_default d _ = d

abbrev pub at_least : ℤ → ℤ → ℤ
at_least low z = if ltb_ℤ z low then low else z

-- The defaults for what is not set.
unfoldable pub with_defaults : Subscriber → Subscriber
unfolding or_default
with_defaults s =
    let low = or_default (pos second) s.backoff_min in
    record {
      backoff_min = low;
      backoff_max = at_least low (or_default (pos (60 * second)) s.backoff_max);
      silent_after = or_default (pos (30 * second)) s.silent_after;
      renew_interval = or_default (pos (8 * 60 * second)) s.renew_interval;
    }

pub data Phase : Type 0 where
  -- between two first subscriptions
  waiting : Phase
  steady : Phase
  -- in `recover`
  recovering : Phase
  stopped : Phase

pub record State : Type 0 where
  pub phase : Phase
  pub backoff : ℤ
  -- the waits that ran out, in order
  pub slept : List ℤ
  pub emitted : List Event
  pub client : Client

-- What the `select` of a phase takes.
pub data Input : Type 0 where
  cancelled : Error → Input
  -- the backoff has passed
  elapsed : Input
  packet : Bytes → Address → Input
  reader_failed : Error → Input
  renew_due : Input
  silent : Input

unfoldable pub member : Address → List Address → Bool
member a [] = false
member a (b ∷ bs) = a == b || member a bs

-- No addresses means that there is no filter.
unfoldable pub accepts : List Address → Address → Bool
unfolding member
accepts [] a = true
accepts (b ∷ bs) a = member a (b ∷ bs)

abbrev pub emit : Event → State → State
emit e s = record s { emitted = s.emitted ++ e ∷ [] }

abbrev pub stop : Error → State → State
stop e s = emit (shutdown e) (record s { phase = stopped })

abbrev pub slept_on : State → State
slept_on s = record s { slept = s.slept ++ s.backoff ∷ [] }

module _ (response_code : Bytes → Option ℤ) (zones : List Bytes) (min max : ℤ)
    (expected : List Address) where
  zone_result :
      (Client → Result (Unit {0}) × Client) → Result Bytes × Client → Result (Unit {0}) × Client
  zone_result rest (err e, c) = (err e, c)
  zone_result rest (ok raw, c) = rest c

  -- One `EventDo` for each zone, up to the first error.
  pub subscribe : List Bytes → Client → Result (Unit {0}) × Client
  unfolding zone_result event_do valid_zone
  subscribe [] c = (ok tt, c)
  subscribe (z ∷ zs) c =
      let rest = subscribe zs in
      elim (valid_zone z) [
        | err e ↦ (err e, c)
        | ok zn ↦ zone_result rest (event_do response_code (zn ++ codes "/getStatus") [] c)
      ]

  -- The first subscription.
  pub registered : State → Result (Unit {0}) × Client → State
  registered s (ok _, c) = emit subscribed (record s { phase = steady; backoff = min; client = c })
  registered s (err e, c) = emit (reconnect e) (record s { phase = waiting; client = c })

  pub register : State → State
  unfolding subscribe registered
  register s = registered s (subscribe zones s.client)

  -- An attempt of `recover`.
  pub recovered : State → Result (Unit {0}) × Client → State
  unfolding next_backoff
  recovered s (ok _, c) = emit subscribed (record s { phase = steady; backoff = min; client = c })
  recovered s (err e, c) =
      emit (reconnect e)
        (record s { phase = recovering; backoff = next_backoff s.backoff max; client = c })

  pub recover : State → State
  unfolding subscribe recovered
  recover s = recovered s (subscribe zones s.client)

  pub renewal : State → Result (Unit {0}) × Client → State
  renewal s (ok _, c) = emit renewed (record s { client = c })
  renewal s (err e, c) = emit (reconnect e) (record s { phase = recovering; client = c })

  abbrev pub no_events : Error
  no_events = invalid (codes "no events")

  -- One turn of the supervisor; nothing for an input that the phase does not listen to.
  unfoldable pub step : Phase → Input → State → Option State
  unfolding register recover renewal subscribe next_backoff accepts
  step waiting (cancelled e) s = some (stop e s)
  step waiting elapsed s =
      some (register (record (slept_on s) { backoff = next_backoff s.backoff max }))
  step recovering (cancelled e) s = some (stop e s)
  step recovering elapsed s = some (recover (slept_on s))
  step steady (cancelled e) s = some (stop e s)
  step steady (reader_failed e) s = some (stop e s)
  step steady (packet bytes from) s =
      some (if accepts expected from then emit (pushed bytes from) s else s)
  step steady renew_due s = some (renewal s (subscribe zones s.client))
  step steady silent s = some (emit (reconnect no_events) (record s { phase = recovering }))
  step _ _ s = none

  -- The start of `run`.
  unfoldable pub start : Client → State
  unfolding register
  start c =
      register (record { phase = waiting; backoff = min; slept = []; emitted = []; client = c })

  -- The states that a run can come to.
  pub data Reaches (c : Client) : State → Type 0 where
    begin : Reaches c (start c)
    take : {s t : State} (i : Input) → Reaches c s → step s.phase i s ≡ some t → Reaches c t
