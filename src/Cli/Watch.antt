-- ===== src/Cli/Watch.antt =====
-- internal/cli/ynca_watch.go: the loop of `ynca watch`, which holds one connection after another.
-- Times are in milliseconds. What each round meets is a `Round`.
pub mod Patient
use yamaha_cli.Prelude.{
  ℕ, suc, ◌+◌, ◌*◌, min, Bool, true, false, List, [], ◌∷◌, Option, none, some, leb, if◌then◌else◌,
}

abbrev pub ynca_watch_backoff_min : ℕ
ynca_watch_backoff_min = 1_000

abbrev pub ynca_watch_backoff_max : ℕ
ynca_watch_backoff_max = 30_000

abbrev pub ynca_watch_rediscover_after : ℕ
ynca_watch_rediscover_after = 3

-- How a session ended: it could not dial, or otherwise.
pub data RunEnd : Type 0 where
  dial_error dropped : RunEnd

pub record Round : Type 0 where
  pub run_end : RunEnd
  -- whether the address can be settled, if that is tried
  pub settles : Bool
  -- whether the context is done after the session, after a try that fails, and in the wait
  pub done_after_run : Bool
  pub done_after_settle : Bool
  pub done_in_wait : Bool

pub record State : Type 0 where
  pub backoff : ℕ
  pub dial_failures : ℕ

-- A round that came to its wait: whether it tried to settle the address, and how long it waits.
pub record Waiting : Type 0 where
  pub tried : Bool
  pub state : State

-- The end of the loop, with exit code 0, is `none`.
unfoldable pub settle_address : Round → State → Option Waiting
settle_address r s =
    if r.settles
    then some (record {
      tried = true;
      state = record { backoff = ynca_watch_backoff_min; dial_failures = 0 };
    })
    else if r.done_after_settle
    then none
    else some (record { tried = true; state = record s { dial_failures = 0 } })

abbrev pub count_failure : RunEnd → Round → State → Option Waiting
unfolding settle_address
count_failure dropped r s = some (record { tried = false; state = record s { dial_failures = 0 } })
count_failure dial_error r s =
    if leb ynca_watch_rediscover_after (suc s.dial_failures)
    then settle_address r s
    else some (record { tried = false; state = record s { dial_failures = suc s.dial_failures } })

unfoldable pub after_run : Round → State → Option Waiting
unfolding count_failure
after_run r s = if r.done_after_run then none else count_failure r.run_end r s

unfoldable pub next_state : State → State
next_state s = record s { backoff = min (s.backoff * 2) ynca_watch_backoff_max }

-- The waits of the loop that begin, for the rounds that are given.
unfoldable pub watch : List Round → State → List Waiting
unfolding after_run next_state
watch [] s = []
watch (r ∷ rounds) s = elim (after_run r s) [
  | none ↦ []
  | some w ↦
      let rest = watch rounds (next_state w.state) in w ∷ (if r.done_in_wait then [] else rest)
]

abbrev pub begin_watch : State
begin_watch = record { backoff = ynca_watch_backoff_min; dial_failures = 0 }
