-- ===== src/Discover/Exchange.antt =====
-- pkg/discover/search.go: one SSDP search over a socket. Time is in nanoseconds. The socket, the
-- context and the clock are a `Net`: what arrives, and when, which writes fail, which calls of
-- `SetReadDeadline` fail, by their time, and when the context is done. A read that has to wait ends at its deadline, or up to `lag` later.
pub mod Reading
pub mod Deadline
pub mod Waited
use yamaha_cli.Prelude.{
  ℕ, zero, suc, ◌+◌, ◌-◌, ◌*◌, ◌/◌, max, min, Bool, true, false, ◌&&◌, List, [], ◌∷◌, Option, none,
  some, if◌then◌else◌, ltb, leb, ◌==◌, length,
}
use yamaha_cli.Text.{Bytes, codes, itoa}
use mathlib.Core.List.{◌++◌}

abbrev pub second : ℕ
second = 1_000_000_000

abbrev pub search_sends : ℕ
search_sends = 3

abbrev pub search_mx : ℕ
search_mx = 1

-- `(wait - searchMX*time.Second)/searchSends`, and 0 where that is below 0.
unfoldable pub resend_interval : ℕ → ℕ
resend_interval wait = (wait - search_mx * second) / search_sends

unfoldable pub m_search : Bytes → Bytes → ℕ → Bytes
m_search host st mx =
    codes "M-SEARCH * HTTP/1.1\r\n"
    ++ codes "HOST: "
    ++ host
    ++ codes "\r\n"
    ++ codes "MAN: \"ssdp:discover\"\r\n"
    ++ codes "MX: "
    ++ itoa mx
    ++ codes "\r\n"
    ++ codes "ST: "
    ++ st
    ++ codes "\r\n"
    ++ codes "\r\n"

-- What a read returns, beside a timeout.
pub data Arrival : Type 0 where
  datagram : Bytes → Bytes → Arrival
  -- a read error that is no timeout
  read_error : Arrival

pub record Timed : Type 0 where
  pub at : ℕ
  pub arrival : Arrival

pub record Net : Type 0 where
  pub arrivals : List Timed
  pub write_fails : ℕ → Bool
  pub deadline_fails : ℕ → Bool
  pub cancel_at : Option ℕ
  pub lag : ℕ

pub data Ending : Type 0 where
  elapsed : Ending
  reply_done : Ending
  ctx_done : Ending
  send_failed : Ending
  deadline_failed : Ending
  read_failed : Ending

pub record State : Type 0 where
  pub now : ℕ
  -- the code's `sent`: the requests that were tried
  pub tried : ℕ
  -- the times of the requests that went out, the last one first
  pub sends : List ℕ
  pub coming : List Timed
  -- what `onReply` was called with, the last one first
  pub handed : List (Bytes × Bytes)

abbrev pub is_done_at : Option ℕ → ℕ → Bool
is_done_at none t = false
is_done_at (some c) t = leb c t

-- The end of a read: `context.AfterFunc` moves the deadline to the time the context is done.
abbrev pub wakes_at : Option ℕ → ℕ → ℕ
wakes_at none until = until
wakes_at (some c) until = min c until

pub data Read : Type 0 where
  got : Arrival → Read
  timed_out : Read

pub data Next : Type 0 where
  again : State → Next
  stop : Ending → State → Next

module _ (net : Net) (start wait : ℕ) (on_reply : Bytes → Bytes → Bool) where
  abbrev pub deadline : ℕ
  deadline = start + wait

  abbrev pub next_send : ℕ → ℕ
  next_send sent = start + sent * resend_interval wait

  abbrev pub is_time_to_send : State → Bool
  is_time_to_send s = ltb s.tried search_sends && leb (next_send s.tried) s.now

  unfoldable pub read_until : State → ℕ
  read_until s = if ltb s.tried search_sends then min deadline (next_send s.tried) else deadline

  -- Nothing came until `until`.
  unfoldable pub wait_until : ℕ → State → Read × State
  wait_until until s =
      (timed_out, if leb until s.now then s else record s { now = until + net.lag })

  -- `conn.ReadFrom`. A deadline that is over fails the read, whether or not a datagram is there.
  unfoldable pub read_from : ℕ → State → List Timed → Read × State
  unfolding wait_until
  read_from until s [] = wait_until until s
  read_from until s (a ∷ coming) =
      if ltb s.now until && ltb a.at until
      then (got a.arrival, record s { now = max s.now a.at; coming = coming })
      else wait_until until s

  -- What the loop makes of a read.
  unfoldable pub after_read : Read × State → Next
  after_read (got (datagram from reply), s) =
      let s' = record s { handed = (from, reply) ∷ s.handed } in
      if on_reply from reply then stop reply_done s' else again s'
  after_read (got read_error, s) =
      if is_done_at net.cancel_at s.now then stop ctx_done s else stop read_failed s
  after_read (timed_out, s) =
      if is_done_at net.cancel_at s.now
      then stop ctx_done s
      else if ltb s.now deadline
      then again s
      else stop elapsed s

  unfoldable pub send_request : State → Next
  send_request s =
      if net.write_fails s.tried
      then (if s.tried == 0 then stop send_failed s else again (record s { tried = suc s.tried }))
      else again (record s { tried = suc s.tried; sends = s.now ∷ s.sends })

  unfoldable pub receive_reply : State → Next
  unfolding after_read read_from read_until
  receive_reply s =
      if net.deadline_fails s.now
      then stop deadline_failed s
      else if is_done_at net.cancel_at s.now
      then stop ctx_done s
      else after_read (read_from (wakes_at net.cancel_at (read_until s)) s s.coming)

  -- One round of the loop.
  unfoldable pub exchange_round : State → Next
  unfolding send_request receive_reply
  exchange_round s = if is_time_to_send s then send_request s else receive_reply s

  -- The loop, with fuel; `none` is out of fuel.
  unfoldable pub exchange_loop : ℕ → State → Option (Ending × State)
  unfolding exchange_round
  exchange_loop zero s = none
  exchange_loop (suc fuel) s = elim (exchange_round s) [
    | stop e s' ↦ some (e, s')
    | again s' ↦ exchange_loop fuel s'
  ]

  abbrev pub begin_exchange : State
  begin_exchange = record { now = start; tried = 0; sends = []; coming = net.arrivals; handed = [] }

  -- `mSearchExchange`
  unfoldable pub m_search_exchange : Option (Ending × State)
  unfolding exchange_loop
  m_search_exchange = exchange_loop (2 * search_sends + length net.arrivals + 1) begin_exchange
