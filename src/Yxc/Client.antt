-- ===== src/Yxc/Client.antt =====
-- pkg/yxc/client.go: the request engine, with its rate limit and its one retry. The network and the
-- context are a script: what each attempt meets. Time is in milliseconds.
pub mod Retry
pub mod Spacing
use yamaha_cli.Prelude.{
  ℕ, zero, suc, ◌+◌, ◌-◌, ◌*◌, Bool, true, false, List, [], ◌∷◌, ◌++◌, Option, none, some, ℤ, pos,
  negsuc, ltb, ◌==◌, if◌then◌else◌, take, drop,
}
use yamaha_cli.Text.{Bytes, codes, has_prefix, Table}
use yamaha_cli.Yxc.Errors.{
  Leaf, Failure, Error, device, transport, http_status, plain, context, invalid, is_transient,
  should_retry, Result, ok, err,
}

-- What `http.Client.Do` and the read of the body come to.
pub data Answer : Type 0 where
  -- the request failed; the context's error if that is done by then
  failed : Option Leaf → Failure → Answer
  -- a status and a body
  replied : ℕ → Bytes → Answer
  -- the read of the body failed, behind a status of 200
  body_failed : Failure → Answer

pub record Turn : Type 0 where
  -- the context's error if it is done before the wait for the rate limit is over
  pub done_in_wait : Option Leaf
  pub took : ℕ
  pub answer : Answer
  -- the context's error after the attempt
  pub context_after : Option Leaf
  -- the context's error if it is done before the pause in front of a retry is over
  pub done_in_pause : Option Leaf

-- A request that was sent, from its start to its end. The port is 0 if events are not asked for.
pub record Request : Type 0 where
  pub path : Bytes
  pub query : Table
  pub port : ℕ
  pub begun : ℕ
  pub ended : ℕ

pub record Client : Type 0 where
  pub clock : ℕ
  pub last_call : Option ℕ
  pub event_port : ℕ
  pub turns : List Turn
  pub requests : List Request

abbrev pub default_rate_limit : ℕ
default_rate_limit = 100

abbrev pub default_retry_wait : ℕ
default_retry_wait = 250

abbrev pub max_response_body : ℕ
max_response_body = 512 * 1024

abbrev pub api_path_prefix : Bytes
api_path_prefix = codes "/YamahaExtendedControl/v1/"

-- The script that has run out: nothing answers.
abbrev silent_turn : Turn
silent_turn = record {
  done_in_wait = none;
  took = 0;
  answer = failed none (record { leaf = Leaf.other; is_net = true; message = [] });
  context_after = none;
  done_in_pause = none;
}

pub turn_of : List Turn → Turn
turn_of [] = silent_turn
turn_of (t ∷ ts) = t

abbrev pub rest_of : List Turn → List Turn
rest_of [] = []
rest_of (t ∷ ts) = ts

-- `rateLimitWait`: until the limit has passed since the last call, or the context is done.
pub rate_limit_wait : Option Leaf → Client → Client
rate_limit_wait (some _) c = c
rate_limit_wait none c = elim c.last_call [
  | none ↦ c
  | some t ↦
      if ltb c.clock (t + default_rate_limit)
      then record c { clock = t + default_rate_limit }
      else c
]

abbrev pub mark : Client → Client
mark c = record c { last_call = some c.clock }

pub code_result : Bytes → Bytes → Option ℤ → Result Bytes
code_result method raw none = err (invalid method)
code_result method raw (some (pos zero)) = ok raw
code_result method raw (some code) = err (device code method)

pub transient_error : Failure → Error
unfolding is_transient
transient_error f = if is_transient f then transport f else plain f

abbrev pub sent_at : Client → Bytes → Table → ℕ → ℕ → Request
sent_at c method query port took = record {
  path = api_path_prefix ++ method;
  query = query;
  port = port;
  begun = c.clock;
  ended = c.clock + took;
}

abbrev pub trim_slash : Bytes → Bytes
trim_slash method = if has_prefix method (codes "/") then drop 1 method else method

-- `json.Unmarshal` of the response code is a parameter.
module _ (response_code : Bytes → Option ℤ) where
  -- What `doOnce` makes of an answer.
  pub outcome : Bytes → Answer → Result Bytes
  unfolding code_result transient_error
  outcome method (failed (some l) f) = err (context l)
  outcome method (failed none f) = err (transient_error f)
  outcome method (replied n raw) =
      let kept = take max_response_body raw in
      let result = code_result method kept (response_code kept) in
      if n == 200 then result else err (http_status n method)
  outcome method (body_failed f) = err (transient_error f)

  -- One attempt: the wait, the request and the mark.
  pub attempt : Bytes → Table → ℕ → Client → Result Bytes × Client
  unfolding rate_limit_wait outcome turn_of
  attempt method query port c =
      let t = turn_of c.turns in
      let w = rate_limit_wait t.done_in_wait c in
      (
        outcome method t.answer,
        mark (record w {
          clock = w.clock + t.took;
          turns = rest_of c.turns;
          requests = w.requests ++ sent_at w method query port t.took ∷ [];
        }),
      )

  -- The second attempt, after the pause.
  pub retry : Bytes → Table → ℕ → Option Leaf → Client → Result Bytes × Client
  unfolding attempt
  retry method query port (some l) c = (err (context l), c)
  retry method query port none c =
      attempt method query port (record c { clock = c.clock + default_retry_wait })

  pub retried : Bytes → Table → ℕ → Turn → Result Bytes × Client → Result Bytes × Client
  unfolding retry should_retry
  retried method query port t (ok raw, c) = (ok raw, c)
  retried method query port t (err e, c) =
      if should_retry t.context_after e
      then retry method query port t.done_in_pause c
      else (err e, c)

  -- `do`, behind the removal of a leading slash.
  pub do_method : Bytes → Table → ℕ → Client → Result Bytes × Client
  unfolding attempt retried
  do_method method query port c =
      retried method query port (turn_of c.turns) (attempt method query port c)

  -- `Do`
  unfoldable pub do_request : Bytes → Table → Client → Result Bytes × Client
  unfolding do_method has_prefix
  do_request method query = do_method (trim_slash method) query 0

  -- `EventDo`
  unfoldable pub event_do : Bytes → Table → Client → Result Bytes × Client
  unfolding do_method has_prefix
  event_do method query c =
      if c.event_port == 0
      then (err (invalid (codes "EventDo requires WithEventPort to be configured")), c)
      else do_method (trim_slash method) query c.event_port c
