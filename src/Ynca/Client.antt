-- ===== src/Ynca/Client.antt =====
-- pkg/ynca/client.go: the one-shot client. The network is a script: what each dial brings, and for
-- each connection what the deadlines, the writes and the reads do. A call runs under the client's
-- mutex, so it is a function of the client's state.
pub mod Probe
pub mod Healthy
pub mod Faults
pub mod Writes
use yamaha_cli.Prelude.{
  ℕ, zero, suc, Bool, true, false, List, [], ◌∷◌, ◌++◌, Option, none, some, ◌==◌, if◌then◌else◌,
  map, take,
}
use yamaha_cli.Text.{Bytes, codes, equal, has_prefix, trim_crlf}
use yamaha_cli.Ynca.Errors.{
  Leaf, canceled, eof, Cause, plain, Error, dial, io, no_reply, too_many_lines, unsupported,
  empty_line, Result, ok, err, ◌>>=◌, is_timeout, is_conn_reset,
}
use yamaha_cli.Ynca.Framing.{crlf}
use yamaha_cli.Ynca.Wire.{Line, parse_line, classify_reply}

-- A step that fails, with the error of the context if that is done by then.
pub record Fault : Type 0 where
  pub context : Option Leaf
  pub cause : Cause

-- What the scanner's next call gives: a line, the end of the input, or an error of the read.
pub data Read : Type 0 where
  line : Bytes → Read
  ended : Option Leaf → Read
  failed : Fault → Read

-- An open connection: the outcomes of its `Set…Deadline` calls and of its writes (`none` is success,
-- as is all that a list leaves off), and its input. A write that fails has written so many bytes. An
-- empty input has ended.
pub record Conn : Type 0 where
  pub deadlines : List (Option Cause)
  pub writes : List (Option (ℕ × Fault))
  pub reads : List Read

pub data Dial : Type 0 where
  refused : Cause → Dial
  -- the lines that arrive while a wake exchange drains the connection, and the connection
  connected : List Bytes → Conn → Dial

pub record Client : Type 0 where
  pub wake_on_connect : Bool
  pub conn : Option Conn
  pub dials : List Dial
  -- what each write put on the wire, in order
  pub wire : List Bytes

abbrev pub close : Client → Client
close c = record c { conn = none }

-- The context's error before the error at hand.
abbrev fault_error : Fault → Error
fault_error f = elim f.context [ some l ↦ io (plain l) | none ↦ io f.cause ]

-- The error of a read: a timeout is no reply, and the end of the input is `io.EOF`.
pub read_error : Read → Error
unfolding is_timeout
read_error (line l) = io (plain eof)
read_error (ended (some l)) = io (plain l)
read_error (ended none) = io (plain eof)
read_error (failed f) = elim f.context [
  | some l ↦ io (plain l)
  | none ↦ if is_timeout f.cause then no_reply else io f.cause
]

-- The next outcome of a script of deadlines or writes.
next_outcome {ℓ} : {A : Type ℓ} → List (Option A) → Option A × List (Option A)
next_outcome [] = (none, [])
next_outcome (o ∷ os) = (o, os)

set_deadline : Conn → Option Cause × Conn
unfolding next_outcome
set_deadline k = let (o, rest) = next_outcome k.deadlines in (o, record k { deadlines = rest })

-- The write deadline, then the read deadline.
pub set_deadlines : Conn → Option Cause × Conn
unfolding set_deadline
set_deadlines k =
    let (o, k') = set_deadline k in elim o [ some e ↦ (some e, k') | none ↦ set_deadline k' ]

pub write_conn : Conn → Option (ℕ × Fault) × Conn
unfolding next_outcome
write_conn k = let (o, rest) = next_outcome k.writes in (o, record k { writes = rest })

abbrev wake_line : Bytes
wake_line = codes "@SYS:MODELNAME=?" ++ crlf

-- `wakeLocked`: a failed step gives up, and a ping that went out drains what arrives at once.
wake : List Bytes → Conn → Conn × List Bytes
unfolding set_deadlines write_conn
wake early k =
    let with_early = λ (k : Conn). record k { reads = map Read.line early ++ k.reads } in
    let (bad_deadline, k1) = set_deadlines k in
    elim bad_deadline [
      | some e ↦ (with_early k1, [])
      | none ↦
          let (bad_write, k2) = write_conn k1 in
          elim bad_write [
            | some (n, f) ↦ (with_early k2, take n wake_line ∷ [])
            | none ↦ (k2, wake_line ∷ [])
          ]
    ]

open_dial : Dial → List Dial → Client → Result Conn × Client
unfolding wake
open_dial (refused e) rest c = (err (dial e), record c { dials = rest })
open_dial (connected early k) rest c =
    if c.wake_on_connect
    then (let (k', sent) = wake early k in
        (ok k', record c { dials = rest; conn = some k'; wire = c.wire ++ sent }))
    else (let k' = record k { reads = map Read.line early ++ k.reads } in
        (ok k', record c { dials = rest; conn = some k' }))

abbrev unreachable : Cause
unreachable = plain Leaf.conn_refused

dial_from : List Dial → Client → Result Conn × Client
unfolding open_dial
dial_from [] c = (err (dial unreachable), c)
dial_from (d ∷ rest) c = open_dial d rest c

-- `dialLocked`
pub dial_locked : Client → Result Conn × Client
unfolding dial_from
dial_locked c = dial_from c.dials c

-- The connection that is open, or a new one.
pub connect : Client → Result Conn × Client
unfolding dial_locked
connect c = elim c.conn [ some k ↦ (ok k, c) | none ↦ dial_locked c ]

-- What one exchange on a connection came to.
pub record Exchange {ℓ} (A : Type ℓ) : Type ℓ where
  pub result : Result A
  pub conn : Conn
  pub sent : List Bytes

-- Deadlines and the write, and then the read, which takes the connection's input.
pub transmit {ℓ} : {A : Type ℓ} → Bytes → (List Read → Result A × List Read) → Conn → Exchange A
unfolding set_deadlines write_conn
transmit payload receive k =
    let (bad_deadline, k1) = set_deadlines k in
    elim bad_deadline [
      | some e ↦ record { result = err (io e); conn = k1; sent = [] }
      | none ↦
          let (bad_write, k2) = write_conn k1 in
          elim bad_write [
            | some (n, f) ↦ record {
              result = err (fault_error f);
              conn = k2;
              sent = take n payload ∷ [];
            }
            | none ↦
                let (result, rest) = receive k2.reads in
                record { result = result; conn = record k2 { reads = rest }; sent = payload ∷ [] }
          ]
    ]

-- Any error leaves the stream in an unknown state, so the connection is closed.
pub settle {ℓ} : {A : Type ℓ} → Client → Exchange A → Result A × Client
settle c x = elim x.result [
  | ok a ↦ (ok a, record c { conn = some x.conn; wire = c.wire ++ x.sent })
  | err e ↦ (err e, record c { conn = none; wire = c.wire ++ x.sent })
]

module _ {ℓ} {A : Type ℓ} (payload : Bytes) (receive : List Read → Result A × List Read) where
  pub exchange : Result Conn × Client → Result A × Client
  unfolding transmit settle
  exchange (err e, c) = (err e, c)
  exchange (ok k, c) = settle c (transmit payload receive k)

  -- The frame of `sendOnceLocked` and of `sendMultiOnceLocked`.
  pub once : Client → Result A × Client
  unfolding connect exchange
  once c = exchange (connect c)

-- The line that the next read gives.
pub receive_one : List Read → Result Bytes × List Read
unfolding read_error
receive_one [] = (err (io (plain eof)), [])
receive_one (line l ∷ rest) = (ok l, rest)
receive_one (r ∷ rest) = (err (read_error r), rest)

pub send_once : Bytes → Client → Result Bytes × Client
unfolding once receive_one
send_once l = once (l ++ crlf) receive_one

module _ {ℓ} {A : Type ℓ} (attempt : Client → Result A × Client) where
  pub retry : Result A × Client → Result A × Client
  retry (ok a, c) = (ok a, c)
  retry (err e, c) = if is_conn_reset e then attempt (close c) else (err e, c)

  -- A stale connection is replaced, and the call made once more.
  pub with_retry : Client → Result A × Client
  unfolding retry
  with_retry c = retry (attempt c)

-- The leading `@` is added, and a line end at the tail is dropped.
unfoldable pub normalise : Bytes → Bytes
unfolding has_prefix trim_crlf
normalise l = trim_crlf (if has_prefix l (codes "@") then l else b'@' ∷ l)

classified : Bytes → Result Bytes × Client → Result Bytes × Client
classified l (r, c) = (r >>= classify_reply l, c)

unfoldable pub send : Bytes → Client → Result Bytes × Client
unfolding send_once with_retry classified
send l c =
    if equal l []
    then (err empty_line, c)
    else classified (normalise l) (with_retry (send_once (normalise l)) c)

abbrev pub version_sentinel : Bytes
version_sentinel = codes "@SYS:VERSION=?"

abbrev pub version_echo_prefix : Bytes
version_echo_prefix = codes "@SYS:VERSION="

abbrev pub max_multi_lines : ℕ
max_multi_lines = 1024

unfoldable pub is_fence : Bytes → Bool
unfolding has_prefix
is_fence l = has_prefix l version_echo_prefix

-- The drain of `sendMultiOnceLocked`, with the lines so far and the number of those that still fit.
unfoldable pub receive_until_fence : List Bytes → ℕ → List Read → Result (List Bytes) × List Read
unfolding is_fence read_error
receive_until_fence lines room [] = (err (io (plain eof)), [])
receive_until_fence lines room (line l ∷ rest) = elim (is_fence l) [
  | true ↦ (ok lines, rest)
  | false ↦ elim room [
    | zero ↦ (err too_many_lines, rest)
    | suc room' ↦ receive_until_fence (lines ++ l ∷ []) room' rest
  ]
]
receive_until_fence lines room (r ∷ rest) = (err (read_error r), rest)

pub send_multi_once : Bytes → Client → Result (List Bytes) × Client
unfolding once
send_multi_once l =
    once (l ++ (crlf ++ (version_sentinel ++ crlf))) (receive_until_fence [] max_multi_lines)

unfoldable pub send_multi : Bytes → Client → Result (List Bytes) × Client
unfolding send_multi_once with_retry
send_multi l c =
    if equal l [] then (err empty_line, c) else with_retry (send_multi_once (normalise l)) c
