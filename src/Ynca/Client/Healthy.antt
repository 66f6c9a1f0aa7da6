-- ===== src/Ynca/Client/Healthy.antt =====
-- On a connection whose deadlines and writes succeed, every request gets its own reply.
use yamaha_cli.Prelude.{
  ℕ, zero, suc, ◌≤◌, ◌≡◌, ◌≢◌, refl, ap, ◌∙◌, List, [], ◌∷◌, ◌++◌, append_assoc, append-nil, some,
  none, true, false, arith, All, length, map,
}
use yamaha_cli.Text.{Bytes, equal_ne}
use yamaha_cli.Ynca.Client.{
  Client, Conn, Read, line, normalise, send, send_multi, is_fence, max_multi_lines,
  version_sentinel, receive_until_fence, once, settle, send_multi_once, with_retry, retry,
}
use yamaha_cli.Ynca.Errors.{Error, too_many_lines, Result, ok, err, is_conn_reset}
use yamaha_cli.Ynca.Framing.{crlf}
use yamaha_cli.Ynca.Wire.{classify_reply}

-- An open connection on which no deadline and no write fails, with this input.
abbrev pub healthy : List Read → Conn
healthy reads = record { deadlines = []; writes = []; reads = reads }

abbrev pub on_healthy : Client → List Read → List Bytes → Client
on_healthy c reads sent = record c { conn = some (healthy reads); wire = c.wire ++ sent }

-- A request takes one line of the input, which is its reply, and leaves the rest.
pub send-on_healthy :
    (l r : Bytes) (rest : List Read) (c : Client) (sent : List Bytes)
    → l ≢ []
    → send l (on_healthy c (line r ∷ rest) sent)
      ≡ (classify_reply (normalise l) r, on_healthy c rest (sent ++ (normalise l ++ crlf) ∷ []))
unfolding send
send-on_healthy l r rest c sent h = rw (equal_ne l [] h, append_assoc)

-- Requests one after the other.
abbrev pub send_all : List Bytes → Client → List (Result Bytes) × Client
send_all [] c = ([], c)
send_all (l ∷ ls) c = let (r, c1) = send l c in let (rs, c2) = send_all ls c1 in (r ∷ rs, c2)

-- A request with the reply that the receiver wrote to it.
abbrev pub requests : List (Bytes × Bytes) → List Bytes
requests = map (λ p. p.0)

abbrev pub replies : List (Bytes × Bytes) → List Read
replies = map (λ p. line p.1)

abbrev pub answers : List (Bytes × Bytes) → List (Result Bytes)
answers = map (λ p. classify_reply (normalise p.0) p.1)

abbrev pub payloads : List (Bytes × Bytes) → List Bytes
payloads = map (λ p. normalise p.0 ++ crlf)

-- The stream of requests and replies stays in step: the k-th request is answered by the k-th reply,
-- an `@UNDEFINED` or `@RESTRICTED` among them too, each request is written once and in order, and
-- what the receiver sent beyond that is left unread.
pub send_all-on_healthy :
    (talk : List (Bytes × Bytes)) (rest : List Read) (c : Client) (sent : List Bytes)
    → All (λ p. p.0 ≢ []) talk
    → send_all (requests talk) (on_healthy c (replies talk ++ rest) sent)
      ≡ (answers talk, on_healthy c rest (sent ++ payloads talk))
send_all-on_healthy [] rest c sent h = rw append-nil
send_all-on_healthy ((l, r) ∷ talk) rest c sent h = rw (
  send-on_healthy l r (replies talk ++ rest) c sent h.0,
  send_all-on_healthy talk rest c (sent ++ (normalise l ++ crlf) ∷ []) h.1,
  append_assoc,
)

abbrev pub report_lines : List Bytes → List Read
report_lines = map line

drains :
    (ls lines : List Bytes) (room : ℕ) (fence : Bytes) (rest : List Read)
    → All (λ l. is_fence l ≡ false) ls
    → length ls ≤ room
    → is_fence fence ≡ true
    → receive_until_fence lines room (report_lines ls ++ line fence ∷ rest)
      ≡ (ok (lines ++ ls), rest)
unfolding receive_until_fence
drains [] lines room fence rest h le f = rw (f, append-nil)
drains (l ∷ ls) lines zero fence rest h le f = absurd (omega arith)
drains (l ∷ ls) lines (suc room) fence rest h le f =
    rw h.0 (drains ls (lines ++ l ∷ []) room fence rest h.1 (omega arith) f ∙ rw append_assoc)

overflows :
    (ls lines : List Bytes) (room : ℕ) (extra : Bytes) (rest : List Read)
    → All (λ l. is_fence l ≡ false) ls
    → length ls ≡ room
    → is_fence extra ≡ false
    → receive_until_fence lines room (report_lines ls ++ line extra ∷ rest)
      ≡ (err too_many_lines, rest)
unfolding receive_until_fence
overflows [] lines zero extra rest h e f = rw f
overflows [] lines (suc room) extra rest h e f = absurd (omega arith)
overflows (l ∷ ls) lines zero extra rest h e f = absurd (omega arith)
overflows (l ∷ ls) lines (suc room) extra rest h e f =
    rw h.0 (overflows ls (lines ++ l ∷ []) room extra rest h.1 (omega arith) f)

module _ {A : Type 0} (payload : Bytes) (receive : List Read → Result A × List Read) where
  -- One exchange on a healthy connection, by what its receiver makes of the input.
  once-on_healthy :
      (reads : List Read) (c : Client) (sent : List Bytes)
      → once payload receive (on_healthy c reads sent)
        ≡ settle (on_healthy c reads sent) (record {
          result = (receive reads).0;
          conn = healthy (receive reads).1;
          sent = payload ∷ [];
        })
  unfolding once
  once-on_healthy reads c sent = refl

  once_received :
      (reads rest : List Read) (c : Client) (sent : List Bytes) (r : Result A)
      → receive reads ≡ (r, rest)
      → once payload receive (on_healthy c reads sent)
        ≡ settle
            (on_healthy c reads sent)
            (record { result = r; conn = healthy rest; sent = payload ∷ [] })
  once_received reads rest c sent r e =
      once-on_healthy reads c sent
      ∙ ap
          (λ x.
            settle (on_healthy c reads sent)
              (record { result = x.0; conn = healthy x.1; sent = payload ∷ [] }))
          e

with_retry_ok :
    {A : Type 0} (attempt : Client → Result A × Client) (c : Client) {c1 : Client} {a : A}
    → attempt c ≡ (ok a, c1)
    → with_retry attempt c ≡ (ok a, c1)
unfolding with_retry
with_retry_ok attempt c e = ap (retry attempt) e

with_retry_err :
    {A : Type 0} (attempt : Client → Result A × Client) (c : Client) {c1 : Client} (e : Error)
    → attempt c ≡ (err e, c1)
    → is_conn_reset e ≡ false
    → with_retry attempt c ≡ (err e, c1)
unfolding with_retry
with_retry_err attempt c e h f = ap (retry attempt) h ∙ rw f

abbrev pub fan_out_payload : Bytes → Bytes
fan_out_payload l = normalise l ++ (crlf ++ (version_sentinel ++ crlf))

-- A fan-out of at most `maxMultiLines` report lines and the fence behind them gives exactly those
-- lines, in order; the fence is consumed, and what follows it is left for the next request.
pub send_multi-on_healthy :
    (l : Bytes) (ls : List Bytes) (fence : Bytes) (rest : List Read) (c : Client)
    (sent : List Bytes)
    → l ≢ []
    → All (λ r. is_fence r ≡ false) ls
    → length ls ≤ max_multi_lines
    → is_fence fence ≡ true
    → send_multi l (on_healthy c (report_lines ls ++ line fence ∷ rest) sent)
      ≡ (ok ls, on_healthy c rest (sent ++ fan_out_payload l ∷ []))
unfolding send_multi
send_multi-on_healthy l ls fence rest c sent h quiet le f =
    let received = drains ls [] max_multi_lines fence rest quiet le f in
    rw (equal_ne l [] h) (
      with_retry_ok (send_multi_once (normalise l))
        (on_healthy c (report_lines ls ++ line fence ∷ rest) sent)
        (once_received (fan_out_payload l) (receive_until_fence [] max_multi_lines) _ rest c sent
            (ok ls) received
          ∙ unfold settle in rw append_assoc))

-- One report line more than that, before any fence, is refused, and the connection is closed.
pub send_multi_overflow :
    (l : Bytes) (ls : List Bytes) (extra : Bytes) (rest : List Read) (c : Client)
    (sent : List Bytes)
    → l ≢ []
    → All (λ r. is_fence r ≡ false) ls
    → length ls ≡ max_multi_lines
    → is_fence extra ≡ false
    → send_multi l (on_healthy c (report_lines ls ++ line extra ∷ rest) sent) ≡ (
      err too_many_lines,
      record (on_healthy c rest (sent ++ fan_out_payload l ∷ [])) { conn = none },
    )
unfolding send_multi
send_multi_overflow l ls extra rest c sent h quiet e f =
    let received = overflows ls [] max_multi_lines extra rest quiet e f in
    rw (equal_ne l [] h) (
      with_retry_err (send_multi_once (normalise l))
        (on_healthy c (report_lines ls ++ line extra ∷ rest) sent) too_many_lines
        (once_received (fan_out_payload l) (receive_until_fence [] max_multi_lines) _ rest c sent
            (err too_many_lines) received
          ∙ unfold settle in rw append_assoc)
        (unfold is_conn_reset in refl))
