-- ===== src/Tests/Client.antt =====
-- Tests of the one-shot client of pkg/ynca/client.go.
use yamaha_cli.Prelude.{
  ◌≡◌, refl, List, [], ◌∷◌, ◌++◌, false, none, some, is_some, arith, replicate,
}
use yamaha_cli.Text.{Bytes, codes, equal}
use yamaha_cli.Ynca.Errors.{ok, plain, Leaf}
use yamaha_cli.Ynca.Framing.{crlf}
use yamaha_cli.Ynca.Wire.{classify_reply}
use yamaha_cli.Ynca.Client.{
  Client, Conn, Read, Dial, connected, send, send_multi, is_fence, receive_until_fence,
  max_multi_lines, normalise,
}
use yamaha_cli.Ynca.Client.Healthy.{
  healthy, on_healthy, send_all, requests, replies, answers, payloads, send_all-on_healthy,
  report_lines, fan_out_payload, send_multi-on_healthy,
}
use yamaha_cli.Ynca.Client.Faults.{is_answered, send-conn}
use yamaha_cli.Ynca.Client.Writes.{Writes, send_twice}

-- Not yet dialled, with these connections to come.
abbrev fresh : List Dial → Client
fresh dials = record { wake_on_connect = false; conn = none; dials = dials; wire = [] }

abbrev power_query : Bytes
power_query = codes "@MAIN:PWR=?"

abbrev talk : List (Bytes × Bytes)
talk = (power_query, codes "@MAIN:PWR=On") ∷ (codes "MAIN:XYZ=?", codes "@UNDEFINED") ∷ []

send_all-on_healthy_example :
    send_all (requests talk) (on_healthy (fresh []) (replies talk ++ []) [])
    ≡ (answers talk, on_healthy (fresh []) [] ([] ++ payloads talk))
send_all-on_healthy_example = send_all-on_healthy talk [] (fresh []) [] (cc, (cc, tt))

abbrev reports : List Bytes
reports = codes "@MAIN:PWR=On" ∷ codes "@MAIN:VOL=-40.0" ∷ []

abbrev fence : Bytes
fence = codes "@SYS:VERSION=2.87"

send_multi-on_healthy_example :
    send_multi
      (codes "@MAIN:BASIC=?")
      (on_healthy (fresh []) (report_lines reports ++ Read.line fence ∷ []) [])
    ≡ (ok reports, on_healthy (fresh []) [] ([] ++ fan_out_payload (codes "@MAIN:BASIC=?") ∷ []))
unfolding is_fence
send_multi-on_healthy_example =
    send_multi-on_healthy (codes "@MAIN:BASIC=?") reports fence [] (fresh []) [] (cc)
      (refl, (refl, tt)) (omega arith) refl

abbrev reset_conn : Conn
reset_conn = record {
  deadlines = [];
  writes = some (4, record { context = none; cause = plain Leaf.broken_pipe }) ∷ [];
  reads = [];
}

abbrev reset_client : Client
reset_client = fresh (connected [] reset_conn ∷ connected [] (healthy []) ∷ [])

send-conn_example :
    is_some (send power_query reset_client).1.conn ≡ is_answered (send power_query reset_client).0
send-conn_example = send-conn power_query reset_client cc

abbrev fan_out_client : Client
fan_out_client = fresh (connected [] (healthy (report_lines reports ++ Read.line fence ∷ [])) ∷ [])

fan_out_reply : (send_multi (codes "@MAIN:BASIC=?") fan_out_client).0 ≡ ok reports
unfolding send_multi normalise equal receive_until_fence
fan_out_reply = refl

abbrev volume_up_line : Bytes
volume_up_line = codes "@MAIN:VOL=Up 5 dB"

abbrev volume_reply : Bytes
volume_reply = codes "@MAIN:VOL=-35.0"

abbrev closing : Client
closing = fresh (connected [] (healthy (Read.line volume_reply ∷ [])) ∷ [])

send_twice_example : send volume_up_line (on_healthy closing [] []) ≡ (
  classify_reply (normalise volume_up_line) volume_reply,
  record (on_healthy closing []
      ((normalise volume_up_line ++ crlf) ∷ (normalise volume_up_line ++ crlf) ∷ [])) {
        dials = [];
      },
)
send_twice_example = send_twice volume_up_line volume_reply [] closing [] (cc) refl refl

-- As many report lines as are allowed.
abbrev flood : List Bytes
flood = replicate max_multi_lines (codes "@A:B=1")
