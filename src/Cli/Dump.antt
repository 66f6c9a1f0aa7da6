-- ===== src/Cli/Dump.antt =====
-- internal/cli/ynca_dump.go: the transcript of a receiver's replies to a list of requests. What is
-- written to the buffer of the output is a text; the output takes all of it.
pub mod ReadBack
use yamaha_cli.Prelude.{
  ◌++◌, Bool, true, false, ◌||◌, ◌&&◌, not, List, [], ◌∷◌, map, Option, none, some, length,
  if◌then◌else◌,
}
use yamaha_cli.Text.{
  Bytes, codes, is_empty, has_prefix, contains, quote, itoa, trim_space, scan_lines,
}
use yamaha_cli.Ynca.Errors.{Error, Result, ok, err, no_reply, is_transport}
use yamaha_cli.Ynca.Client.{Client, send_multi}
use yamaha_cli.Ynca.Functions.{Function, Scope, system, zone, tuner, functions_for_scope, can_get}

-- `fmt.Fprintln`
abbrev pub put_line : Bytes → Bytes → Bytes
put_line s rest = s ++ (10 ∷ rest)

-- A comment on a request.
abbrev pub note : Bytes → Bytes → Bytes
note request s = codes "#" ++ (codes " " ++ request ++ codes " -> " ++ s)

-- Neither split by a line feed nor a refusal.
abbrev pub is_value : Bytes → Bool
is_value ln =
    not (contains ln (codes "\n"))
    && not (has_prefix ln (codes "@UNDEFINED") || has_prefix ln (codes "@RESTRICTED"))

reply_text : Bytes → Bytes → Bytes
unfolding contains has_prefix quote
reply_text request ln =
    if contains ln (codes "\n")
    then note request (quote ln)
    else if has_prefix ln (codes "@UNDEFINED") || has_prefix ln (codes "@RESTRICTED")
    then note request ln
    else ln

replies_text : Bytes → List Bytes → Bytes → Bytes
unfolding reply_text
replies_text request [] rest = rest
replies_text request (ln ∷ lines) rest =
    put_line (reply_text request ln) (replies_text request lines rest)

-- `writeDumpReplies`, in front of what is written later
unfoldable pub write_dump_replies : Bytes → List Bytes → Bytes → Bytes
unfolding replies_text
write_dump_replies request [] rest = put_line (note request (codes "(no reply)")) rest
write_dump_replies request (ln ∷ lines) rest = replies_text request (ln ∷ lines) rest

pub data Outcome : Type 0 where
  finished interrupted : Outcome
  failed : Bytes → Error → Outcome

-- What the requests that were sent came to, how the dump ended, and the client after it.
pub record Run : Type 0 where
  pub log : List (Bytes × Result (List Bytes))
  pub outcome : Outcome
  pub client : Client

abbrev pub ends_dump : Error → Bool
ends_dump no_reply = true
ends_dump e = is_transport e

abbrev logged : Bytes × Result (List Bytes) → Run → Run
logged entry run = record run { log = entry ∷ run.log }

-- Whether the context is done in the pause behind these replies, and the pauses after that; there is
-- no pause behind an error.
abbrev pub next_pause : Result (List Bytes) → List Bool → Bool × List Bool
next_pause (err e) pauses = (false, pauses)
next_pause (ok lines) [] = (false, [])
next_pause (ok lines) (done ∷ pauses) = (done, pauses)

-- `later` is the rest of the loop.
abbrev pub after_reply : Bytes → Result (List Bytes) → Bool → Client → Run → Run
after_reply request (ok lines) done c later =
    if done
    then record { log = (request, ok lines) ∷ []; outcome = interrupted; client = c }
    else logged (request, ok lines) later
after_reply request (err e) done c later =
    if ends_dump e
    then record { log = (request, err e) ∷ []; outcome = failed request e; client = c }
    else logged (request, err e) later

-- The loop of `runYncaDump`
unfoldable pub run_commands : List Bytes → List Bool → Client → Run
unfolding send_multi
run_commands [] pauses c = record { log = []; outcome = finished; client = c }
run_commands (request ∷ more) pauses c =
    let (r, c') = send_multi request c in
    let (done, pauses') = next_pause r pauses in
    after_reply request r done c' (run_commands more pauses' c')

-- What the loop writes; `describe` is the text of an error.
unfoldable pub log_text : (Error → Bytes) → List (Bytes × Result (List Bytes)) → Bytes
unfolding write_dump_replies
log_text describe [] = []
log_text describe ((request, ok lines) ∷ log) =
    write_dump_replies request lines (log_text describe log)
log_text describe ((request, err e) ∷ log) =
    put_line (note request (codes "ERROR: " ++ describe e)) (log_text describe log)

-- The file that `runYncaDump` leaves.
unfoldable pub dump : (Error → Bytes) → Bytes → List Bytes → List Bool → Client → Bytes × Run
unfolding log_text run_commands itoa
dump describe host commands pauses c =
    let run = run_commands commands pauses c in
    (
      put_line (codes "# yamaha-cli YNCA dump") (
          put_line (codes "# device: " ++ host) (
            put_line (codes "# commands: " ++ itoa (length commands)) (log_text describe run.log))),
      run,
    )

-- `scanDumpCommands`, over the lines of the file
unfoldable pub scan_dump_commands : List Bytes → List Bytes
unfolding trim_space has_prefix
scan_dump_commands [] = []
scan_dump_commands (text ∷ lines) =
    let rest = scan_dump_commands lines in
    let line = trim_space text in
    if is_empty line || has_prefix line (codes "#") then rest else line ∷ rest

-- `add`
abbrev get_of : Bytes → Bytes → Bytes
get_of subunit function = codes "@" ++ subunit ++ codes ":" ++ function ++ codes "=?"

readable : Bytes → List Function → List Bytes
unfolding can_get
readable subunit [] = []
readable subunit (f ∷ fs) =
    let rest = readable subunit fs in if can_get f.cmd then get_of subunit f.name ∷ rest else rest

zone_commands : Bytes → List Bytes
unfolding readable functions_for_scope
zone_commands z = get_of z (codes "SCENENAME") ∷ readable z (functions_for_scope zone)

source_commands : List Bytes → List Bytes
source_commands [] = []
source_commands (src ∷ sources) =
    get_of src (codes "METAINFO") ∷ get_of src (codes "PLAYBACKINFO") ∷ source_commands sources

abbrev sources : List Bytes
sources =
    codes "AIRPLAY"
    ∷ codes "BT"
    ∷ codes "DEEZER"
    ∷ codes "IPOD"
    ∷ codes "IPODUSB"
    ∷ codes "MCLINK"
    ∷ codes "NAPSTER"
    ∷ codes "NETRADIO"
    ∷ codes "PANDORA"
    ∷ codes "PC"
    ∷ codes "RHAP"
    ∷ codes "SERVER"
    ∷ codes "SIRIUS"
    ∷ codes "SPOTIFY"
    ∷ codes "TIDAL"
    ∷ codes "UAW"
    ∷ codes "USB"
    ∷ []

-- `defaultDumpCommands`
unfoldable pub default_dump_commands : List Bytes
unfolding readable zone_commands source_commands functions_for_scope
default_dump_commands =
    readable (codes "SYS") (functions_for_scope system)
    ++ (zone_commands (codes "MAIN")
        ++ zone_commands (codes "ZONE2")
        ++ zone_commands (codes "ZONE3")
        ++ zone_commands (codes "ZONE4"))
    ++ (readable (codes "TUN") (functions_for_scope tuner)
        ++ get_of (codes "TUN") (codes "RDSINFO") ∷ [])
    ++ source_commands sources
