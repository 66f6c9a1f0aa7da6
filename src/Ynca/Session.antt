-- ===== src/Ynca/Session.antt =====
-- pkg/ynca/session.go: the observer of the push stream. `run` gives what the handler is called with,
-- in order, and the error that `Run` returns.
pub mod Delivery
use yamaha_cli.Prelude.{
  Bool, true, false, ◌&&◌, not, List, [], ◌∷◌, Option, none, some, if◌then◌else◌, keep,
}
use yamaha_cli.Text.{Bytes, codes, equal}
use yamaha_cli.Ynca.Errors.{Leaf, other, eof, Cause, plain, Error, dial, io}
use yamaha_cli.Ynca.Framing.{Scanned, all_read, too_long, scan}
use yamaha_cli.Ynca.Wire.{Line, Report, parse_report}

-- How the stream ends: the context is done, a read fails, or the receiver closes the connection.
pub data End : Type 0 where
  cancelled : Leaf → End
  read_failed : Cause → End
  closed : End

-- What the dial comes to: an error, or the chunks that arrive and the end of them.
pub data Stream : Type 0 where
  refused : Cause → Stream
  connected : List Bytes → End → Stream

unfoldable pub end_error : End → Error
end_error (cancelled l) = io (plain l)
end_error (read_failed c) = io c
end_error closed = io (plain eof)

-- The echo of the keep-alive ping.
unfoldable pub is_echo : Line → Bool
unfolding equal
is_echo l = equal l.subunit (codes "SYS") && equal l.function (codes "MODELNAME")

-- The report of a line that the handler sees.
pub handled_line : Option Report → List Report → List Report
unfolding is_echo
handled_line none rest = rest
handled_line (some r) rest = if is_echo r.line then rest else r ∷ rest

unfoldable pub handled : List Bytes → List Report
unfolding handled_line
handled [] = []
handled (raw ∷ raws) = handled_line (parse_report raw) (handled raws)

-- The error of the scanner is `bufio.ErrTooLong`, which no other package's check looks at, unless the
-- context is done.
unfoldable pub scan_error : Scanned → End → Error
unfolding end_error
scan_error all_read end = end_error end
scan_error too_long (cancelled l) = io (plain l)
scan_error too_long _ =
    io (record { op = false; leaf = other; text = codes "bufio.Scanner: token too long" })

unfoldable pub run : Stream → List Report × Error
unfolding handled scan scan_error
run (refused e) = ([], dial e)
run (connected chunks end) = let (raws, e) = scan [] chunks in (handled raws, scan_error e end)
