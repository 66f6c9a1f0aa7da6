-- ===== src/Ynca/Client/Probe.antt =====
-- `Probe` of pkg/ynca/client.go: does the receiver speak YNCA?
use yamaha_cli.Text.{Bytes}
use yamaha_cli.Ynca.Client.{Client, send, version_sentinel}
use yamaha_cli.Ynca.Errors.{eof, Error, dial, io, unsupported, Result, ok, err, ◌>>=◌}
use yamaha_cli.Ynca.Wire.{parse_line}

-- A receiver that closes the connection or does not know the command does not speak YNCA.
probe_error : Error → Error
probe_error (Error.undefined request reply) = unsupported
probe_error (io k) = elim k.leaf [ eof ↦ unsupported | _ ↦ io k ]
probe_error (dial k) = elim k.leaf [ eof ↦ unsupported | _ ↦ dial k ]
probe_error e = e

probe_reply : Result Bytes → Result Bytes
unfolding probe_error
probe_reply (err e) = err (probe_error e)
probe_reply (ok reply) = do l ← parse_line reply; ok l.value

unfoldable pub probe : Client → Result Bytes × Client
unfolding probe_reply send
probe c = let (r, c') = send version_sentinel c in (probe_reply r, c')
