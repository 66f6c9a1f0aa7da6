-- ===== src/Ynca/Client/Writes.antt =====
-- How often a request is written.
use yamaha_cli.Prelude.{
  ℕ, ◌≤◌, ◌≡◌, ◌≢◌, length, take, All, List, [], ◌∷◌, ◌++◌, append_assoc, append-nil, false,
}
use yamaha_cli.Text.{Bytes, equal_ne}
use yamaha_cli.Ynca.Client.{Client, Read, line, Dial, connected, normalise, send}
use yamaha_cli.Ynca.Client.Healthy.{healthy, on_healthy}
use yamaha_cli.Ynca.Errors.{is_conn_reset}
use yamaha_cli.Ynca.Framing.{crlf}
use yamaha_cli.Ynca.Wire.{classify_reply}

-- The payload, or its first bytes.
abbrev pub IsPart : Bytes → Bytes → Type 0
IsPart payload written = (n : ℕ) × (written ≡ take n payload)

-- The payload was written at most so often, perhaps in part, and nothing else was.
abbrev pub Writes : ℕ → Bytes → Client → Client → Type 0
Writes most payload before after =
    (parts : List Bytes) × (length parts ≤ most)
    × All (IsPart payload) parts
    × (after.wire ≡ before.wire ++ parts)
    × (after.wake_on_connect ≡ before.wake_on_connect)

-- A server that took the request and closed the connection without a reply is dialled again, and
-- the request is written once more: also one that must not be repeated, such as a relative volume
-- step.
pub send_twice :
    (l r : Bytes) (rest : List Read) (c : Client) (later : List Dial)
    → l ≢ []
    → c.wake_on_connect ≡ false
    → c.dials ≡ connected [] (healthy (line r ∷ rest)) ∷ later
    → send l (on_healthy c [] []) ≡ (
      classify_reply (normalise l) r,
      record (on_healthy c rest ((normalise l ++ crlf) ∷ (normalise l ++ crlf) ∷ [])) {
        dials = later;
      },
    )
unfolding send is_conn_reset
send_twice l r rest c later h w d = rw (equal_ne l [] h, d, w) (rw (append-nil, append_assoc))
