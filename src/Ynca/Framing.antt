-- ===== src/Ynca/Framing.antt =====
-- pkg/ynca/client.go, `splitCRLF`, and the reader's loop around it: a `bufio.Scanner` asks the split
-- function for tokens, and reads another chunk when it answers that it needs more. Its buffer has
-- 64 KiB, the cap that `dialLocked` and `Session.Run` set.
pub mod Tokens
pub mod Lines
use yamaha_cli.Prelude.{
  ℕ, zero, suc, Bool, true, false, ◌&&◌, List, [], ◌∷◌, ◌++◌, Option, none, some, ◌==◌,
  if◌then◌else◌, take, drop, length, ltb, leb,
}
use yamaha_cli.Text.{Bytes}
use mathlib.Core.Option as Maybe

abbrev pub crlf : Bytes
crlf = b'\r' ∷ b'\n' ∷ []

-- What a `bufio.SplitFunc` answers: how far to advance, and the token; `none` asks for more.
abbrev pub Split : Type 0
Split = Option (ℕ × Bytes)

unfoldable pub is_crlf : ℕ → ℕ → Bool
is_crlf a b = a == b'\r' && b == b'\n'

-- The place of the first `\r\n`: the loop of `splitCRLF`.
unfoldable pub find_crlf : Bytes → Option ℕ
find_crlf [] = none
find_crlf (a ∷ []) = none
find_crlf (a ∷ b ∷ s) = if is_crlf a b then some 0 else Maybe.map suc (find_crlf (b ∷ s))

-- Less a trailing lone `\r`.
unfoldable pub trim_cr : Bytes → Bytes
trim_cr [] = []
trim_cr (c ∷ []) = if c == b'\r' then [] else c ∷ []
trim_cr (c ∷ d ∷ s) = c ∷ trim_cr (d ∷ s)

-- The tail of `splitCRLF`, behind its loop.
unfoldable pub split_rest : Bytes → Bool → Split
unfolding trim_cr
split_rest [] at_eof = none
split_rest (c ∷ s) at_eof = if at_eof then some (length (c ∷ s), trim_cr (c ∷ s)) else none

unfoldable pub split_crlf : Bytes → Bool → Split
unfolding is_crlf find_crlf split_rest
split_crlf s at_eof = elim (find_crlf s) [
  | some i ↦ some (suc (suc i), take i s)
  | none ↦ split_rest s at_eof
]

-- The cap of `scanner.Buffer(…, 64*1024)`: the most bytes that the buffer has room for.
abbrev pub max_token_size : ℕ
max_token_size = 65_536

-- What stays in the buffer, if there is room left to read more: `none` is `bufio.ErrTooLong`.
unfoldable pub with_room : Bytes → Option Bytes
with_room buf = if leb max_token_size (length buf) then none else some buf

-- A token in front of those that follow. One that needs more room than the buffer has is not seen
-- whole: the buffer is full before its end is read.
unfoldable pub in_room : ℕ → Bytes → List Bytes × Option Bytes → List Bytes × Option Bytes
in_room n token (tokens, rest) = if ltb max_token_size n then ([], none) else (token ∷ tokens, rest)

-- The tokens that the buffer holds, and what stays in it.
unfoldable pub drain : ℕ → Bool → Bytes → List Bytes × Option Bytes
unfolding split_crlf with_room in_room
drain zero at_eof buf = ([], with_room buf)
drain (suc fuel) at_eof buf = elim (split_crlf buf at_eof) [
  | none ↦ ([], with_room buf)
  | some (n, token) ↦ in_room n token (drain fuel at_eof (drop n buf))
]

-- How the reader ends: at the end of the input, or because a line does not fit the buffer.
pub data Scanned : Type 0 where
  all_read : Scanned
  too_long : Scanned

-- At the end of the input.
pub scan_end : List Bytes × Option Bytes → List Bytes × Scanned
scan_end (tokens, none) = (tokens, too_long)
scan_end (tokens, some rest) = (tokens, all_read)

-- Behind a chunk, with what the rest of the input comes to.
pub scan_on : List Bytes × Option Bytes → (Bytes → List Bytes × Scanned) → List Bytes × Scanned
scan_on (tokens, none) more = (tokens, too_long)
scan_on (tokens, some rest) more = let (ls, e) = more rest in (tokens ++ ls, e)

-- The lines read from a connection that delivers these chunks and closes, with `buf` in the buffer. A
-- line that is too long ends the reader, and what follows is lost.
unfoldable pub scan : Bytes → List Bytes → List Bytes × Scanned
unfolding drain scan_end scan_on
scan buf [] = scan_end (drain (suc (length buf)) true buf)
scan buf (chunk ∷ chunks) =
    scan_on (drain (suc (length (buf ++ chunk))) false (buf ++ chunk)) (λ rest. scan rest chunks)
