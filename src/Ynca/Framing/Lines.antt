-- ===== src/Ynca/Framing/Lines.antt =====
-- The reader yields the lines of the stream, however the network cuts it into chunks.
use mathlib.Core.List.{flatten}
use yamaha_cli.Prelude.{
  ◌≢◌, ℕ, zero, suc, ◌+◌, ◌≤◌, ◌<◌, Bool, true, false, Option, leb, ltb, subst, List, [], ◌∷◌, ◌++◌,
  append_assoc, append-nil, none, some, if◌then◌else◌, drop, length, length-drop_lt, ◌≡◌, refl, sym,
  ap, ◌∙◌, arith, All, Bool-cases, Option-cases, inl, inr,
}
use yamaha_cli.Text.{Bytes, Lacks}
use yamaha_cli.Ynca.Framing.{
  crlf, is_crlf, find_crlf, split_crlf, Split, max_token_size, with_room, in_room, drain, Scanned,
  all_read, too_long, scan_end, scan_on, scan,
}
use yamaha_cli.Ynca.Framing.Tokens.{
  lines_of, lines_of-nil, AtEnd, split_end, IsToken, split_crlf-IsToken, IsOverlong, first_line,
}

-- What is taken from a buffer, with `more` behind it in the stream.
abbrev Drained : Bool → Bytes → Bytes → List Bytes × Option Bytes → Type 0
Drained at_eof buf more (tokens, some rest) =
    (lines_of (buf ++ more) ≡ tokens ++ lines_of (rest ++ more)) × (split_crlf rest at_eof ≡ none)
Drained at_eof buf more (tokens, none) = IsOverlong (buf ++ more) tokens

find_crlf-none : (at_eof : Bool) (s : Bytes) → split_crlf s at_eof ≡ none → find_crlf s ≡ none
unfolding split_crlf
find_crlf-none at_eof s h = elim (Option-cases (find_crlf s)) [
  | inl e ↦ e
  | inr (i, e) ↦ ground arith
]

with_room-Drained :
    (at_eof : Bool) (buf more : Bytes)
    → split_crlf buf at_eof ≡ none
    → Drained at_eof buf more ([], with_room buf)
unfolding with_room
with_room-Drained at_eof [] more h = (refl, h)
with_room-Drained at_eof (c ∷ s) more h = elim (Bool-cases (leb max_token_size (length (c ∷ s)))) [
  | inl e ↦
      let (l, ls, same, long) = first_line c s more (find_crlf-none at_eof (c ∷ s) h) in
      rw (Drained, e) (l, ls, same, ground arith)
  | inr e ↦ rw (Drained, e) (refl, h)
]

in_room-Drained :
    (at_eof : Bool) (buf more : Bytes) (n : ℕ) (token : Bytes) (x : List Bytes × Option Bytes)
    → IsToken buf more n token
    → Drained at_eof (drop n buf) more x
    → Drained at_eof buf more (in_room n token x)
unfolding in_room
in_room-Drained at_eof buf more n token (tokens, rest) t h = by_room (ltb max_token_size n) refl
  where
    behind :
        (o : Option Bytes)
        → Drained at_eof (drop n buf) more (tokens, o)
        → Drained at_eof buf more (token ∷ tokens, o)
    behind (some left) (same, split) = (t.first ∙ ap (λ ls. token ∷ ls) same, split)
    behind none (l, after, same, long) = (l, after, t.first ∙ ap (λ ls. token ∷ ls) same, long)

    by_room :
        (b : Bool)
        → ltb max_token_size n ≡ b
        → Drained at_eof buf more (if b then ([], none) else (token ∷ tokens, rest))
    by_room true e =
        let near = t.near in (token, lines_of (drop n buf ++ more), t.first, ground arith)
    by_room false e = behind rest h

next-Drained :
    (fuel : ℕ) (at_eof : Bool) (buf more : Bytes) (o : Split)
    → split_crlf buf at_eof ≡ o
    → ((n : ℕ) (token : Bytes)
        → split_crlf buf at_eof ≡ some (n, token)
        → Drained at_eof buf more (in_room n token (drain fuel at_eof (drop n buf))))
    → Drained at_eof buf more (elim o [
      | none ↦ ([], with_room buf)
      | some (n, token) ↦ in_room n token (drain fuel at_eof (drop n buf))
    ])
next-Drained fuel at_eof buf more none e next = with_room-Drained at_eof buf more e
next-Drained fuel at_eof buf more (some (n, token)) e next = next n token e

drain-Drained :
    (fuel : ℕ) (at_eof : Bool) (buf more : Bytes)
    → AtEnd at_eof more
    → length buf < fuel
    → Drained at_eof buf more (drain fuel at_eof buf)
unfolding drain
drain-Drained zero at_eof buf more end h = absurd (omega arith)
drain-Drained (suc fuel) at_eof buf more end h =
    next-Drained fuel at_eof buf more (split_crlf buf at_eof) refl λ n token e.
      let t = split_crlf-IsToken at_eof buf more end e in
      in_room-Drained at_eof buf more n token (drain fuel at_eof (drop n buf)) t (
        drain-Drained fuel at_eof (drop n buf) more end
          (omega (arith, length-drop_lt n buf t.moves t.holds)))

-- All lines of the stream are read, or those before one that does not fit the buffer.
abbrev pub IsScanned : Bytes → List Bytes × Scanned → Type 0
IsScanned stream (ls, all_read) = ls ≡ lines_of stream
IsScanned stream (ls, too_long) = IsOverlong stream ls

scan_end-IsScanned :
    (buf : Bytes) (x : List Bytes × Option Bytes)
    → Drained true buf [] x
    → IsScanned (buf ++ []) (scan_end x)
unfolding scan_end
scan_end-IsScanned buf (tokens, none) h = h
scan_end-IsScanned buf (tokens, some rest) (same, split) =
    let over : lines_of (rest ++ []) ≡ [] = ap lines_of (append-nil rest) ∙ split_end rest split in
    sym (same ∙ ap (λ ls. tokens ++ ls) over ∙ append-nil tokens)

scan_on-IsScanned :
    (stream more : Bytes) (x : List Bytes × Option Bytes) (next : Bytes → List Bytes × Scanned)
    → Drained false stream more x
    → ((rest : Bytes) → IsScanned (rest ++ more) (next rest))
    → IsScanned (stream ++ more) (scan_on x next)
unfolding scan_on
scan_on-IsScanned stream more (tokens, none) next h k = h
scan_on-IsScanned stream more (tokens, some rest) next (same, split) k = joined (next rest) (k rest)
  where
    joined :
        (y : List Bytes × Scanned)
        → IsScanned (rest ++ more) y
        → IsScanned (stream ++ more) (tokens ++ y.0, y.1)
    joined (ls, all_read) e = ap (λ m. tokens ++ m) e ∙ sym same
    joined (ls, too_long) (l, after, e, long) =
        (l, after, same ∙ ap (λ m. tokens ++ m) e ∙ sym (append_assoc tokens ls _), long)

-- The reader never splits or joins a line, and it loses none that fits its buffer of 64 KiB: whatever
-- chunks the connection delivers, and with whatever is buffered already, it yields the lines of the
-- whole byte stream, or the lines before one that is, with its line end, longer than the buffer.
pub scan-lines_of :
    (buf : Bytes) (chunks : List Bytes) → IsScanned (buf ++ flatten chunks) (scan buf chunks)
unfolding scan flatten
scan-lines_of buf [] =
    scan_end-IsScanned buf _ (drain-Drained (suc (length buf)) true buf [] refl (omega arith))
scan-lines_of buf (chunk ∷ chunks) =
    subst (λ t. IsScanned t (scan buf (chunk ∷ chunks))) (append_assoc buf chunk (flatten chunks))
      (scan_on-IsScanned (buf ++ chunk) (flatten chunks) _ (λ rest. scan rest chunks)
        (drain-Drained (suc (length (buf ++ chunk))) false (buf ++ chunk) (flatten chunks) tt
          (omega arith))
        λ rest. scan-lines_of rest chunks)

-- A line that fits the buffer with its line end.
abbrev pub IsShort : Bytes → Type 0
IsShort l = length l + 2 ≤ max_token_size

-- Lines with their terminators, as the receiver writes them.
abbrev pub framed : List Bytes → Bytes
framed [] = []
framed (l ∷ ls) = l ++ (crlf ++ framed ls)

is_crlf_ne : (a b : ℕ) → b ≢ b'\n' → is_crlf a b ≡ false
unfolding is_crlf
is_crlf_ne a b h = ground arith

lines_of-line :
    (l rest : Bytes) → Lacks b'\n' l → lines_of (l ++ (crlf ++ rest)) ≡ l ∷ lines_of rest
unfolding lines_of
lines_of-line [] rest h = unfold is_crlf in refl
lines_of-line (a ∷ []) rest h = unfold is_crlf in ground arith
lines_of-line (a ∷ b ∷ l) rest h = rw (is_crlf_ne a b h.1.0) (rw (lines_of-line (b ∷ l) rest h.1))

lines_of-framed : (ls : List Bytes) → All (Lacks b'\n') ls → lines_of (framed ls) ≡ ls
lines_of-framed [] h = lines_of-nil
lines_of-framed (l ∷ ls) h =
    lines_of-line l (framed ls) h.0 ∙ ap (λ (t : List Bytes). l ∷ t) (lines_of-framed ls h.1)

-- No line is too long if all fit.
IsShort-member :
    (ls before : List Bytes) (l : Bytes) (after : List Bytes)
    → All IsShort ls
    → ls ≡ before ++ l ∷ after
    → IsShort l
IsShort-member ls [] l after h e = (subst (All IsShort) e h).0
IsShort-member ls (k ∷ before) l after h e =
    IsShort-member (before ++ l ∷ after) before l after (subst (All IsShort) e h).1 refl

IsScanned-framed :
    (ls : List Bytes) (stream : Bytes) (x : List Bytes × Scanned)
    → All IsShort ls
    → lines_of stream ≡ ls
    → IsScanned stream x
    → x ≡ (ls, all_read)
IsScanned-framed ls stream (ts, all_read) short e h = ap (λ ms. (ms, all_read)) (h ∙ e)
IsScanned-framed ls stream (ts, too_long) short e (l, after, same, long) =
    let fits = IsShort-member ls ts l after short (sym e ∙ same) in absurd (omega arith)

-- Lines without a line feed that fit the buffer, sent with their terminators and cut into any chunks,
-- are read back as they were sent.
pub scan-framed :
    (ls chunks : List Bytes)
    → All (Lacks b'\n') ls
    → All IsShort ls
    → flatten chunks ≡ framed ls
    → scan [] chunks ≡ (ls, all_read)
scan-framed ls chunks h short e =
    IsScanned-framed ls (flatten chunks) (scan [] chunks) short
      (ap lines_of e ∙ lines_of-framed ls h) (scan-lines_of [] chunks)
