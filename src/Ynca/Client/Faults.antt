-- ===== src/Ynca/Client/Faults.antt =====
-- What holds on any network, whatever fails: the state of the connection after a call, and how often
-- a request is written.
use yamaha_cli.Prelude.{
  ℕ, zero, suc, ◌+◌, ◌≤◌, ◌≡◌, ◌≢◌, refl, subst, List, [], ◌∷◌, ◌++◌, Bool, none, true, false,
  is_some, arith, All, All-append, length, length-append, Bool-cases, inl, inr,
}
use yamaha_cli.Text.{Bytes, equal, equal_ne}
use yamaha_cli.Ynca.Client.{
  Client, Conn, Read, line, normalise, send, send_multi, is_fence, max_multi_lines,
  receive_until_fence, once, exchange, Exchange, settle, transmit, connect, receive_one, send_once,
  send_multi_once, with_retry, retry, classified, close,
}
use yamaha_cli.Ynca.Errors.{Error, Result, ok, err}
use yamaha_cli.Ynca.Wire.{classify_reply}

-- The errors by which the receiver itself refuses a request.
abbrev pub is_refusal : Error → Bool
is_refusal (Error.undefined _ _) = true
is_refusal (Error.restricted _ _) = true
is_refusal _ = false

-- The receiver has answered: by a value or by a refusal.
abbrev pub is_answered {ℓ} : {A : Type ℓ} → Result A → Bool
is_answered (ok a) = true
is_answered (err e) = is_refusal e

-- After an attempt the connection is open exactly when there was an answer, and a value has `P`.
abbrev Settled : {A : Type 0} → (A → Type 0) → Result A × Client → Type 0
Settled P (ok a, c) = P a × (is_some c.conn ≡ true)
Settled P (err e, c) = (c.conn ≡ none) × (is_refusal e ≡ false)

-- A result with a value that has `P`, or an error that is no refusal.
abbrev Plain : {A : Type 0} → (A → Type 0) → Result A → Type 0
Plain P (ok a) = P a
Plain P (err e) = is_refusal e ≡ false

abbrev Any : {A : Type 0} → A → Type 0
Any a = Unit

connect-Settled : (c : Client) → Settled Any (connect c)
unfolding connect
connect-Settled c = ground arith

module _ {A : Type 0} (P : A → Type 0) (payload : Bytes)
    (receive : List Read → Result A × List Read) where
  settle-Settled : (c : Client) (x : Exchange A) → Plain P x.result → Settled P (settle c x)
  unfolding settle
  settle-Settled c x h = ground arith

  transmit-Plain :
      (k : Conn)
      → ((reads : List Read) → Plain P (receive reads).0)
      → Plain P (transmit payload receive k).result
  unfolding transmit
  transmit-Plain k plain = ground (arith, plain k.reads)

  exchange-Settled :
      (x : Result Conn × Client)
      → ((reads : List Read) → Plain P (receive reads).0)
      → Settled Any x
      → Settled P (exchange payload receive x)
  unfolding exchange settle
  exchange-Settled (err e, c) plain h = h
  exchange-Settled (ok k, c) plain h =
      settle-Settled c (transmit payload receive k) (transmit-Plain k plain)

  once-Settled :
      (c : Client)
      → ((reads : List Read) → Plain P (receive reads).0)
      → Settled P (once payload receive c)
  unfolding once exchange
  once-Settled c plain = exchange-Settled (connect c) plain (connect-Settled c)

module _ {A : Type 0} (P : A → Type 0) (attempt : Client → Result A × Client)
    (each : (c : Client) → Settled P (attempt c)) where
  retry-Settled : (x : Result A × Client) → Settled P x → Settled P (retry attempt x)
  unfolding retry
  retry-Settled (ok a, c) h = h
  retry-Settled (err e, c) h = ground (arith, each (close c))

  with_retry-Settled : (c : Client) → Settled P (with_retry attempt c)
  unfolding with_retry retry
  with_retry-Settled c = retry-Settled (attempt c) (each c)

Settled-conn :
    {A : Type 0} (P : A → Type 0) (x : Result A × Client)
    → Settled P x
    → is_some x.1.conn ≡ is_answered x.0
Settled-conn P (ok a, c) h = h.1
Settled-conn P (err e, c) h = ground arith

Settled-ok :
    {A : Type 0} (P : A → Type 0) (x : Result A × Client) {a : A} → Settled P x → x.0 ≡ ok a → P a
Settled-ok P (ok a, c) h e = subst (Plain P) e h.0
Settled-ok P (err e', c) h e = cc

receive_one-Plain : (reads : List Read) → Plain Any (receive_one reads).0
unfolding receive_one
receive_one-Plain [] = refl
receive_one-Plain (line l ∷ rest) = tt
receive_one-Plain (r ∷ rest) = ground arith

-- What a fan-out may give: report lines, no fence among them, and no more than the cap.
abbrev pub IsFanOut : List Bytes → Type 0
IsFanOut ls = All (λ l. is_fence l ≡ false) ls × (length ls ≤ max_multi_lines)

receive_until_fence-Plain :
    (reads : List Read) (lines : List Bytes) (room : ℕ)
    → All (λ l. is_fence l ≡ false) lines
    → length lines + room ≡ max_multi_lines
    → Plain IsFanOut (receive_until_fence lines room reads).0
unfolding receive_until_fence
receive_until_fence-Plain [] lines room h e = refl
receive_until_fence-Plain (line l ∷ rest) lines zero h e = elim (Bool-cases (is_fence l)) [
  | inl f ↦ rw f (h, omega arith)
  | inr f ↦ rw f refl
]
receive_until_fence-Plain (line l ∷ rest) lines (suc room) h e = elim (Bool-cases (is_fence l)) [
  | inl f ↦ rw f (h, omega arith)
  | inr f ↦ rw f (
      receive_until_fence-Plain rest (lines ++ l ∷ []) room
        (All-append (λ l. is_fence l ≡ false) lines (l ∷ []) h (f, tt))
        (omega (arith, length-append {0} lines (l ∷ []))))
]
receive_until_fence-Plain (r ∷ rest) lines room h e = ground arith

classified-state :
    (l : Bytes) (x : Result Bytes × Client)
    → Settled Any x
    → is_some (classified l x).1.conn ≡ is_answered (classified l x).0
unfolding classified classify_reply
classified-state l (ok r, c) h = ground arith
classified-state l (err e, c) h = ground arith

-- On any network, after `Send` of a line the connection is open exactly if the receiver has answered,
-- by a value or by a refusal; after every other error it is closed, so that no late reply can be
-- taken for that of the next request.
pub send-conn :
    (l : Bytes) (c : Client) → l ≢ [] → is_some (send l c).1.conn ≡ is_answered (send l c).0
unfolding send
send-conn l c h = rw (equal_ne l [] h) (
    classified-state (normalise l) (with_retry (send_once (normalise l)) c) (
      with_retry-Settled Any (send_once (normalise l))
        (λ c. once-Settled Any _ receive_one c receive_one-Plain) c))

send_multi-Settled :
    (l : Bytes) (c : Client) → Settled IsFanOut (with_retry (send_multi_once (normalise l)) c)
unfolding send_multi_once once
send_multi-Settled l = with_retry-Settled IsFanOut (send_multi_once (normalise l)) (λ c.
    once-Settled IsFanOut _ (receive_until_fence [] max_multi_lines) c
      (λ reads. receive_until_fence-Plain reads [] max_multi_lines tt (omega arith)))

-- The same of `SendMulti`, where the receiver's refusals are lines of the reply.
pub send_multi-conn :
    (l : Bytes) (c : Client)
    → l ≢ []
    → is_some (send_multi l c).1.conn ≡ is_answered (send_multi l c).0
unfolding send_multi
send_multi-conn l c h = rw (equal_ne l [] h) (Settled-conn IsFanOut _ (send_multi-Settled l c))

-- Whatever the network does, what `SendMulti` returns has no fence in it and at most `maxMultiLines`
-- lines.
pub send_multi-IsFanOut :
    (l : Bytes) (c : Client) {ls : List Bytes} → (send_multi l c).0 ≡ ok ls → IsFanOut ls
unfolding send_multi
send_multi-IsFanOut l c h = elim (Bool-cases (equal l [])) [
  | inl e ↦ absurd (cc (rw e at h))
  | inr e ↦ Settled-ok IsFanOut _ (send_multi-Settled l c) (rw e at h)
]
