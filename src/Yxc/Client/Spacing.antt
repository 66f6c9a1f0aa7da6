-- ===== src/Yxc/Client/Spacing.antt =====
-- The requests of a client keep the rate limit.
use yamaha_cli.Prelude.{
  ℕ, ◌+◌, ◌≤◌, List, [], ◌∷◌, ◌++◌, Option, none, some, ℤ, ◌≡◌, refl, sym, subst, inl, inr, arith,
  Bool-cases, Option-cases, All,
}
use yamaha_cli.Text.{Bytes, Table}
use yamaha_cli.Yxc.Client.{
  Turn, Request, Client, turn_of, rest_of, rate_limit_wait, sent_at, attempt, retry, retried,
  do_method, default_rate_limit, default_retry_wait,
}
use yamaha_cli.Yxc.Errors.{Leaf, should_retry, Result, ok, err}

-- The limit has passed since the end of the call before.
abbrev pub Apart : Option ℕ → ℕ → Type 0
Apart none begun = Unit
Apart (some t) begun = t + default_rate_limit ≤ begun

-- Requests behind one that ended at `before`; the last of them ends at `last`.
abbrev pub Spaced : Option ℕ → List Request → Option ℕ → Type 0
Spaced before [] last = before ≡ last
Spaced before (r ∷ rs) last =
    Apart before r.begun × (r.begun ≤ r.ended) × Spaced (some r.ended) rs last

abbrev pub IsPast : Option ℕ → ℕ → Type 0
IsPast none clock = Unit
IsPast (some t) clock = t ≤ clock

-- The context is not done while the client waits for the rate limit.
abbrev pub Undisturbed : List Turn → Type 0
Undisturbed = All (λ t. t.done_in_wait ≡ none)

pub record WellSpaced (c : Client) : Type 0 where
  pub spaced : Spaced none c.requests c.last_call
  pub past : IsPast c.last_call c.clock
  pub undisturbed : Undisturbed c.turns

Spaced-append :
    (before last : Option ℕ) (rs : List Request) (r : Request)
    → Spaced before rs last
    → Apart last r.begun
    → r.begun ≤ r.ended
    → Spaced before (rs ++ r ∷ []) (some r.ended)
Spaced-append before last [] r h a le = (subst (λ o. Apart o r.begun) (sym h) a, le, refl)
Spaced-append before last (q ∷ rs) r h a le =
    (h.0, h.1, Spaced-append (some q.ended) last rs r h.2 a le)

turn_of-Undisturbed : (ts : List Turn) → Undisturbed ts → (turn_of ts).done_in_wait ≡ none
unfolding turn_of
turn_of-Undisturbed [] h = refl
turn_of-Undisturbed (t ∷ ts) h = h.0

rest_of-Undisturbed : (ts : List Turn) → Undisturbed ts → Undisturbed (rest_of ts)
rest_of-Undisturbed [] h = tt
rest_of-Undisturbed (t ∷ ts) h = h.1

wait-Apart : (c : Client) → Apart c.last_call (rate_limit_wait none c).clock
unfolding rate_limit_wait
wait-Apart c = elim (Option-cases c.last_call) [
  | inl e ↦ rw e tt
  | inr (t, e) ↦ rw e (ground arith)
]

-- The wait changes the clock only.
wait_keeps :
    (o : Option Leaf) (c : Client)
    → ((rate_limit_wait o c).requests ≡ c.requests) × ((rate_limit_wait o c).turns ≡ c.turns)
unfolding rate_limit_wait
wait_keeps o c = (ground arith, ground arith)

module _ (response_code : Bytes → Option ℤ) (method : Bytes) (query : Table) (port : ℕ) where
  attempt-WellSpaced :
      (c : Client) → WellSpaced c → WellSpaced (attempt response_code method query port c).1
  unfolding attempt
  attempt-WellSpaced c h =
      let t = turn_of c.turns in
      let w = rate_limit_wait t.done_in_wait c in
      record {
        spaced =
            subst
              (λ rs.
                Spaced none (rs ++ sent_at w method query port t.took ∷ [])
                  (some (w.clock + t.took)))
              (sym (wait_keeps t.done_in_wait c).0)
              (Spaced-append none c.last_call c.requests (sent_at w method query port t.took)
                h.spaced
                (subst (λ o. Apart c.last_call (rate_limit_wait o c).clock)
                  (sym (turn_of-Undisturbed c.turns h.undisturbed)) (wait-Apart c))
                (omega arith));
        past = omega arith;
        undisturbed = rest_of-Undisturbed c.turns h.undisturbed;
      }

  retry-WellSpaced :
      (o : Option Leaf) (c : Client)
      → WellSpaced c
      → WellSpaced (retry response_code method query port o c).1
  unfolding retry
  retry-WellSpaced (some l) c h = h
  retry-WellSpaced none c h =
      attempt-WellSpaced (record c { clock = c.clock + default_retry_wait })
        (record { spaced = h.spaced; past = later c.last_call h.past; undisturbed = h.undisturbed })
    where
      later : (o : Option ℕ) → IsPast o c.clock → IsPast o (c.clock + default_retry_wait)
      later none p = tt
      later (some t) p = omega arith

  retried-WellSpaced :
      (t : Turn) (x : Result Bytes × Client)
      → WellSpaced x.1
      → WellSpaced (retried response_code method query port t x).1
  unfolding retried
  retried-WellSpaced t (ok raw, c) h = h
  retried-WellSpaced t (err e, c) h = elim (Bool-cases (should_retry t.context_after e)) [
    | inl e' ↦ rw e' (retry-WellSpaced t.done_in_pause c h)
    | inr e' ↦ rw e' h
  ]

  -- A call keeps the requests of a client apart, its retry included: if no context is done during
  -- the waits, each request begins a rate limit at the earliest after the one before has ended.
  pub do_method-WellSpaced :
      (c : Client) → WellSpaced c → WellSpaced (do_method response_code method query port c).1
  unfolding do_method
  do_method-WellSpaced c h =
      retried-WellSpaced (turn_of c.turns) (attempt response_code method query port c)
        (attempt-WellSpaced c h)
