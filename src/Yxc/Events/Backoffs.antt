-- ===== src/Yxc/Events/Backoffs.antt =====
-- How long the subscriber waits.
use yamaha_cli.Prelude.{
  ℕ, zero, suc, ◌*◌, ◌≤◌, List, [], ◌∷◌, ◌++◌, Option, none, some, ℤ, pos, negsuc, ◌≡◌, refl, subst,
  ap, ap₂, ◌∙◌, arith, if◌then◌else◌, ltb, inl, inr, Bool-cases, All, All-append,
}
use yamaha_cli.Text.{Bytes, max_int}
use yamaha_cli.Yxc.Backoff.{next_backoff, doubled, next_backoff-doubled}
use yamaha_cli.Yxc.Client.{Client}
use yamaha_cli.Yxc.Errors.{Result, ok, err}
use yamaha_cli.Yxc.Events.{
  Subscriber, with_defaults, or_default, at_least, second, Address, Phase, waiting, steady,
  recovering, stopped, State, Input, cancelled, elapsed, packet, reader_failed, renew_due, silent,
  subscribe, registered, register, recovered, recover, renewal, step, start, Reaches, begin, take,
  slept_on, accepts,
}

-- What holds of the state that a step leads to, if it leads to one.
abbrev pub Kept : (State → Type 0) → Option State → Type 0
Kept P none = Unit
Kept P (some t) = P t

pub of_kept : (P : State → Type 0) (o : Option State) (t : State) → o ≡ some t → Kept P o → P t
of_kept P o t e h = subst (Kept P) e h

module _ (low high : ℕ) where
  -- A duration from `low` to `high`.
  abbrev pub Within : ℤ → Type 0
  Within z = (n : ℕ) × (z ≡ pos n) × (low ≤ n) × (n ≤ high)

  -- The minimum, whenever the subscription stands.
  abbrev Rested : Phase → ℤ → Type 0
  Rested steady z = z ≡ pos low
  Rested _ z = Unit

  pub record Patient (s : State) : Type 0 where
    pub current : Within s.backoff
    pub waits : All Within s.slept
    pub rested : Rested s.phase s.backoff

module _ (response_code : Bytes → Option ℤ) (zones : List Bytes) (expected : List Address)
    (low high : ℕ) (positive : 1 ≤ low) (ordered : low ≤ high) (bounded : high ≤ max_int) where
  at_low : Within low high (pos low)
  at_low = (low, refl, omega arith, ordered)

  next-Within : (z : ℤ) → Within low high z → Within low high (next_backoff z (pos high))
  next-Within z (n, e, le, ge) = (
    doubled n high,
    ap (λ z. next_backoff z (pos high)) e ∙ next_backoff-doubled n high (omega arith) ge bounded,
    ground arith,
    ground arith,
  )

  registered-Patient :
      (s : State) (x : Result (Unit {0}) × Client)
      → Within low high s.backoff
      → All (Within low high) s.slept
      → Patient low high (registered response_code zones (pos low) (pos high) expected s x)
  unfolding registered
  registered-Patient s (ok _, c) now waits = record {
    current = at_low;
    waits = waits;
    rested = refl;
  }
  registered-Patient s (err e, c) now waits = record { current = now; waits = waits; rested = tt }

  recovered-Patient :
      (s : State) (x : Result (Unit {0}) × Client)
      → Within low high s.backoff
      → All (Within low high) s.slept
      → Patient low high (recovered response_code zones (pos low) (pos high) expected s x)
  unfolding recovered
  recovered-Patient s (ok _, c) now waits = record {
    current = at_low;
    waits = waits;
    rested = refl;
  }
  recovered-Patient s (err e, c) now waits = record {
    current = next-Within s.backoff now;
    waits = waits;
    rested = tt;
  }

  renewal-Patient :
      (s : State) (x : Result (Unit {0}) × Client)
      → Patient low high s
      → Patient low high (renewal response_code zones (pos low) (pos high) expected s x)
  unfolding renewal
  renewal-Patient s (ok _, c) h = record { current = h.current; waits = h.waits; rested = h.rested }
  renewal-Patient s (err e, c) h = record { current = h.current; waits = h.waits; rested = tt }

  slept_on-waits :
      (s : State) → Patient low high s → All (Within low high) (s.slept ++ s.backoff ∷ [])
  slept_on-waits s h = All-append (Within low high) s.slept (s.backoff ∷ []) h.waits (h.current, tt)

  step-Patient :
      (p : Phase) (i : Input) (s : State)
      → Patient low high s
      → Kept (Patient low high) (step response_code zones (pos low) (pos high) expected p i s)
  unfolding step register recover
  step-Patient waiting (cancelled e) s h = record {
    current = h.current;
    waits = h.waits;
    rested = tt;
  }
  step-Patient waiting elapsed s h =
      registered-Patient (record (slept_on s) { backoff = next_backoff s.backoff (pos high) })
        (subscribe response_code zones (pos low) (pos high) expected zones s.client)
        (next-Within s.backoff h.current) (slept_on-waits s h)
  step-Patient waiting _ s h = tt
  step-Patient recovering (cancelled e) s h = record {
    current = h.current;
    waits = h.waits;
    rested = tt;
  }
  step-Patient recovering elapsed s h =
      recovered-Patient (slept_on s)
        (subscribe response_code zones (pos low) (pos high) expected zones s.client) h.current
        (slept_on-waits s h)
  step-Patient recovering _ s h = tt
  step-Patient steady (cancelled e) s h = record {
    current = h.current;
    waits = h.waits;
    rested = tt;
  }
  step-Patient steady (reader_failed e) s h = record {
    current = h.current;
    waits = h.waits;
    rested = tt;
  }
  step-Patient steady (packet bytes from) s h = elim (Bool-cases (accepts expected from)) [
    | inl e ↦ rw e (record { current = h.current; waits = h.waits; rested = h.rested })
    | inr e ↦ rw e h
  ]
  step-Patient steady renew_due s h =
      renewal-Patient s (subscribe response_code zones (pos low) (pos high) expected zones s.client)
        h
  step-Patient steady silent s h = record { current = h.current; waits = h.waits; rested = tt }
  step-Patient steady elapsed s h = tt
  step-Patient stopped _ s h = tt

  -- In every state that a subscription can come to, whatever the receiver and the network do, the
  -- backoff and all waits so far lie from the minimum to the maximum, and the backoff is the minimum
  -- as long as the subscription stands, so that each outage starts with the shortest wait.
  pub Reaches-Patient :
      (c : Client) (s : State)
      → Reaches response_code zones (pos low) (pos high) expected c s
      → Patient low high s
  unfolding start register
  Reaches-Patient c s begin =
      registered-Patient
        (record { phase = waiting; backoff = pos low; slept = []; emitted = []; client = c })
        (subscribe response_code zones (pos low) (pos high) expected zones c) at_low tt
  Reaches-Patient c s (take {s = r} i run e) =
      of_kept (Patient low high)
        (step response_code zones (pos low) (pos high) expected r.phase i r) s e
        (step-Patient r.phase i r (Reaches-Patient c r run))

or_default-positive : (d : ℕ) (z : ℤ) → 1 ≤ d → (n : ℕ) × (or_default (pos d) z ≡ pos n) × (1 ≤ n)
unfolding or_default
or_default-positive d (pos zero) h = (d, refl, h)
or_default-positive d (pos (suc n)) h = (suc n, refl, omega arith)
or_default-positive d (negsuc n) h = (d, refl, h)

at_least-ordered : (a b : ℕ) → (n : ℕ) × (at_least (pos a) (pos b) ≡ pos n) × (a ≤ n)
at_least-ordered a b = (if ltb b a then a else b, ground arith, ground arith)

-- The defaults give a positive minimum, and a maximum that is not below it.
pub with_defaults-ordered :
    (s : Subscriber)
    → (low : ℕ) × (high : ℕ) × ((with_defaults s).backoff_min ≡ pos low)
      × ((with_defaults s).backoff_max ≡ pos high)
      × (1 ≤ low)
      × (low ≤ high)
unfolding with_defaults
with_defaults-ordered s =
    let (low, el, positive) = or_default-positive second s.backoff_min (omega arith) in
    let (n, en, _) = or_default-positive (60 * second) s.backoff_max (omega arith) in
    let (high, eh, ordered) = at_least-ordered low n in
    (low, high, el, ap₂ at_least el en ∙ eh, positive, ordered)
