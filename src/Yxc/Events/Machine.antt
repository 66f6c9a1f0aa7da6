-- ===== src/Yxc/Events/Machine.antt =====
-- The events that the subscriber hands on.
use yamaha_cli.Prelude.{
  true, List, [], ◌∷◌, ◌++◌, Option, ℤ, ◌≡◌, refl, sym, subst, ap, ◌∙◌, inl, inr, Bool-cases, All,
  All-append, append_assoc,
}
use yamaha_cli.Text.{Bytes}
use yamaha_cli.Yxc.Backoff.{next_backoff}
use yamaha_cli.Yxc.Client.{Client}
use yamaha_cli.Yxc.Errors.{Error, Result, ok, err}
use yamaha_cli.Yxc.Events.{
  Address, Event, subscribed, renewed, reconnect, shutdown, pushed, Phase, waiting, steady,
  recovering, stopped, State, Input, cancelled, elapsed, packet, reader_failed, renew_due, silent,
  subscribe, registered, register, recovered, recover, renewal, step, start, Reaches, begin, take,
  slept_on, accepts,
}
use yamaha_cli.Yxc.Events.Backoffs.{Kept, of_kept}

module _ (expected : List Address) where
  -- An event of a subscription that goes on; a packet is from the receiver, if the filter is on.
  abbrev pub IsLive : Event → Type 0
  IsLive (shutdown e) = ⊥
  IsLive (pushed bytes from) = accepts expected from ≡ true
  IsLive _ = Unit

  -- A try of the first subscription that failed.
  abbrev pub IsFailure : Event → Type 0
  IsFailure (reconnect e) = Unit
  IsFailure _ = ⊥

  -- Failures, then the first success, and then anything.
  abbrev Opened : List Event → Type 0
  Opened es =
      (tries : List Event) × (rest : List Event) × All IsFailure tries
      × (es ≡ tries ++ subscribed ∷ rest)

  -- The events so far, by the phase.
  abbrev pub Story : Phase → List Event → Type 0
  Story waiting es = All IsFailure es
  Story steady es = All IsLive es × Opened es
  Story recovering es = All IsLive es × Opened es
  Story stopped es =
      (before : List Event) × (e : Error) × (es ≡ before ++ shutdown e ∷ []) × All IsLive before

  failures-IsLive : (es : List Event) → All IsFailure es → All IsLive es
  failures-IsLive [] h = tt
  failures-IsLive (reconnect e ∷ es) h = (tt, failures-IsLive es h.1)
  failures-IsLive (subscribed ∷ es) h = absurd h.0
  failures-IsLive (renewed ∷ es) h = absurd h.0
  failures-IsLive (shutdown e ∷ es) h = absurd h.0
  failures-IsLive (pushed b a ∷ es) h = absurd h.0

  one_more : (es : List Event) (e : Event) → All IsLive es → IsLive e → All IsLive (es ++ e ∷ [])
  one_more es e h is = All-append IsLive es (e ∷ []) h (is, tt)

  append-Opened : (es : List Event) (e : Event) → Opened es → Opened (es ++ e ∷ [])
  append-Opened es e (tries, rest, h, split) = (
    tries,
    rest ++ e ∷ [],
    h,
    ap (λ es. es ++ e ∷ []) split ∙ append_assoc tries (subscribed ∷ rest) (e ∷ []),
  )

  go_on :
      (es : List Event) (e : Event)
      → All IsLive es × Opened es
      → IsLive e
      → All IsLive (es ++ e ∷ []) × Opened (es ++ e ∷ [])
  go_on es e h is = (one_more es e h.0 is, append-Opened es e h.1)

  module _ (response_code : Bytes → Option ℤ) (zones : List Bytes) (min max : ℤ) where
    registered-Story :
        (s : State) (x : Result (Unit {0}) × Client)
        → All IsFailure s.emitted
        → (let t = registered response_code zones min max expected s x in Story t.phase t.emitted)
    unfolding registered
    registered-Story s (ok _, c) h =
        (one_more s.emitted subscribed (failures-IsLive s.emitted h) tt, (s.emitted, [], h, refl))
    registered-Story s (err e, c) h = All-append IsFailure s.emitted (reconnect e ∷ []) h (tt, tt)

    recovered-Story :
        (s : State) (x : Result (Unit {0}) × Client)
        → All IsLive s.emitted × Opened s.emitted
        → (let t = recovered response_code zones min max expected s x in Story t.phase t.emitted)
    unfolding recovered
    recovered-Story s (ok _, c) h = go_on s.emitted subscribed h tt
    recovered-Story s (err e, c) h = go_on s.emitted (reconnect e) h tt

    renewal-Story :
        (s : State) (x : Result (Unit {0}) × Client)
        → s.phase ≡ steady
        → All IsLive s.emitted × Opened s.emitted
        → (let t = renewal response_code zones min max expected s x in Story t.phase t.emitted)
    unfolding renewal
    renewal-Story s (ok _, c) at h =
        subst (λ p. Story p (s.emitted ++ renewed ∷ [])) (sym at) (go_on s.emitted renewed h tt)
    renewal-Story s (err e, c) at h = go_on s.emitted (reconnect e) h tt

    abbrev Told : State → Type 0
    Told s = Story s.phase s.emitted

    stop-Story :
        (s : State) (e : Error)
        → All IsLive s.emitted
        → Story stopped (s.emitted ++ shutdown e ∷ [])
    stop-Story s e h = (s.emitted, e, refl, h)

    step-Told :
        (p : Phase) (i : Input) (s : State)
        → s.phase ≡ p
        → Story p s.emitted
        → Kept Told (step response_code zones min max expected p i s)
    unfolding step register recover
    step-Told waiting (cancelled e) s at h = stop-Story s e (failures-IsLive s.emitted h)
    step-Told waiting elapsed s at h =
        registered-Story (record (slept_on s) { backoff = next_backoff s.backoff max })
          (subscribe response_code zones min max expected zones s.client) h
    step-Told waiting _ s at h = tt
    step-Told recovering (cancelled e) s at h = stop-Story s e h.0
    step-Told recovering elapsed s at h =
        recovered-Story (slept_on s) (subscribe response_code zones min max expected zones s.client)
          h
    step-Told recovering _ s at h = tt
    step-Told steady (cancelled e) s at h = stop-Story s e h.0
    step-Told steady (reader_failed e) s at h = stop-Story s e h.0
    step-Told steady (packet bytes from) s at h = elim (Bool-cases (accepts expected from)) [
      | inl e ↦ rw e (
          subst (λ p. Story p (s.emitted ++ pushed bytes from ∷ [])) (sym at)
            (go_on s.emitted (pushed bytes from) h e))
      | inr e ↦ rw e (subst (λ p. Story p s.emitted) (sym at) h)
    ]
    step-Told steady renew_due s at h =
        renewal-Story s (subscribe response_code zones min max expected zones s.client) at h
    step-Told steady silent s at h = go_on s.emitted (reconnect _) h tt
    step-Told steady elapsed s at h = tt
    step-Told stopped _ s at h = tt

    -- The story of every run, whatever the receiver, the network and the sender of packets do: failed
    -- tries, and nothing else, until the subscription is made; from then on no packet of a sender that
    -- the filter does not accept; and after a shutdown, which comes exactly if the subscriber stops,
    -- nothing.
    pub Reaches-Story :
        (c : Client) (s : State)
        → Reaches response_code zones min max expected c s
        → Story s.phase s.emitted
    unfolding start register
    Reaches-Story c s begin =
        registered-Story
          (record { phase = waiting; backoff = min; slept = []; emitted = []; client = c })
          (subscribe response_code zones min max expected zones c) tt
    Reaches-Story c s (take {s = r} i run e) =
        of_kept Told (step response_code zones min max expected r.phase i r) s e
          (step-Told r.phase i r refl (Reaches-Story c r run))
