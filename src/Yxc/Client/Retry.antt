-- ===== src/Yxc/Client/Retry.antt =====
-- What the request engine sends, and when it asks a second time.
use yamaha_cli.Prelude.{
  ℕ, ◌+◌, true, false, [], ◌∷◌, ◌++◌, append_assoc, Option, none, some, ℤ, pos, negsuc, ◌≡◌, refl,
  ap, ◌∙◌, ◌⊎◌, inl, inr, arith, Bool-cases, take, Option-cases, zero, suc,
}
use yamaha_cli.Text.{Bytes, Table}
use yamaha_cli.Yxc.Client.{
  Answer, failed, replied, body_failed, Request, Client, api_path_prefix, turn_of, rate_limit_wait,
  sent_at, outcome, code_result, attempt, retry, retried, do_method, default_retry_wait,
  max_response_body,
}
use yamaha_cli.Yxc.Errors.{Leaf, Error, should_retry, is_transport, Result, ok, err}

-- No reply was read to its end: the request failed, or reading the body did.
abbrev pub IsLost : Answer → Type 0
IsLost (replied n raw) = ⊥
IsLost _ = Unit

-- A request of this method, these parameters and this port.
pub record IsFor (method : Bytes) (query : Table) (port : ℕ) (r : Request) : Type 0 where
  pub path_eq : r.path ≡ api_path_prefix ++ method
  pub query_eq : r.query ≡ query
  pub port_eq : r.port ≡ port

-- One request more, or two if no reply to the first was read to its end.
abbrev pub Asked : Bytes → Table → ℕ → Client → Client → Type 0
Asked method query port c c' =
    ((r : Request) × IsFor method query port r × (c'.requests ≡ c.requests ++ r ∷ []))
    ⊎ ((r : Request) × (s : Request) × IsFor method query port r
        × IsFor method query port s
        × (c'.requests ≡ c.requests ++ r ∷ s ∷ [])
        × IsLost (turn_of c.turns).answer)

rate_limit_wait-requests :
    (o : Option Leaf) (c : Client) → (rate_limit_wait o c).requests ≡ c.requests
unfolding rate_limit_wait
rate_limit_wait-requests o c = ground arith

sent_at-IsFor :
    (c : Client) (method : Bytes) (query : Table) (port took : ℕ)
    → IsFor method query port (sent_at c method query port took)
sent_at-IsFor c method query port took = record { path_eq = refl; query_eq = refl; port_eq = refl }

module _ (response_code : Bytes → Option ℤ) (method : Bytes) (query : Table) (port : ℕ) where
  attempt-requests :
      (c : Client)
      → (r : Request) × IsFor method query port r
        × ((attempt response_code method query port c).1.requests ≡ c.requests ++ r ∷ [])
  unfolding attempt
  attempt-requests c =
      let t = turn_of c.turns in
      let w = rate_limit_wait t.done_in_wait c in
      (
        sent_at w method query port t.took,
        sent_at-IsFor w method query port t.took,
        ap (λ rs. rs ++ sent_at w method query port t.took ∷ [])
            (rate_limit_wait-requests t.done_in_wait c),
      )

  code_result-final :
      (raw : Bytes) (code : Option ℤ) (after : Option Leaf) {e : Error}
      → code_result method raw code ≡ err e
      → should_retry after e ≡ false
  unfolding code_result should_retry is_transport
  code_result-final raw none after h = ground arith
  code_result-final raw (some (pos zero)) after h = cc
  code_result-final raw (some (pos (suc n))) after h = ground arith
  code_result-final raw (some (negsuc n)) after h = ground arith

  -- An error that is tried again is of an attempt whose reply was not read to its end.
  outcome-IsLost :
      (a : Answer) (after : Option Leaf) (e : Error)
      → outcome response_code method a ≡ err e
      → should_retry after e ≡ true
      → IsLost a
  unfolding outcome should_retry is_transport
  outcome-IsLost (failed o f) after e h k = tt
  outcome-IsLost (body_failed f) after e h k = tt
  outcome-IsLost (replied n raw) after e h k =
      let kept = take max_response_body raw in
      ground (arith, code_result-final kept (response_code kept) after)

  retried-Asked :
      (c : Client) (x : Result Bytes × Client) (r : Request)
      → IsFor method query port r
      → x.1.requests ≡ c.requests ++ r ∷ []
      → ((e : Error)
          → x.0 ≡ err e
          → should_retry (turn_of c.turns).context_after e ≡ true
          → IsLost (turn_of c.turns).answer)
      → Asked method query port c (retried response_code method query port (turn_of c.turns) x).1
  unfolding retried retry
  retried-Asked c (ok raw, d) r is h lost = inl (r, is, h)
  retried-Asked c (err e, d) r is h lost =
      elim (Bool-cases (should_retry (turn_of c.turns).context_after e)) [
        | inr e' ↦ rw e' (inl (r, is, h))
        | inl e' ↦ rw e' (elim (Option-cases (turn_of c.turns).done_in_pause) [
          | inr (l, e'') ↦ rw e'' (inl (r, is, h))
          | inl e'' ↦ rw e'' (
              let (s, is', h') =
                attempt-requests (record d { clock = d.clock + default_retry_wait }) in
              inr (
                r,
                s,
                is,
                is',
                h' ∙ ap (λ rs. rs ++ s ∷ []) h ∙ append_assoc c.requests (r ∷ []) (s ∷ []),
                lost e refl e',
              ))
        ])
      ]

  -- Whatever the network does, a call sends its request once, or twice if no reply to the first was
  -- read to its end (the request failed, or reading the body did). After a reply that was read to its
  -- end, with whatever status, response code or body, the request is not sent again.
  pub do_method-Asked :
      (c : Client) → Asked method query port c (do_method response_code method query port c).1
  unfolding do_method attempt
  do_method-Asked c =
      let (r, is, h) = attempt-requests c in
      retried-Asked c (attempt response_code method query port c) r is h
        (outcome-IsLost (turn_of c.turns).answer (turn_of c.turns).context_after)
