-- ===== src/Cli/Root/Code.antt =====
-- The exit code of the error that `Execute` returns.
use yamaha_cli.Prelude.{
  Bool, true, ◌&&◌, not, List, [], ◌∷◌, ◌≡◌, refl, ◌∙◌, arith, inl, inr, Bool-cases,
}
use yamaha_cli.Cli.Errors as Errors
use yamaha_cli.Cli.Errors.{
  Kind, Error, has, exit_code, ranked, is_interrupt, is_no_device, is_unavailable,
  is_context_canceled, is_yxc_transport, is_unsupported, is_restricted, is_generic, is_usage,
  is_cobra_usage_error,
}
use yamaha_cli.Cli.Rediscover.{unreachable_error}
use yamaha_cli.Cli.Rediscover.Twin.{is_ynca_transport}
use yamaha_cli.Cli.Root.{
  is_unreachable, is_cancelled, wrap_transport_error, cancelled_by, execute_error,
}

-- A test of one kind that another test implies.
has-implies :
    (p q : Kind → Bool) (ks : List Kind)
    → ((k : Kind) → p k ≡ true → q k ≡ true)
    → has p ks ≡ true
    → has q ks ≡ true
unfolding has
has-implies p q [] h e = e
has-implies p q (k ∷ ks) h e = ground (arith, h k, has-implies p q ks h)

yxc-unavailable : (k : Kind) → is_yxc_transport k ≡ true → is_unavailable k ≡ true
unfolding is_yxc_transport is_unavailable
yxc-unavailable (Errors.yxc e) h = h
yxc-unavailable _ h = cc

ynca-unavailable : (k : Kind) → is_ynca_transport k ≡ true → is_unavailable k ≡ true
unfolding is_ynca_transport is_unavailable
ynca-unavailable (Errors.ynca e) h = h
ynca-unavailable _ h = cc

canceled-interrupt : (k : Kind) → is_context_canceled k ≡ true → is_interrupt k ≡ true
unfolding is_context_canceled is_interrupt
canceled-interrupt Errors.cancelled h = refl
canceled-interrupt k h = h

code-unreachable :
    (e : Error) → has is_unavailable e.chain ≡ true → exit_code (unreachable_error e) ≡ exit_code e
unfolding exit_code ranked has is_interrupt is_no_device is_unavailable
code-unreachable e h = ground arith

code-wrap_transport_error : (e : Error) → exit_code (wrap_transport_error e) ≡ exit_code e
unfolding wrap_transport_error
code-wrap_transport_error e =
    elim (Bool-cases (not (has is_yxc_transport e.chain) && not (has is_ynca_transport e.chain))) [
      | inl q ↦ rw (wrap_transport_error, q) refl
      | inr q ↦ elim (Bool-cases (has is_unreachable e.chain)) [
        | inl u ↦ rw (wrap_transport_error, q, u) refl
        | inr u ↦ elim (Bool-cases (has is_cancelled e.chain)) [
          | inl c ↦ rw (wrap_transport_error, q, u, c) refl
          | inr c ↦
              rw (wrap_transport_error, q, u, c)
                (code-unreachable e (
                  ground (
                    arith,
                    has-implies is_yxc_transport is_unavailable e.chain yxc-unavailable,
                    has-implies is_ynca_transport is_unavailable e.chain ynca-unavailable,
                  )))
        ]
      ]
    ]

code-cancelled_by :
    (e : Error) → has is_interrupt e.chain ≡ true → exit_code (cancelled_by e) ≡ exit_code e
unfolding exit_code ranked has is_interrupt
code-cancelled_by e h = ground arith

-- What `Execute` makes of an error for its message, that it is an interrupt or that the receiver is not
-- reachable, leaves the exit code as it is for the command's own error.
pub exit_code-execute_error : (e : Error) → exit_code (execute_error e) ≡ exit_code e
unfolding execute_error
exit_code-execute_error e = elim (Bool-cases (has is_context_canceled e.chain)) [
  | inr n ↦ rw (execute_error, n) (code-wrap_transport_error e)
  | inl c ↦
      rw (execute_error, c)
        (code-wrap_transport_error (cancelled_by e)
          ∙ code-cancelled_by e
              (has-implies is_context_canceled is_interrupt e.chain canceled-interrupt c))
]
