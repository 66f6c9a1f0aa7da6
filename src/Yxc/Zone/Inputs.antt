-- ===== src/Yxc/Zone/Inputs.antt =====
-- Which requests `SetInput` of pkg/yxc/zone.go sends.
use yamaha_cli.Prelude.{
  Bool, true, false, [], ◌++◌, Option, some, ℤ, ◌≡◌, refl, sym, subst, ◌⊎◌, inl, inr, if◌then◌else◌,
  Bool-cases,
}
use yamaha_cli.Text.{Bytes, codes, equal, Table}
use yamaha_cli.Yxc.Client.{Client}
use yamaha_cli.Yxc.Client.Retry.{Asked}
use yamaha_cli.Yxc.Errors.{invalid, Result, ok, err}
use yamaha_cli.Yxc.Zone.Given.{accepted, if_given}
use yamaha_cli.Yxc.Zone.{set_input_then, set_input_at, one, Call, ask, prepare_input_change}
use yamaha_cli.Yxc.Zone.Requests.{IsZone, zone-valid, Refuses, do_request-Asked}

-- The input is set, in a zone that has the function behind a request that prepares the change; if the
-- preparation fails, it is the last request.
abbrev pub SetsInput : Bool → Bytes → Table → Client → Client → Type 0
SetsInput false z t c c' = Asked (z ++ codes "/setInput") t 0 c c'
SetsInput true z t c c' =
    (mid : Client) × Asked (z ++ codes "/prepareInputChange") t 0 c mid
    × ((c' ≡ mid) ⊎ Asked (z ++ codes "/setInput") t 0 mid c')

abbrev pub TargetsInput : (Bytes → Bool) → Option Bytes → Option Table → Call → Type 0
TargetsInput prepares (some z) (some t) call =
    IsZone z × ((c : Client) → SetsInput (prepares z) z t c (call c).1)
TargetsInput prepares _ _ call = Refuses call

module _ (response_code : Bytes → Option ℤ) where
  set_input_then-Asked :
      (z input : Bytes) (x : Result Bytes × Client)
      → IsZone z
      → ((set_input_then response_code z input x).1 ≡ x.1)
        ⊎ Asked
            (z ++ codes "/setInput")
            (one (codes "input") input)
            0
            x.1
            (set_input_then response_code z input x).1
  unfolding set_input_then
  set_input_then-Asked z input (err e, c) is = inl refl
  set_input_then-Asked z input (ok raw, c) is =
      inr (do_request-Asked response_code z (codes "setInput") (one (codes "input") input) c is)

  prepare_input_change-Asked :
      (z input : Bytes) (c : Client)
      → IsZone z
      → equal input [] ≡ false
      → Asked
          (z ++ codes "/prepareInputChange")
          (one (codes "input") input)
          0
          c
          (prepare_input_change response_code z input c).1
  unfolding prepare_input_change ask
  prepare_input_change-Asked z input c is e =
      rw (zone-valid z is, e)
        (do_request-Asked response_code z (codes "prepareInputChange") (one (codes "input") input) c
          is)

  set_input_named :
      (prepares : Bytes → Bool) (z input : Bytes) (c : Client)
      → equal input [] ≡ false
      → set_input_at response_code prepares input (ok z) c
        ≡ set_input_then response_code z input
            (if prepares z then prepare_input_change response_code z input c else (ok [], c))
  unfolding set_input_at
  set_input_named prepares z input c e = elim (Bool-cases (prepares z)) [
    | inl p ↦ rw (e, p) refl
    | inr p ↦ rw (e, p) refl
  ]

  sets_input :
      (b : Bool) (z input : Bytes) (c : Client)
      → IsZone z
      → equal input [] ≡ false
      → SetsInput b z
          (one (codes "input") input)
          c
          (set_input_then response_code z input
            (if b then prepare_input_change response_code z input c else (ok [], c))).1
  unfolding set_input_then
  sets_input true z input c is e =
      let x = prepare_input_change response_code z input c in
      (x.1, prepare_input_change-Asked z input c is e, set_input_then-Asked z input x is)
  sets_input false z input c is e =
      do_request-Asked response_code z (codes "setInput") (one (codes "input") input) c is

  pub set_input_at-TargetsInput :
      (prepares : Bytes → Bool) (input : Bytes) (zone : Result Bytes)
      → ((z : Bytes) → zone ≡ ok z → IsZone z)
      → TargetsInput prepares
          (accepted zone)
          (if_given (codes "input") input)
          (set_input_at response_code prepares input zone)
  unfolding set_input_at
  set_input_at-TargetsInput prepares input (err e) is = λ c. (e, refl)
  set_input_at-TargetsInput prepares input (ok z) is = elim (Bool-cases (equal input [])) [
    | inl e ↦ rw (TargetsInput, e) (λ c. (invalid (codes "input"), rw e refl))
    | inr e ↦
        rw (TargetsInput, e)
          (
            is z refl,
            λ c.
                subst (λ y. SetsInput (prepares z) z (one (codes "input") input) c y.1)
                  (sym (set_input_named prepares z input c e))
                  (sets_input (prepares z) z input c (is z refl) e),
          )
  ]
