-- ===== src/Yxc/Zone/Requests.antt =====
-- The zones, and a request of one of them.
use yamaha_cli.Prelude.{◌∷◌, ◌++◌, Option, ℤ, ◌≡◌, refl, sym, subst, ◌⊎◌, inl, inr, arith}
use yamaha_cli.Text.{Bytes, codes, has_prefix, to_lower, Table}
use yamaha_cli.Yxc.Client.{Client, do_request, do_method, trim_slash}
use yamaha_cli.Yxc.Client.Retry.{Asked, do_method-Asked}
use yamaha_cli.Yxc.Errors.{Error, ok, err}
use yamaha_cli.Yxc.Zone.{Call, valid_zone, zone_named}

-- The four zones.
abbrev pub IsZone : Bytes → Type 0
IsZone z = (z ≡ codes "main") ⊎ ((z ≡ codes "zone2") ⊎ ((z ≡ codes "zone3") ⊎ (z ≡ codes "zone4")))

zone_named-IsZone : (s : Bytes) {z : Bytes} → zone_named s ≡ ok z → IsZone z
unfolding zone_named
zone_named-IsZone s h = ground arith

pub valid_zone-IsZone : (zone : Bytes) {z : Bytes} → valid_zone zone ≡ ok z → IsZone z
unfolding valid_zone
valid_zone-IsZone zone h = zone_named-IsZone (to_lower zone) h

pub zone-valid : (zone : Bytes) → IsZone zone → valid_zone zone ≡ ok zone
unfolding valid_zone to_lower
zone-valid zone (inl e) = subst (λ z. valid_zone z ≡ ok z) (sym e) refl
zone-valid zone (inr (inl e)) = subst (λ z. valid_zone z ≡ ok z) (sym e) refl
zone-valid zone (inr (inr (inl e))) = subst (λ z. valid_zone z ≡ ok z) (sym e) refl
zone-valid zone (inr (inr (inr e))) = subst (λ z. valid_zone z ≡ ok z) (sym e) refl

trim_slash_zone : (z rest : Bytes) → IsZone z → trim_slash (z ++ rest) ≡ z ++ rest
unfolding has_prefix
trim_slash_zone z rest is = elim is [
  | inl e ↦ subst (λ z. trim_slash (z ++ rest) ≡ z ++ rest) (sym e) refl
  | inr (inl e) ↦ subst (λ z. trim_slash (z ++ rest) ≡ z ++ rest) (sym e) refl
  | inr (inr (inl e)) ↦ subst (λ z. trim_slash (z ++ rest) ≡ z ++ rest) (sym e) refl
  | inr (inr (inr e)) ↦ subst (λ z. trim_slash (z ++ rest) ≡ z ++ rest) (sym e) refl
]

-- A call with bad arguments fails, and the client is as it was: no request is sent.
abbrev pub Refuses : Call → Type 0
Refuses call = (c : Client) → (e : Error) × (call c ≡ (err e, c))

module _ (response_code : Bytes → Option ℤ) where
  pub do_request-Asked :
      (z method : Bytes) (params : Table) (c : Client)
      → IsZone z
      → Asked
          (z ++ b'/' ∷ method)
          params
          0
          c
          (do_request response_code (z ++ b'/' ∷ method) params c).1
  unfolding do_request
  do_request-Asked z method params c is =
      subst (λ m. Asked (z ++ b'/' ∷ method) params 0 c (do_method response_code m params 0 c).1)
        (sym (trim_slash_zone z (b'/' ∷ method) is))
        (do_method-Asked response_code (z ++ b'/' ∷ method) params 0 c)
