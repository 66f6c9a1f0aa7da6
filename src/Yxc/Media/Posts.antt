-- ===== src/Yxc/Media/Posts.antt =====
-- What the calls on the tuner, the network player and a Link group ask for.
use yamaha_cli.Prelude.{suc, [], ◌∷◌, Option, some, none, ◌||◌, if◌then◌else◌, ℤ, pos, negsuc}
use yamaha_cli.Text.{Bytes, codes, has, is_empty, itoa, Table, to_lower}
use yamaha_cli.Yxc.Client.{Client}
use yamaha_cli.Yxc.Client.Retry.{Asked}
use yamaha_cli.Yxc.Zone.{Call}
use yamaha_cli.Yxc.Zone.Requests.{Refuses}
use yamaha_cli.Yxc.Media.{bands, playbacks}

-- With parameters, the call asks for its method; without, it refuses.
abbrev pub Posts : Bytes → Option Table → Call → Type 0
Posts method (some t) call = (c : Client) → Asked method t 0 c (call c).1
Posts method none call = Refuses call

-- The band in lower case, if it is one of the three.
abbrev pub band_given : Bytes → Option Bytes
band_given band = if has (to_lower band) bands then some (to_lower band) else none

-- A number above 0.
abbrev pub number_given : ℤ → Option Bytes
number_given (pos (suc n)) = some (itoa (suc n))
number_given _ = none

abbrev pub and_then {ℓ} : {A B : Type ℓ} → Option A → (A → Option B) → Option B
and_then none f = none
and_then (some a) f = f a

abbrev pub freq_given : Bytes → ℤ → Option Table
freq_given band n = and_then (band_given band) λ b.
    and_then (number_given n)
      λ m. some ((codes "band", b) ∷ (codes "tuning", codes "direct") ∷ (codes "num", m) ∷ [])

abbrev pub tuner_preset_given : Option Bytes → Bytes → ℤ → Option Table
tuner_preset_given zone band n = and_then zone λ z. and_then (band_given band) λ b.
    and_then (number_given n)
      λ m. some ((codes "zone", z) ∷ (codes "band", b) ∷ (codes "num", m) ∷ [])

abbrev pub preset_given : Option Bytes → ℤ → Option Table
preset_given zone n =
    and_then zone
      λ z. and_then (number_given n) λ m. some ((codes "zone", z) ∷ (codes "num", m) ∷ [])

abbrev pub playback_given : Bytes → Option Table
playback_given p = if has p playbacks then some ((codes "playback", p) ∷ []) else none

abbrev pub client_info_given : Bytes → Option Bytes → Bytes → Option Table
client_info_given group_id zone server_ip =
    if is_empty group_id || is_empty server_ip
    then none
    else and_then zone λ z. some (
        (codes "group_id", group_id)
        ∷ (codes "zone", z)
        ∷ (codes "server_ip_address", server_ip)
        ∷ [])

-- A number of 0 or above.
abbrev pub start_given : ℤ → Option Table
start_given (pos n) = some ((codes "num", itoa n) ∷ [])
start_given (negsuc n) = none
