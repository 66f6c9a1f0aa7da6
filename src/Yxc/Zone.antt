-- ===== src/Yxc/Zone.antt =====
-- pkg/yxc/zone.go: the calls that act on a zone. The parameters of a call are a table, which
-- `url.Values` encodes in the request.
pub mod Given
pub mod Requests
pub mod Inputs
pub mod Paths
use yamaha_cli.Prelude.{
  ℕ, zero, suc, Bool, true, false, ◌&&◌, List, [], ◌∷◌, ◌++◌, Option, none, some, is_some, not, ℤ,
  pos, negsuc, if◌then◌else◌,
}
use yamaha_cli.Text.{Bytes, codes, equal, to_lower, itoa, Table, insert}
use yamaha_cli.Yxc.Client.{Client, do_request}
use yamaha_cli.Yxc.Errors.{Error, invalid, Result, ok, err}

-- `strconv.Itoa`
unfoldable pub itoa_ℤ : ℤ → Bytes
unfolding itoa
itoa_ℤ (pos n) = itoa n
itoa_ℤ (negsuc n) = b'-' ∷ itoa (suc n)

zone_named : Bytes → Result Bytes
unfolding equal
zone_named z =
    if equal z (codes "main")
    then ok (codes "main")
    else if equal z (codes "zone2")
    then ok (codes "zone2")
    else if equal z (codes "zone3")
    then ok (codes "zone3")
    else if equal z (codes "zone4")
    then ok (codes "zone4")
    else err (invalid (codes "zone"))

-- `validZone`
unfoldable pub valid_zone : Bytes → Result Bytes
unfolding zone_named to_lower
valid_zone zone = zone_named (to_lower zone)

-- A direction, or nothing of the two.
pub data VolumeArg : Type 0 where
  absolute : ℤ → VolumeArg
  up : ℤ → VolumeArg
  down : ℤ → VolumeArg
  empty : VolumeArg

abbrev with_step : ℤ → Table → Table
with_step (pos (suc n)) t = insert (codes "step") (itoa_ℤ (pos (suc n))) t
with_step _ t = t

abbrev pub one : Bytes → Bytes → Table
one k v = (k, v) ∷ []

-- `VolumeArg.values`
unfoldable pub volume_values : VolumeArg → Result Table
unfolding itoa_ℤ insert
volume_values (absolute n) = ok (one (codes "volume") (itoa_ℤ n))
volume_values (up step) = ok (with_step step (one (codes "volume") (codes "up")))
volume_values (down step) = ok (with_step step (one (codes "volume") (codes "down")))
volume_values empty = err (invalid (codes "VolumeArg is empty"))

pub record ToneControlArg : Type 0 where
  pub mode : Bytes
  pub bass : Option ℤ
  pub treble : Option ℤ

pub set_if : Bytes → Option Bytes → Table → Table
unfolding insert
set_if k none t = t
set_if k (some v) t = insert k v t

abbrev non_empty : Bytes → Option Bytes
non_empty s = if equal s [] then none else some s

abbrev shown : Option ℤ → Option Bytes
shown none = none
shown (some n) = some (itoa_ℤ n)

abbrev pub bool_text : Bool → Bytes
bool_text true = codes "true"
bool_text false = codes "false"

-- A call on the network that may fail before it.
abbrev pub Call : Type 0
Call = Client → Result Bytes × Client

module _ (response_code : Bytes → Option ℤ) where
  -- The request of a zone's method with these parameters.
  pub ask : Bytes → Result Table → Result Bytes → Call
  unfolding do_request
  ask method params (err e) c = (err e, c)
  ask method (err e) (ok z) c = (err e, c)
  ask method (ok params) (ok z) c = do_request response_code (z ++ b'/' ∷ method) params c

  abbrev required : Bytes → Bytes → Result Table
  required k v = if equal v [] then err (invalid k) else ok (one k v)

  unfoldable pub get_status : Bytes → Call
  unfolding ask valid_zone
  get_status zone = ask (codes "getStatus") (ok []) (valid_zone zone)

  pub power_values : Bytes → Result Table
  unfolding equal
  power_values power =
      if equal power (codes "on")
      then ok (one (codes "power") power)
      else if equal power (codes "standby")
      then ok (one (codes "power") power)
      else if equal power (codes "toggle")
      then ok (one (codes "power") power)
      else err (invalid (codes "power"))

  unfoldable pub set_power : Bytes → Bytes → Call
  unfolding ask valid_zone power_values
  set_power zone power = ask (codes "setPower") (power_values power) (valid_zone zone)

  unfoldable pub set_volume : Bytes → VolumeArg → Call
  unfolding ask valid_zone volume_values
  set_volume zone vol = ask (codes "setVolume") (volume_values vol) (valid_zone zone)

  unfoldable pub set_mute : Bytes → Bool → Call
  unfolding ask valid_zone
  set_mute zone on =
      ask (codes "setMute") (ok (one (codes "enable") (bool_text on))) (valid_zone zone)

  unfoldable pub prepare_input_change : Bytes → Bytes → Call
  unfolding ask valid_zone equal
  prepare_input_change zone input =
      ask (codes "prepareInputChange") (required (codes "input") input) (valid_zone zone)

  unfoldable pub set_sound_program : Bytes → Bytes → Call
  unfolding ask valid_zone equal
  set_sound_program zone program =
      ask (codes "setSoundProgram") (required (codes "program") program) (valid_zone zone)

  unfoldable pub set_sleep : Bytes → ℤ → Call
  unfolding ask valid_zone itoa_ℤ
  set_sleep zone minutes =
      ask (codes "setSleep") (ok (one (codes "sleep") (itoa_ℤ minutes))) (valid_zone zone)

  unfoldable pub set_surround_decoder : Bytes → Bytes → Call
  unfolding ask valid_zone equal
  set_surround_decoder zone decoder =
      ask (codes "setSurroundDecoderType") (required (codes "type") decoder) (valid_zone zone)

  pub scene_values : ℤ → Result Table
  unfolding itoa
  scene_values (pos (suc n)) = ok (one (codes "num") (itoa (suc n)))
  scene_values _ = err (invalid (codes "num"))

  unfoldable pub recall_scene : Bytes → ℤ → Call
  unfolding ask valid_zone scene_values
  recall_scene zone num = ask (codes "recallScene") (scene_values num) (valid_zone zone)

  pub tone_values : ToneControlArg → Result Table
  unfolding set_if equal itoa_ℤ
  tone_values arg =
      if equal arg.mode [] && not (is_some arg.bass) && not (is_some arg.treble)
      then err (invalid (codes "tone"))
      else ok (
          set_if (codes "treble") (shown arg.treble) (
            set_if (codes "bass") (shown arg.bass) (set_if (codes "mode") (non_empty arg.mode) [])))

  unfoldable pub set_tone_control : Bytes → ToneControlArg → Call
  unfolding ask valid_zone tone_values
  set_tone_control zone arg = ask (codes "setToneControl") (tone_values arg) (valid_zone zone)

  -- `SetPureDirect`, `SetEnhancer`, `SetExtraBass` and `SetAdaptiveDRC` by the method's name.
  unfoldable pub set_zone_enable : Bytes → Bytes → Bool → Call
  unfolding ask valid_zone
  set_zone_enable zone method on =
      ask method (ok (one (codes "enable") (bool_text on))) (valid_zone zone)

  pub set_input_then : Bytes → Bytes → Result Bytes × Client → Result Bytes × Client
  unfolding do_request
  set_input_then z input (err e, c) = (err e, c)
  set_input_then z input (ok raw, c) =
      do_request response_code (z ++ codes "/setInput") (one (codes "input") input) c

  pub set_input_at : (Bytes → Bool) → Bytes → Result Bytes → Call
  unfolding set_input_then prepare_input_change equal
  set_input_at prepares input (err e) c = (err e, c)
  set_input_at prepares input (ok z) c =
      if equal input []
      then (err (invalid (codes "input")), c)
      else if prepares z
      then set_input_then z input (prepare_input_change z input c)
      else set_input_then z input (ok [], c)

  -- `SetInput`, with the zones that have the function `prepare_input_change`.
  unfoldable pub set_input : (Bytes → Bool) → Bytes → Bytes → Call
  unfolding set_input_at valid_zone
  set_input prepares zone input = set_input_at prepares input (valid_zone zone)
