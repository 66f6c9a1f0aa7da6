-- ===== src/Tests/Decoders.antt =====
-- Tests of the decoders of fan-outs, and the theorems about them at concrete inputs.
use yamaha_cli.Prelude.{ℕ, ◌*◌, ◌/◌, false, List, [], ◌∷◌, pos_part, ltb, ◌==◌}
use yamaha_cli.Text.{Bytes, codes, itoa, unsigned}
use yamaha_cli.Ynca.Codec.{Floats}

-- Numbers with no fraction and no sign.
abbrev whole : Floats
whole = record {
  F = ℕ;
  zero_float = 0;
  half = 1;
  fifth = 1;
  ten = 10;
  of_int = pos_part;
  is_positive = λ n. ltb 0 n;
  is_zero = λ n. n == 0;
  is_nan = λ n. false;
  is_inf = λ n. false;
  div = λ a b. a / b;
  mul = λ a b. a * b;
  round = λ n. n;
  parse_float = unsigned;
  format_float = λ n decimals. itoa n;
}

abbrev main : Bytes
main = codes "MAIN"

abbrev lines : List Bytes
lines =
    codes "@MAIN:PWR=On"
    ∷ codes "@ZONE2:PWR=Standby"
    ∷ codes "noise"
    ∷ codes "@main:vol=40"
    ∷ codes "@MAIN:VOL=loud"
    ∷ codes "@MAIN:MUTE=Att -20 dB"
    ∷ []

abbrev songs : List Bytes
songs = codes "@SPOTIFY:SONG=A" ∷ codes "@SPOTIFY:SONG=B" ∷ codes "@SPOTIFY:ARTIST=C=D" ∷ []

abbrev radio : List Bytes
radio = codes "@TUN:RDSTXTA=hello" ∷ codes "@MAIN:RDSTXTA=x" ∷ []

abbrev scene_lines : List Bytes
scene_lines = codes "@MAIN:SCENE2NAME=TV" ∷ codes "@MAIN:SCENE1NAME=Radio" ∷ []
