-- ===== src/Ynca/Functions.antt =====
-- pkg/ynca/functions.go: the catalog of functions. A lister of values is the list that it returns.
use yamaha_cli.Prelude.{
  ℕ, ◌+◌, ◌%◌, ◌/◌, ◌==◌, ◌≡◌, refl, ap, Bool, true, false, not, ◌&&◌, List, [], ◌∷◌, ◌++◌, Option,
  none, some, if◌then◌else◌, Bool-cases, inl, inr, All,
}
use yamaha_cli.Text.{Bytes, codes, equal_fold}
use yamaha_cli.Ynca.Enums.Names.{all_inputs, all_sound_programs, all_two_ch_decoders}

-- `Cmd`, a mask of two bits
abbrev pub Cmd : Type 0
Cmd = ℕ

abbrev pub cmd_get : Cmd
cmd_get = 1

abbrev pub cmd_put : Cmd
cmd_put = 2

-- `c&CmdGet != 0`
unfoldable pub can_get : Cmd → Bool
can_get c = not (c % 2 == 0)

-- `c&CmdPut != 0`
unfoldable pub can_put : Cmd → Bool
can_put c = not (c / 2 % 2 == 0)

-- `String`
unfoldable pub cmd_text : Cmd → Bytes
unfolding can_get can_put
cmd_text c =
    if can_get c && can_put c
    then codes "get/put"
    else if can_get c
    then codes "get"
    else if can_put c
    then codes "put"
    else []

pub data Scope : Type 0 where
  system zone tuner source : Scope

unfoldable pub same_scope : Scope → Scope → Bool
same_scope system system = true
same_scope zone zone = true
same_scope tuner tuner = true
same_scope source source = true
same_scope _ _ = false

pub record Function : Type 0 where
  pub name : Bytes
  pub scope : Scope
  pub cmd : Cmd
  pub desc : Bytes
  pub values : Option (List Bytes)

entry : Bytes → Scope → Cmd → Bytes → Option (List Bytes) → Function
entry name scope cmd desc values = record {
  name = name;
  scope = scope;
  cmd = cmd;
  desc = desc;
  values = values;
}

unfoldable pub catalog : List Function
unfolding entry
catalog =
    entry (codes "MODELNAME") system (cmd_get) (codes "Receiver model name (e.g. RX-V583)") none
    ∷ entry (codes "VERSION") system (cmd_get) (codes "Firmware/protocol version") none
    ∷ entry (codes "PWR") system (cmd_get + cmd_put) (codes "System power (On/Standby)") none
    ∷ entry (codes "INPNAME") system (cmd_get)
        (codes "Per-connector input display names (INPNAME group)") none
    ∷ entry (codes "PWR") zone (cmd_get + cmd_put) (codes "Zone power (On/Standby)") none
    ∷ entry (codes "VOL") zone (cmd_get + cmd_put)
        (codes "Zone volume in dB (0.5 dB grid; Up/Down for relative)") none
    ∷ entry (codes "MUTE") zone (cmd_get + cmd_put)
        (codes "Zone mute (Off/On/Att -20 dB/Att -40 dB)") none
    ∷ entry (codes "INP") zone (cmd_get + cmd_put) (codes "Zone input/source") (some all_inputs)
    ∷ entry (codes "SOUNDPRG") zone (cmd_get + cmd_put) (codes "DSP sound program")
        (some all_sound_programs)
    ∷ entry (codes "2CHDECODER") zone (cmd_get + cmd_put) (codes "2-channel surround decoder")
        (some all_two_ch_decoders)
    ∷ entry (codes "SCENE") zone (cmd_put) (codes "Recall a scene (Scene <n>)") none
    ∷ entry (codes "SLEEP") zone (cmd_get + cmd_put) (codes "Sleep timer (Off/30/60/90/120 min)")
        none
    ∷ entry (codes "SPBASS") zone (cmd_get + cmd_put)
        (codes "Speaker bass tone in dB (0.5 dB grid)") none
    ∷ entry (codes "SPTREBLE") zone (cmd_get + cmd_put)
        (codes "Speaker treble tone in dB (0.5 dB grid)") none
    ∷ entry (codes "BASIC") zone (cmd_get) (codes "Fan-out GET of the zone's common fields") none
    ∷ entry (codes "PUREDIRMODE") zone (cmd_get + cmd_put) (codes "Pure Direct mode (On/Off)") none
    ∷ entry (codes "ENHANCER") zone (cmd_get + cmd_put) (codes "Compressed Music Enhancer (On/Off)")
        none
    ∷ entry (codes "EXBASS") zone (cmd_get + cmd_put) (codes "Extra Bass (Auto/Off)") none
    ∷ entry (codes "ADAPTIVEDRC") zone (cmd_get + cmd_put) (codes "Adaptive DRC (Auto/Off)") none
    ∷ entry (codes "STRAIGHT") zone (cmd_get + cmd_put) (codes "Straight decode (On/Off)") none
    ∷ entry (codes "SURROUNDAI") zone (cmd_get + cmd_put) (codes "Surround:AI (On/Off)") none
    ∷ entry (codes "3DCINEMA") zone (cmd_get + cmd_put) (codes "CINEMA DSP 3D mode (Auto/Off)") none
    ∷ entry (codes "BAND") tuner (cmd_get + cmd_put) (codes "Tuner band (AM/FM)") none
    ∷ entry (codes "FMFREQ") tuner (cmd_get + cmd_put) (codes "FM frequency (0.2 MHz grid)") none
    ∷ entry (codes "AMFREQ") tuner (cmd_get + cmd_put) (codes "AM frequency (10 kHz grid)") none
    ∷ entry (codes "PRESET") tuner (cmd_get + cmd_put)
        (codes "Tuner preset number (Up/Down for relative)") none
    ∷ entry (codes "MEM") tuner (cmd_put) (codes "Store current station to a preset slot") none
    ∷ entry (codes "PLAYBACK") source (cmd_put)
        (codes "Transport control (Play/Pause/Stop/Skip Fwd/Skip Rev)") none
    ∷ entry (codes "PLAYBACKINFO") source (cmd_get)
        (codes "Current transport state (Play/Pause/Stop)") none
    ∷ entry (codes "METAINFO") source (cmd_get)
        (codes "Now-playing metadata fan-out (artist/album/song/…)") none
    ∷ []

in_scope : Scope → List Function → List Function
unfolding same_scope
in_scope scope [] = []
in_scope scope (f ∷ fs) =
    let rest = in_scope scope fs in if same_scope f.scope scope then f ∷ rest else rest

-- `FunctionsForScope`
unfoldable pub functions_for_scope : Scope → List Function
unfolding in_scope catalog
functions_for_scope scope = in_scope scope catalog

first_named : Bytes → List Function → Option Function
first_named name [] = none
first_named name (f ∷ fs) =
    let rest = first_named name fs in if equal_fold f.name name then some f else rest

-- `LookupFunction`
unfoldable pub lookup_function : Bytes → Option Function
unfolding first_named catalog
lookup_function name = first_named name catalog

abbrev IsFirst : Bytes → List Function → Option Function → Type 0
IsFirst name fs none = All (λ (f : Function). equal_fold f.name name ≡ false) fs
IsFirst name fs (some f) =
    (before : List Function) × (after : List Function) × (fs ≡ before ++ f ∷ after)
    × (equal_fold f.name name ≡ true)
    × All (λ (g : Function). equal_fold g.name name ≡ false) before

first_named-IsFirst : (name : Bytes) (fs : List Function) → IsFirst name fs (first_named name fs)
unfolding first_named
first_named-IsFirst name [] = tt
first_named-IsFirst name (f ∷ fs) = elim (Bool-cases (equal_fold f.name name)) [
  | inl e ↦ rw (IsFirst, e) ([], fs, refl, e, tt)
  | inr e ↦ rw (IsFirst, e) (later (first_named name fs) (first_named-IsFirst name fs) e)
]
  where
    later :
        (r : Option Function)
        → IsFirst name fs r
        → equal_fold f.name name ≡ false
        → IsFirst name (f ∷ fs) r
    later none h e = (e, h)
    later (some g) (before, after, q, n, a) e = (f ∷ before, after, ap (λ l. f ∷ l) q, n, (e, a))

-- A lookup gives the first entry that has the name in some case, and none if no entry has it.
lookup_function-IsFirst : (name : Bytes) → IsFirst name catalog (lookup_function name)
unfolding lookup_function
lookup_function-IsFirst name = first_named-IsFirst name catalog
