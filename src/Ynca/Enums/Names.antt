-- ===== src/Ynca/Enums/Names.antt =====
-- The closed sets of pkg/ynca/enums.go that the program keeps as lists of wire spellings.
use yamaha_cli.Prelude.{List, [], ◌∷◌}
use yamaha_cli.Text.{Bytes, codes}

abbrev pub all_inputs : List Bytes
all_inputs =
    codes "AUDIO"
    ∷ codes "AUDIO1"
    ∷ codes "AUDIO2"
    ∷ codes "AUDIO3"
    ∷ codes "AUDIO4"
    ∷ codes "AUDIO5"
    ∷ codes "AV1"
    ∷ codes "AV2"
    ∷ codes "AV3"
    ∷ codes "AV4"
    ∷ codes "AV5"
    ∷ codes "AV6"
    ∷ codes "AV7"
    ∷ codes "CD"
    ∷ codes "COAXIAL1"
    ∷ codes "COAXIAL2"
    ∷ codes "DOCK"
    ∷ codes "HDMI1"
    ∷ codes "HDMI2"
    ∷ codes "HDMI3"
    ∷ codes "HDMI4"
    ∷ codes "HDMI5"
    ∷ codes "HDMI6"
    ∷ codes "HDMI7"
    ∷ codes "LINE1"
    ∷ codes "LINE2"
    ∷ codes "LINE3"
    ∷ codes "Main Zone Sync"
    ∷ codes "MULTI CH"
    ∷ codes "OPTICAL1"
    ∷ codes "OPTICAL2"
    ∷ codes "PHONO"
    ∷ codes "TV"
    ∷ codes "V-AUX"
    ∷ codes "AirPlay"
    ∷ codes "Bluetooth"
    ∷ codes "Deezer"
    ∷ codes "iPod"
    ∷ codes "iPod (USB)"
    ∷ codes "MusicCast Link"
    ∷ codes "Napster"
    ∷ codes "NET RADIO"
    ∷ codes "Pandora"
    ∷ codes "PC"
    ∷ codes "Rhapsody"
    ∷ codes "SERVER"
    ∷ codes "SIRIUS"
    ∷ codes "SIRIUS InternetRadio"
    ∷ codes "SiriusXM"
    ∷ codes "Spotify"
    ∷ codes "TIDAL"
    ∷ codes "TUNER"
    ∷ codes "UAW"
    ∷ codes "USB"
    ∷ []

abbrev pub all_sound_programs : List Bytes
all_sound_programs =
    codes "Action Game"
    ∷ codes "Adventure"
    ∷ codes "Arena"
    ∷ codes "Cellar Club"
    ∷ codes "Chamber"
    ∷ codes "Church in Freiburg"
    ∷ codes "Church in Royaumont"
    ∷ codes "Church in Tokyo"
    ∷ codes "Disco"
    ∷ codes "Drama"
    ∷ codes "Enhanced"
    ∷ codes "Hall in Amsterdam"
    ∷ codes "Hall in Frankfurt"
    ∷ codes "Hall in Munich"
    ∷ codes "Hall in Munich A"
    ∷ codes "Hall in Munich B"
    ∷ codes "Hall in Stuttgart"
    ∷ codes "Hall in USA A"
    ∷ codes "Hall in USA B"
    ∷ codes "Hall in Vienna"
    ∷ codes "Mono Movie"
    ∷ codes "Music Video"
    ∷ codes "Pavilion"
    ∷ codes "Recital/Opera"
    ∷ codes "Roleplaying Game"
    ∷ codes "Sci-Fi"
    ∷ codes "Spectacle"
    ∷ codes "Sports"
    ∷ codes "Standard"
    ∷ codes "Surround Decoder"
    ∷ codes "The Bottom Line"
    ∷ codes "The Roxy Theatre"
    ∷ codes "Village Gate"
    ∷ codes "Village Vanguard"
    ∷ codes "Warehouse Loft"
    ∷ codes "2ch Stereo"
    ∷ codes "5ch Stereo"
    ∷ codes "7ch Stereo"
    ∷ codes "9ch Stereo"
    ∷ codes "11ch Stereo"
    ∷ codes "All-Ch Stereo"
    ∷ []

abbrev pub all_two_ch_decoders : List Bytes
all_two_ch_decoders =
    codes "Dolby PL"
    ∷ codes "Dolby PLII Movie"
    ∷ codes "Dolby PLII Music"
    ∷ codes "Dolby PLII Game"
    ∷ codes "Dolby PLIIx Movie"
    ∷ codes "Dolby PLIIx Music"
    ∷ codes "Dolby PLIIx Game"
    ∷ codes "DTS NEO:6 Cinema"
    ∷ codes "DTS NEO:6 Music"
    ∷ codes "Auto"
    ∷ codes "Dolby Surround"
    ∷ codes "DTS Neural:X"
    ∷ codes "AURO-3D"
    ∷ codes "Dolby ProLogicII(Music)"
    ∷ codes "Dolby ProLogicII(Movie)"
    ∷ codes "Dolby ProLogicII(Game)"
    ∷ []
