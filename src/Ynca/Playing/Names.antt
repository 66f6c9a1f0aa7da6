-- ===== src/Ynca/Playing/Names.antt =====
-- The source subunits of pkg/ynca/nowplaying.go, and the inputs that they back.
use yamaha_cli.Prelude.{List, [], ◌∷◌}
use yamaha_cli.Text.{Bytes, codes}

-- The set `sourceSubunits`.
abbrev pub source_subunits : List Bytes
source_subunits =
    codes "AIRPLAY"
    ∷ codes "BT"
    ∷ codes "DEEZER"
    ∷ codes "IPOD"
    ∷ codes "IPODUSB"
    ∷ codes "MCLINK"
    ∷ codes "NAPSTER"
    ∷ codes "NETRADIO"
    ∷ codes "PANDORA"
    ∷ codes "PC"
    ∷ codes "RHAP"
    ∷ codes "SERVER"
    ∷ codes "SIRIUS"
    ∷ codes "SPOTIFY"
    ∷ codes "TIDAL"
    ∷ codes "UAW"
    ∷ codes "USB"
    ∷ []

-- The cases of `SubunitForInput`: an input and the subunit that backs it.
abbrev pub input_subunits : List (Bytes × Bytes)
input_subunits =
    (codes "AirPlay", codes "AIRPLAY")
    ∷ (codes "Bluetooth", codes "BT")
    ∷ (codes "Deezer", codes "DEEZER")
    ∷ (codes "iPod", codes "IPOD")
    ∷ (codes "iPod (USB)", codes "IPODUSB")
    ∷ (codes "MusicCast Link", codes "MCLINK")
    ∷ (codes "Napster", codes "NAPSTER")
    ∷ (codes "NET RADIO", codes "NETRADIO")
    ∷ (codes "Pandora", codes "PANDORA")
    ∷ (codes "PC", codes "PC")
    ∷ (codes "Rhapsody", codes "RHAP")
    ∷ (codes "SERVER", codes "SERVER")
    ∷ (codes "SIRIUS", codes "SIRIUS")
    ∷ (codes "SIRIUS InternetRadio", codes "SIRIUS")
    ∷ (codes "SiriusXM", codes "SIRIUS")
    ∷ (codes "Spotify", codes "SPOTIFY")
    ∷ (codes "TIDAL", codes "TIDAL")
    ∷ (codes "UAW", codes "UAW")
    ∷ (codes "USB", codes "USB")
    ∷ []
