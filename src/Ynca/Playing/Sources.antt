-- ===== src/Ynca/Playing/Sources.antt =====
-- The inputs and the source subunits that back them.
use yamaha_cli.Prelude.{
  true, List, [], ◌∷◌, ◌≡◌, refl, subst, ◌⊎◌, inl, inr, arith, Bool-cases, All,
}
use yamaha_cli.Text.{Bytes, codes, equal, equal_iff, to_upper, trim_space}
use yamaha_cli.Ynca.Enums.{contains_text, parse_input}
use yamaha_cli.Ynca.Playing.{is_source_subunit, subunit_of, subunit_for_input}
use yamaha_cli.Ynca.Playing.Names.{source_subunits, input_subunits}

abbrev IsSource : Bytes → Type 0
IsSource s = is_source_subunit s ≡ true

subunit_of-All :
    (P : Bytes → Type 0) (pairs : List (Bytes × Bytes)) (input : Bytes)
    → All (λ p. P p.1) pairs
    → (subunit_of pairs input ≡ []) ⊎ P (subunit_of pairs input)
unfolding subunit_of
subunit_of-All P [] input h = inl refl
subunit_of-All P ((i, s) ∷ pairs) input h = ground (arith, subunit_of-All P pairs input h.1)

input_subunits-IsSource : All (λ p. IsSource p.1) input_subunits
unfolding is_source_subunit
input_subunits-IsSource = (
  refl,
  (
    refl,
    (
      refl,
      (
        refl,
        (
          refl,
          (
            refl,
            (
              refl,
              (
                refl,
                (
                  refl,
                  (
                    refl,
                    (refl, (refl, (refl, (refl, (refl, (refl, (refl, (refl, (refl, tt))))))))),
                  ),
                ),
              ),
            ),
          ),
        ),
      ),
    ),
  ),
)

-- An input that the subunit backs.
abbrev pub Backs : Bytes → Type 0
Backs s = (input : Bytes) × (subunit_for_input input ≡ s)

source_subunits-Backs : All Backs source_subunits
unfolding subunit_for_input
source_subunits-Backs = (
  (codes "AirPlay", refl),
  (
    (codes "Bluetooth", refl),
    (
      (codes "Deezer", refl),
      (
        (codes "iPod", refl),
        (
          (codes "iPod (USB)", refl),
          (
            (codes "MusicCast Link", refl),
            (
              (codes "Napster", refl),
              (
                (codes "NET RADIO", refl),
                (
                  (codes "Pandora", refl),
                  (
                    (codes "PC", refl),
                    (
                      (codes "Rhapsody", refl),
                      (
                        (codes "SERVER", refl),
                        (
                          (codes "SIRIUS", refl),
                          (
                            (codes "Spotify", refl),
                            (
                              (codes "TIDAL", refl),
                              ((codes "UAW", refl), ((codes "USB", refl), tt)),
                            ),
                          ),
                        ),
                      ),
                    ),
                  ),
                ),
              ),
            ),
          ),
        ),
      ),
    ),
  ),
)

contains_text-All :
    (P : Bytes → Type 0) (texts : List Bytes) (s : Bytes)
    → All P texts
    → contains_text texts s ≡ true
    → P s
unfolding contains_text
contains_text-All P [] s h e = absurd (ground arith)
contains_text-All P (t ∷ ts) s h e = elim (Bool-cases (equal t s)) [
  | inl same ↦ subst P ((equal_iff t s).0 same) h.0
  | inr other ↦ contains_text-All P ts s h.1 (ground arith)
]

-- The source subunits are the subunits that back some input: whatever the input, what it is mapped
-- to is a source subunit or nothing, and every name that is taken for a source subunit is, but for
-- case and the space around it, what some input is mapped to.
pub subunit_for_input-is_source_subunit :
    (input id : Bytes)
    → ((subunit_for_input input ≡ []) ⊎ (is_source_subunit (subunit_for_input input) ≡ true))
      × (is_source_subunit id ≡ true → Backs (to_upper (trim_space id)))
unfolding subunit_for_input is_source_subunit
subunit_for_input-is_source_subunit input id = (
  subunit_of-All IsSource input_subunits (parse_input input) input_subunits-IsSource,
  contains_text-All Backs source_subunits (to_upper (trim_space id)) source_subunits-Backs,
)
