-- ===== src/Ynca/Control/Arguments.antt =====
-- What the setters refuse, and the sleep times.
use yamaha_cli.Prelude.{
  ℕ, zero, suc, [], none, some, ◌≡◌, refl, sym, subst, subst₂, ◌⊎◌, inl, inr, arith, ℤ, pos, negsuc,
  ◌≤ℤ◌,
}
use yamaha_cli.Text.{Bytes, codes, equal_iff, trim_space}
use yamaha_cli.Ynca.Client.{Client}
use yamaha_cli.Ynca.Control.{
  Call, set_input, set_sound_program, set_decoder, recall_scene, recall_preset, set_band,
}
use yamaha_cli.Ynca.Control.Sleep.{set_sleep, sleep_wire, sleep_wire_of, sleep_minutes, minutes_of}
use yamaha_cli.Ynca.Enums.{Band, parse_band}
use yamaha_cli.Ynca.Errors.{invalid, err}

-- The call fails before it touches the connection.
abbrev pub Refuses : Call (Unit {0}) → Type 0
Refuses call = (c : Client) → (why : Bytes) × (call c ≡ (err (invalid why), c))

blank-Refuses :
    (subunit s : Bytes)
    → trim_space s ≡ []
    → Refuses (set_input subunit s)
      × Refuses (set_sound_program subunit s)
      × Refuses (set_decoder subunit s)
unfolding set_input set_sound_program set_decoder
blank-Refuses subunit s h = (
  λ c. (codes "empty input", rw h),
  λ c. (codes "empty program", rw h),
  λ c. (codes "empty decoder", rw h),
)

below_one-Refuses :
    (subunit : Bytes) (n : ℤ)
    → n ≤ℤ pos 0
    → Refuses (recall_scene subunit n) × Refuses (recall_preset n)
unfolding recall_scene recall_preset
below_one-Refuses subunit (pos zero) h = (λ c. (codes "number", refl), λ c. (codes "number", refl))
below_one-Refuses subunit (pos (suc n)) h = absurd (omega arith)
below_one-Refuses subunit (negsuc n) h = (λ c. (codes "number", refl), λ c. (codes "number", refl))

minutes-Refuses : (subunit : Bytes) (m : ℤ) → sleep_wire_of m ≡ none → Refuses (set_sleep subunit m)
unfolding set_sleep
minutes-Refuses subunit m h c = (codes "minutes", rw (h, set_sleep))

band-Refuses : (band : Bytes) → parse_band band ≡ Band.unknown → Refuses (set_band band)
unfolding set_band
band-Refuses band h c = (codes "want am|fm", rw h)

-- An argument that a setter refuses leaves the client as it was, so nothing is written: a blank
-- input, sound program or decoder, a scene or a preset below 1, a number of minutes that is no sleep
-- time, and a band that is neither AM nor FM.
pub setters-Refuses :
    (subunit s band : Bytes) (n m : ℤ)
    → trim_space s ≡ []
    → n ≤ℤ pos 0
    → sleep_wire_of m ≡ none
    → parse_band band ≡ Band.unknown
    → (Refuses (set_input subunit s)
        × Refuses (set_sound_program subunit s)
        × Refuses (set_decoder subunit s))
      × (Refuses (recall_scene subunit n) × Refuses (recall_preset n))
      × Refuses (set_sleep subunit m)
      × Refuses (set_band band)
setters-Refuses subunit s band n m blank below wrong unknown = (
  blank-Refuses subunit s blank,
  below_one-Refuses subunit n below,
  minutes-Refuses subunit m wrong,
  band-Refuses band unknown,
)

sleep_wire-cases :
    (m : ℕ) {w : Bytes}
    → sleep_wire m ≡ some w
    → (m ≡ 0) ⊎ ((m ≡ 30) ⊎ ((m ≡ 60) ⊎ ((m ≡ 90) ⊎ (m ≡ 120))))
unfolding sleep_wire
sleep_wire-cases m h = ground arith

sleep_at :
    (m : ℕ) (v : Bytes) {w : Bytes}
    → sleep_wire m ≡ some v
    → sleep_minutes v ≡ some m
    → sleep_wire m ≡ some w
    → sleep_minutes w ≡ some m
sleep_at m v e f h = cc

sleep_minutes_of_wire : (m : ℕ) (w : Bytes) → sleep_wire m ≡ some w → sleep_minutes w ≡ some m
sleep_minutes_of_wire m w h = elim (sleep_wire-cases m h) [
  | inl e ↦ at 0 (codes "Off") (unfold sleep_wire in refl) (unfold sleep_minutes in refl) e
  | inr (inl e) ↦
      at 30 (codes "30 min") (unfold sleep_wire in refl) (unfold sleep_minutes in refl) e
  | inr (inr (inl e)) ↦
      at 60 (codes "60 min") (unfold sleep_wire in refl) (unfold sleep_minutes in refl) e
  | inr (inr (inr (inl e))) ↦
      at 90 (codes "90 min") (unfold sleep_wire in refl) (unfold sleep_minutes in refl) e
  | inr (inr (inr (inr e))) ↦
      at 120 (codes "120 min") (unfold sleep_wire in refl) (unfold sleep_minutes in refl) e
]
  where
    at :
        (k : ℕ) (v : Bytes)
        → sleep_wire k ≡ some v
        → sleep_minutes v ≡ some k
        → m ≡ k
        → sleep_minutes w ≡ some m
    at k v e f same =
        subst (λ n. sleep_wire n ≡ some w → sleep_minutes w ≡ some n) (sym same) (sleep_at k v e f)
          h

-- The wire value of these minutes.
abbrev Spells : Bytes → ℕ → Bytes → ℕ → Type 0
Spells t m v k = (t ≡ v) × (m ≡ k)

minutes_of-cases :
    (t : Bytes) (m : ℕ)
    → minutes_of t ≡ some m
    → Spells t m (codes "Off") 0
      ⊎ (Spells t m (codes "30 min") 30
          ⊎ (Spells t m (codes "60 min") 60
              ⊎ (Spells t m (codes "90 min") 90 ⊎ Spells t m (codes "120 min") 120)))
unfolding minutes_of
minutes_of-cases t m h = ground (
  arith,
  equal_iff t (codes "Off"),
  equal_iff t (codes "30 min"),
  equal_iff t (codes "60 min"),
  equal_iff t (codes "90 min"),
  equal_iff t (codes "120 min"),
)

sleep_wire_of_minutes : (t : Bytes) (m : ℕ) → minutes_of t ≡ some m → sleep_wire m ≡ some t
sleep_wire_of_minutes t m h = elim (minutes_of-cases t m h) [
  | inl s ↦ at (codes "Off") 0 s (unfold sleep_wire in refl)
  | inr (inl s) ↦ at (codes "30 min") 30 s (unfold sleep_wire in refl)
  | inr (inr (inl s)) ↦ at (codes "60 min") 60 s (unfold sleep_wire in refl)
  | inr (inr (inr (inl s))) ↦ at (codes "90 min") 90 s (unfold sleep_wire in refl)
  | inr (inr (inr (inr s))) ↦ at (codes "120 min") 120 s (unfold sleep_wire in refl)
]
  where
    at : (v : Bytes) (k : ℕ) → Spells t m v k → sleep_wire k ≡ some v → sleep_wire m ≡ some t
    at v k (et, em) e = subst₂ (λ t m. sleep_wire m ≡ some t) (sym et) (sym em) e

-- A sleep time is read back from its wire value, and a wire value that is recognised is, but for the
-- space around it, what its minutes are written as.
pub sleep_minutes-sleep_wire :
    (m : ℕ) (w : Bytes)
    → (sleep_wire m ≡ some w → sleep_minutes w ≡ some m)
      × (sleep_minutes w ≡ some m → sleep_wire m ≡ some (trim_space w))
unfolding sleep_minutes
sleep_minutes-sleep_wire m w = (sleep_minutes_of_wire m w, sleep_wire_of_minutes (trim_space w) m)
