-- ===== src/Discover/Fetch/Sound.antt =====
-- A device that a fetch comes to is a Yamaha receiver that can be saved.
use yamaha_cli.Prelude.{
  ℕ, ◌≤◌, ◌<◌, ◌≡◌, refl, Bool, false, ◌&&◌, ◌||◌, not, ◌++◌, Option, none, some, inl, inr, ◌⊎◌,
  arith, leb, ltb, Bool-cases,
}
use yamaha_cli.Text.{is_empty, Bytes, codes, equal, equal_iff}
use yamaha_cli.Discover.Fetch.{
  Device, DescDevice, Cause, FetchError, Fetched, fetched, failed, Reply, refused, broken, answered,
  Url, yamaha_manufacturer, contains_colon_or_percent, trimmed, mark_stall, transient_fetch_err,
  or_split_host, host_of, device_at, read_body, host_from_location, new_device, accept, fetch_one,
  retry_if_stalled, fetch_with_retry,
}

-- A reply that describes the device: it is a success, the manufacturer is Yamaha, and the
-- device's names are those of the description.
abbrev pub Describes : Device → Reply → Type 0
Describes d (answered status (inr desc)) =
    (200 ≤ status)
    × (status < 300)
    × ((trimmed desc).manufacturer ≡ yamaha_manufacturer)
    × (d.udn ≡ (trimmed desc).udn)
    × (d.name ≡ (trimmed desc).friendly_name)
    × (d.model ≡ (trimmed desc).model_name)
Describes d _ = ⊥

-- Its UDN and its host are there, and the host has neither `:` nor `%`.
pub record IsUsable (d : Device) : Type 0 where
  pub has_udn : is_empty d.udn ≡ false
  pub has_host : is_empty d.host ≡ false
  pub plain_host : contains_colon_or_percent d.host ≡ false
  pub at_host : d.base_url ≡ codes "http://" ++ d.host ++ codes "/YamahaExtendedControl/v1/"

-- Whatever a fetch comes to, a device is as the predicate says.
abbrev pub Only : (Device → Type 0) → Fetched → Type 0
Only P (fetched d) = P d
Only P (failed e) = Unit

abbrev OnlyHost : FetchError ⊎ Bytes → Type 0
OnlyHost (inl e) = Unit
OnlyHost (inr h) = is_empty h ≡ false

or_split_host-OnlyHost : (o : Option Bytes) → OnlyHost (or_split_host o)
or_split_host-OnlyHost none = tt
or_split_host-OnlyHost (some h) = elim (Bool-cases (is_empty h)) [
  | inl e ↦ rw (OnlyHost, e) tt
  | inr e ↦ rw (OnlyHost, e) e
]

host_of-OnlyHost : (o : Option Url) → OnlyHost (host_of o)
host_of-OnlyHost none = tt
host_of-OnlyHost (some u) = elim (Bool-cases (is_empty u.hostname)) [
  | inl e ↦ rw (OnlyHost, e) (or_split_host-OnlyHost u.split_host)
  | inr e ↦ rw (OnlyHost, e) e
]

module _ (location : Bytes) (status : ℕ) (desc : DescDevice) (lo : 200 ≤ status)
    (hi : status < 300) where
  -- What the device is of this description.
  abbrev IsIt : Device → Type 0
  IsIt d = Describes d (answered status (inr desc)) × IsUsable d

  device_at-IsIt :
      (x : FetchError ⊎ Bytes)
      → OnlyHost x
      → (trimmed desc).manufacturer ≡ yamaha_manufacturer
      → is_empty (trimmed desc).udn ≡ false
      → Only IsIt (device_at (trimmed desc) x)
  unfolding device_at
  device_at-IsIt (inl e) h m u = tt
  device_at-IsIt (inr host) h m u = elim (Bool-cases (contains_colon_or_percent host)) [
    | inl e ↦ rw (Only, e) tt
    | inr e ↦
        rw (Only, e)
          (
            (lo, hi, m, refl, refl, refl),
            record { has_udn = u; has_host = h; plain_host = e; at_host = refl },
          )
  ]

  accept-IsIt :
      (parse_url : Bytes → Option Url) → Only IsIt (accept parse_url location (trimmed desc))
  unfolding accept new_device host_from_location
  accept-IsIt parse_url =
      elim (Bool-cases (equal (trimmed desc).manufacturer yamaha_manufacturer)) [
        | inr e ↦ rw (Only, e) tt
        | inl e ↦ elim (Bool-cases (is_empty (trimmed desc).udn)) [
          | inl u ↦ rw (Only, e, u) tt
          | inr u ↦
              rw (Only, e, u)
                (device_at-IsIt (host_of (parse_url location))
                  (host_of-OnlyHost (parse_url location))
                  ((equal_iff (trimmed desc).manufacturer yamaha_manufacturer).0 e) u)
        ]
      ]

abbrev pub IsReceiver : Reply → Device → Type 0
IsReceiver r d = Describes d r × IsUsable d

module _ (parse_url : Bytes → Option Url) (location : Bytes) where
  fetch_one-IsReceiver : (r : Reply) → Only (IsReceiver r) (fetch_one parse_url location r)
  unfolding fetch_one mark_stall read_body
  fetch_one-IsReceiver refused = tt
  fetch_one-IsReceiver (broken cause connected) = tt
  fetch_one-IsReceiver (answered status body) =
      elim (Bool-cases (ltb status 200 || leb 300 status)) [
        | inl e ↦ rw (Only, e) tt
        | inr e ↦ rw (Only, e) (by_body body (ground arith) (ground arith))
      ]
    where
      by_body :
          (b : Cause ⊎ DescDevice)
          → 200 ≤ status
          → status < 300
          → Only (IsReceiver (answered status b)) (read_body parse_url location b)
      by_body (inl cause) lo hi = tt
      by_body (inr desc) lo hi = accept-IsIt location status desc lo hi parse_url

  -- A device that a fetch comes to, its retry included, is the one that one of the two replies
  -- describes: a success from a receiver whose manufacturer is exactly Yamaha's. It can be saved: it
  -- has a UDN, and a host that is not empty and has neither `:` nor `%`.
  pub fetch_with_retry-IsReceiver :
      (first second : Reply) (done : Bool)
      → Only
          (λ d. IsReceiver first d ⊎ IsReceiver second d)
          (fetch_with_retry parse_url location first done second)
  unfolding fetch_with_retry retry_if_stalled
  fetch_with_retry-IsReceiver first second done =
      retried (fetch_one parse_url location first) (fetch_one-IsReceiver first)
    where
      widen :
          (x : Fetched)
          → Only (IsReceiver second) x
          → Only (λ d. IsReceiver first d ⊎ IsReceiver second d) x
      widen (fetched d) h = inr h
      widen (failed e) h = tt

      retried :
          (x : Fetched)
          → Only (IsReceiver first) x
          → Only
              (λ d. IsReceiver first d ⊎ IsReceiver second d)
              (retry_if_stalled parse_url location done second x)
      retried (fetched d) h = inl h
      retried (failed e) h = elim (Bool-cases (transient_fetch_err e && not done)) [
        | inr t ↦ rw (Only, t) tt
        | inl t ↦ rw t (widen (fetch_one parse_url location second) (fetch_one-IsReceiver second))
      ]
