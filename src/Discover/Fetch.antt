-- ===== src/Discover/Fetch.antt =====
-- pkg/discover/discover.go and xml.go: the description of one location is fetched and checked. What
-- `net/http`, `encoding/xml` and `net/url` make of a location and a reply are parameters.
pub mod Sound
use yamaha_cli.Prelude.{
  ℕ, ◌+◌, Bool, true, false, ◌&&◌, ◌||◌, not, List, [], ◌∷◌, ◌++◌, Option, none, some, leb, ltb,
  ◌==◌, if◌then◌else◌, ◌⊎◌, inl, inr,
}
use yamaha_cli.Text.{is_empty, Bytes, codes, equal, trim_space}

pub record Device : Type 0 where
  pub name : Bytes
  pub host : Bytes
  pub model : Bytes
  pub base_url : Bytes
  pub udn : Bytes

pub record DescDevice : Type 0 where
  pub friendly_name : Bytes
  pub manufacturer : Bytes
  pub model_name : Bytes
  pub udn : Bytes

-- An error that `net/http` or the XML decoder reports: its chain has a `net.Error` that is a
-- timeout, or `io.ErrUnexpectedEOF`.
pub record Cause : Type 0 where
  pub timeout : Bool
  pub cut_short : Bool

pub data FetchError : Type 0 where
  bad_request : FetchError
  transport : Cause → FetchError
  unexpected_status : ℕ → FetchError
  bad_description : Cause → FetchError
  not_yamaha : Bytes → FetchError
  no_udn : FetchError
  bad_location : FetchError
  no_host : FetchError
  unsupported_host : Bytes → FetchError
  stall_error : FetchError → FetchError

pub data Fetched : Type 0 where
  fetched : Device → Fetched
  failed : FetchError → Fetched

-- What the request of a location comes to: no request can be made for it, the exchange fails (before
-- or after it connected), or a reply whose body the decoder reads or not.
pub data Reply : Type 0 where
  refused : Reply
  broken : Cause → Bool → Reply
  answered : ℕ → Cause ⊎ DescDevice → Reply

-- `url.Parse`: `Hostname()` and what `net.SplitHostPort` makes of `Host`.
pub record Url : Type 0 where
  pub hostname : Bytes
  pub split_host : Option Bytes

abbrev pub yamaha_manufacturer : Bytes
yamaha_manufacturer = codes "Yamaha Corporation"

-- `strings.ContainsAny(s, ":%")`
unfoldable pub contains_colon_or_percent : Bytes → Bool
contains_colon_or_percent [] = false
contains_colon_or_percent (c ∷ s) = c == b':' || c == b'%' || contains_colon_or_percent s

-- `parseDescriptionXML`, behind the decoder
unfoldable pub trimmed : DescDevice → DescDevice
trimmed d = record {
  friendly_name = trim_space d.friendly_name;
  manufacturer = trim_space d.manufacturer;
  model_name = trim_space d.model_name;
  udn = trim_space d.udn;
}

unfoldable pub mark_stall : FetchError → Cause → Bool → FetchError
mark_stall e cause connected =
    if connected && (cause.timeout || cause.cut_short) then stall_error e else e

-- `transientFetchErr`
unfoldable pub transient_fetch_err : FetchError → Bool
transient_fetch_err (stall_error e) = true
transient_fetch_err _ = false

abbrev pub or_split_host : Option Bytes → FetchError ⊎ Bytes
or_split_host none = inl no_host
or_split_host (some h) = if is_empty h then inl no_host else inr h

abbrev pub host_of : Option Url → FetchError ⊎ Bytes
host_of none = inl bad_location
host_of (some u) = if is_empty u.hostname then or_split_host u.split_host else inr u.hostname

-- The device of a description at a host.
unfoldable pub device_at : DescDevice → FetchError ⊎ Bytes → Fetched
unfolding contains_colon_or_percent
device_at desc (inl e) = failed e
device_at desc (inr host) =
    if contains_colon_or_percent host
    then failed (unsupported_host host)
    else fetched (record {
      name = desc.friendly_name;
      host = host;
      model = desc.model_name;
      base_url = codes "http://" ++ host ++ codes "/YamahaExtendedControl/v1/";
      udn = desc.udn;
    })

module _ (parse_url : Bytes → Option Url) where
  unfoldable pub host_from_location : Bytes → FetchError ⊎ Bytes
  host_from_location location = host_of (parse_url location)

  unfoldable pub new_device : Bytes → DescDevice → Fetched
  unfolding host_from_location device_at
  new_device location desc = device_at desc (host_from_location location)

  -- A description that was read.
  unfoldable pub accept : Bytes → DescDevice → Fetched
  unfolding new_device equal
  accept location desc =
      if not (equal desc.manufacturer yamaha_manufacturer)
      then failed (not_yamaha desc.manufacturer)
      else if is_empty desc.udn
      then failed no_udn
      else new_device location desc

  unfoldable pub read_body : Bytes → Cause ⊎ DescDevice → Fetched
  unfolding accept mark_stall trimmed
  read_body location (inl cause) = failed (mark_stall (bad_description cause) cause true)
  read_body location (inr desc) = accept location (trimmed desc)

  -- `fetchOne`
  unfoldable pub fetch_one : Bytes → Reply → Fetched
  unfolding read_body mark_stall
  fetch_one location refused = failed bad_request
  fetch_one location (broken cause connected) =
      failed (mark_stall (transport cause) cause connected)
  fetch_one location (answered status body) =
      if ltb status 200 || leb 300 status
      then failed (unexpected_status status)
      else read_body location body

  unfoldable pub retry_if_stalled : Bytes → Bool → Reply → Fetched → Fetched
  unfolding transient_fetch_err fetch_one
  retry_if_stalled location done second (fetched d) = fetched d
  retry_if_stalled location done second (failed e) =
      if transient_fetch_err e && not done then fetch_one location second else failed e

  -- `fetchWithRetry`: what the two requests come to, and whether the context is done between them.
  unfoldable pub fetch_with_retry : Bytes → Reply → Bool → Reply → Fetched
  unfolding retry_if_stalled fetch_one
  fetch_with_retry location first done second =
      retry_if_stalled location done second (fetch_one location first)
