-- ===== src/Yxc/Cache/Fresh.antt =====
-- The features that a load comes to are fresh.
use yamaha_cli.Prelude.{
  ℕ, ◌≤◌, ◌≡◌, refl, Bool, true, false, Option, none, some, inl, inr, arith, ltb, Bool-cases,
}
use yamaha_cli.Text.{Bytes}
use yamaha_cli.Yxc.Cache.{
  Stat, absent, stat_failed, aged, File, Loaded, hit, miss, load_failed, Outcome, cached, fetched,
  failed, decoded, read_file, by_stat, try_load, fetch_and_save, or_fetch, load_or_fetch,
}

module _ {F : Type 0} (decode : Bytes → Option F) (ttl : ℕ) (file : File) where
  -- The file holds these features, and it is not older than the limit.
  abbrev pub Holds : F → Type 0
  Holds f =
      (t : ℕ) × (raw : Bytes) × (file.stat ≡ aged t)
      × (t ≤ ttl)
      × (file.content ≡ some raw)
      × (decode raw ≡ some f)

  abbrev OfLoaded : Loaded F → Type 0
  OfLoaded (hit f) = Holds f
  OfLoaded _ = Unit

  -- What a load says of its result.
  abbrev pub IsFresh : Bool → Option F → Bool → Outcome F → Type 0
  IsFresh refresh fetch saves (cached f) = (refresh ≡ false) × Holds f
  IsFresh refresh fetch saves (fetched f) = (fetch ≡ some f) × (saves ≡ true)
  IsFresh refresh fetch saves failed = Unit

  try_load-OfLoaded : OfLoaded (try_load decode ttl file)
  unfolding try_load
  try_load-OfLoaded = by_state file.stat file.content refl refl
    where
      by_decoded :
          (t : ℕ) (raw : Bytes) (o : Option F)
          → file.stat ≡ aged t
          → t ≤ ttl
          → file.content ≡ some raw
          → decode raw ≡ o
          → OfLoaded (decoded decode o)
      by_decoded t raw none e le c d = tt
      by_decoded t raw (some f) e le c d = (t, raw, e, le, c, d)

      by_content :
          (t : ℕ) (content : Option Bytes)
          → file.stat ≡ aged t
          → t ≤ ttl
          → file.content ≡ content
          → OfLoaded (read_file decode content)
      by_content t none e le c = tt
      by_content t (some raw) e le c = by_decoded t raw (decode raw) e le c refl

      by_state :
          (s : Stat) (content : Option Bytes)
          → file.stat ≡ s
          → file.content ≡ content
          → OfLoaded (by_stat decode ttl content s)
      by_state absent content e c = tt
      by_state stat_failed content e c = tt
      by_state (aged t) content e c = elim (Bool-cases (ltb ttl t)) [
        | inl l ↦ rw (OfLoaded, l) tt
        | inr l ↦ rw (OfLoaded, l) (by_content t content e (ground arith) c)
      ]

  fetch_and_save-IsFresh :
      (refresh : Bool) (fetch : Option F) (saves : Bool)
      → IsFresh refresh fetch saves (fetch_and_save decode fetch saves)
  fetch_and_save-IsFresh refresh none saves = tt
  fetch_and_save-IsFresh refresh (some f) true = (refl, refl)
  fetch_and_save-IsFresh refresh (some f) false = tt

  or_fetch-IsFresh :
      (l : Loaded F) (fetch : Option F) (saves : Bool)
      → OfLoaded l
      → IsFresh false fetch saves (or_fetch decode l fetch saves)
  or_fetch-IsFresh (hit f) fetch saves h = (refl, h)
  or_fetch-IsFresh miss fetch saves h = fetch_and_save-IsFresh false fetch saves
  or_fetch-IsFresh load_failed fetch saves h = tt

  -- A load gives features from the file only if no refresh is asked for and the file, of which they
  -- are the content, is not older than the limit; else it gives those that were just fetched, and
  -- only after they were saved.
  pub load_or_fetch-IsFresh :
      (refresh : Bool) (fetch : Option F) (saves : Bool)
      → IsFresh refresh fetch saves (load_or_fetch decode ttl refresh file fetch saves)
  unfolding load_or_fetch
  load_or_fetch-IsFresh true fetch saves = fetch_and_save-IsFresh true fetch saves
  load_or_fetch-IsFresh false fetch saves =
      or_fetch-IsFresh (try_load decode ttl file) fetch saves try_load-OfLoaded
