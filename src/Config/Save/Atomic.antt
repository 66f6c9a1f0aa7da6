-- ===== src/Config/Save/Atomic.antt =====
-- A crash during a save leaves the old file or the new one.
use yamaha_cli.Prelude.{
  ℕ, zero, suc, Bool, true, false, List, [], ◌∷◌, ◌++◌, Option, none, some, length, length-append,
  take, ◌≡◌, ◌≢◌, ◌⊎◌, inl, inr, refl, ap, ◌∙◌, sym, subst, arith, if◌then◌else◌, Bool-cases,
  Option-cases, All, All-append,
}
use yamaha_cli.Text.{Bytes, codes, Dict, lookup, equal, equal_iff, equal_ne, equal_refl}
use yamaha_cli.Config.Schema.{Device, Config}
use yamaha_cli.Config.Save.{
  Files, put, Faults, ok, Run, tmp_path, partial, same_device, is_entry, within, same_config,
  reads_back, checked, renaming, writing, storing, save_checked, save_to,
}

tmp_path_ne : (path : Bytes) → tmp_path path ≢ path
tmp_path_ne path e = ground (arith, length-append path (codes ".tmp"), ap length e)

-- A change of the temporary file does not change the file.
put_tmp : (path : Bytes) (v : Option Bytes) (fs : Files) → put (tmp_path path) v fs path ≡ fs path
put_tmp path v fs = rw (equal_ne (tmp_path path) path (tmp_path_ne path)) refl

-- The file is as before.
abbrev pub Keeps : Bytes → Files → Files → Type 0
Keeps path fs g = g path ≡ fs path

partial-Keeps :
    (path bytes : Bytes) (n : ℕ) (fs g : Files)
    → Keeps path fs g
    → All (Keeps path fs) (partial (tmp_path path) bytes n g)
unfolding partial
partial-Keeps path bytes zero fs g h = (put_tmp path (some []) g ∙ h, tt)
partial-Keeps path bytes (suc n) fs g h =
    All-append (Keeps path fs) (partial (tmp_path path) bytes n g) _
      (partial-Keeps path bytes n fs g h) (put_tmp path (some (take (suc n) bytes)) g ∙ h, tt)

-- All states on the way keep the file or hold the new one; the last holds the new one just if the
-- save reports success.
pub record IsAtomic (path : Bytes) (fs : Files) (new : Option Bytes) (r : Run) : Type 0 where
  pub whole : All (λ g. Keeps path fs g ⊎ ((new ≢ none) × (g path ≡ new))) r.visited
  pub success : r.result ≡ ok → (new ≢ none) × (r.final path ≡ new)
  pub failure : r.result ≢ ok → Keeps path fs r.final

weaker :
    (path : Bytes) (fs : Files) (new : Option Bytes) (gs : List Files)
    → All (Keeps path fs) gs
    → All (λ g. Keeps path fs g ⊎ ((new ≢ none) × (g path ≡ new))) gs
weaker path fs new [] h = tt
weaker path fs new (g ∷ gs) h = (inl h.0, weaker path fs new gs h.1)

same_device-eq : (a b : Device) → same_device a b ≡ true → a ≡ b
unfolding same_device
same_device-eq a b h =
    let p : a.host ≡ b.host = ground (arith, equal_iff a.host b.host) in
    let q : a.udn ≡ b.udn = ground (arith, equal_iff a.udn b.udn) in
    let r : a.device_id ≡ b.device_id = ground (arith, equal_iff a.device_id b.device_id) in
    let s : a.default_zone ≡ b.default_zone =
      ground (arith, equal_iff a.default_zone b.default_zone) in
    cc

is_entry-some : (d : Device) (o : Option Device) → is_entry d o ≡ true → o ≡ some d
unfolding is_entry
is_entry-some d none h = cc
is_entry-some d (some e) h = ap some (sym (same_device-eq d e h))

within-lookup :
    (bs cs : Dict Device)
    → within bs cs ≡ true
    → (k : Bytes) (d : Device) → lookup k bs ≡ some d
    → lookup k cs ≡ some d
unfolding within lookup
within-lookup [] cs h k d e = cc
within-lookup ((j, v) ∷ more) cs h k d e = elim (Bool-cases (equal j k)) [
  | inl i ↦
      let here = is_entry-some v (lookup j cs) (ground arith) in
      let same : j ≡ k = (equal_iff j k).0 i in
      let it : v ≡ d = ground arith in subst (λ i. lookup i cs ≡ some d) same (here ∙ ap some it)
  | inr i ↦ within-lookup more cs (ground arith) k d (ground arith)
]

module _ (encode : Config → Option Bytes) (decode : Bytes → Option Config) where
  renaming-IsAtomic :
      (path bytes : Bytes) (fails : Bool) (before : List Files) (fs g : Files)
      → All (Keeps path fs) before
      → Keeps path fs g
      → IsAtomic path fs (some bytes) (renaming encode decode path bytes fails before g)
  unfolding renaming
  renaming-IsAtomic path bytes false before fs g h k =
      let here =
        ap (λ b. if b then some bytes else put (tmp_path path) none g path) (equal_refl path) in
      record {
        whole = All-append _ before _ (weaker path fs (some bytes) before h) (inr (cc, here), tt);
        success = λ e. (cc, here);
        failure = λ e. absurd (e refl);
      }
  renaming-IsAtomic path bytes true before fs g h k = record {
    whole =
        All-append _ before _ (weaker path fs (some bytes) before h)
          (inl (put_tmp path none g ∙ k), tt);
    success = λ e. cc;
    failure = λ e. put_tmp path none g ∙ k;
  }

  writing-IsAtomic :
      (path bytes : Bytes) (stops : Option ℕ) (fails : Bool) (before : List Files) (fs g : Files)
      → All (Keeps path fs) before
      → Keeps path fs g
      → IsAtomic path fs (some bytes) (writing encode decode path bytes stops fails before g)
  unfolding writing
  writing-IsAtomic path bytes (some n) fails before fs g h k = record {
    whole =
        weaker path fs (some bytes) (before ++ partial (tmp_path path) bytes n g)
          (All-append (Keeps path fs) before _ h (partial-Keeps path bytes n fs g k));
    success = λ e. cc;
    failure = λ e. put_tmp path (some (take n bytes)) g ∙ k;
  }
  writing-IsAtomic path bytes none fails before fs g h k =
      renaming-IsAtomic path bytes fails (before ++ partial (tmp_path path) bytes (length bytes) g)
        fs (put (tmp_path path) (some bytes) g)
        (All-append (Keeps path fs) before _ h (partial-Keeps path bytes (length bytes) fs g k))
        (put_tmp path (some bytes) g ∙ k)

  removal-Keeps :
      (path : Bytes) (fails : Bool) (fs : Files)
      → Keeps path fs (if fails then fs else put (tmp_path path) none fs)
  removal-Keeps path true fs = refl
  removal-Keeps path false fs = put_tmp path none fs

  storing-IsAtomic :
      (path bytes : Bytes) (faults : Faults) (fs : Files)
      → IsAtomic path fs (some bytes) (storing encode decode path bytes faults fs)
  unfolding storing
  storing-IsAtomic path bytes faults fs = elim (Bool-cases faults.mkdir_fails) [
    | inl e ↦ rw e (record { whole = (inl refl, tt); success = λ e. cc; failure = λ e. refl })
    | inr e ↦ rw e (
        let k = removal-Keeps path faults.remove_fails fs in
        writing-IsAtomic path bytes faults.write_stops faults.rename_fails _ fs _ (refl, (k, tt)) k)
  ]

  save_checked-IsAtomic :
      (path : Bytes) (faults : Faults) (fs : Files) (new : Option Bytes)
      → IsAtomic path fs new (save_checked encode decode path faults fs new)
  unfolding save_checked
  save_checked-IsAtomic path faults fs none = record {
    whole = (inl refl, tt);
    success = λ e. cc;
    failure = λ e. refl;
  }
  save_checked-IsAtomic path faults fs (some bytes) = storing-IsAtomic path bytes faults fs

  -- These bytes are the encoding, and they read back as the configuration that was saved: the same
  -- default device, as many devices, and each of them an entry of it.
  pub record ReadsBack (c : Config) (bytes : Bytes) : Type 0 where
    pub back : Config
    pub encoded : encode c ≡ some bytes
    pub decoded : decode bytes ≡ some back
    pub same_default : back.default_device ≡ c.default_device
    pub same_size : length back.devices ≡ length c.devices
    pub entries :
        (k : Bytes) (d : Device) → lookup k back.devices ≡ some d → lookup k c.devices ≡ some d

  reads_back-ReadsBack :
      (c : Config) (bytes written : Bytes) (back : Config)
      → encode c ≡ some written
      → decode written ≡ some back
      → reads_back encode decode c written (some back) ≡ some bytes
      → ReadsBack c bytes
  unfolding reads_back same_config
  reads_back-ReadsBack c bytes written back e d h = elim (Bool-cases (same_config back c)) [
    | inr different ↦ ground arith
    | inl same_read ↦
        let same : written ≡ bytes = ground arith in
        record {
          back = back;
          encoded = e ∙ ap some same;
          decoded = rw same at d;
          same_default = ground (arith, equal_iff back.default_device c.default_device);
          same_size = ground arith;
          entries = within-lookup back.devices c.devices (ground arith);
        }
  ]

  checked-ReadsBack :
      (c : Config) (bytes : Bytes) → checked encode decode c ≡ some bytes → ReadsBack c bytes
  unfolding checked
  checked-ReadsBack c bytes h = elim (Option-cases (encode c)) [
    | inl e ↦ ground arith
    | inr (written, e) ↦ elim (Option-cases (decode written)) [
      | inl e' ↦ ground arith
      | inr (back, e') ↦ reads_back-ReadsBack c bytes written back e e' (ground arith)
    ]
  ]

  abbrev pub Holds : Config → Bytes → Files → Type 0
  Holds c path g = (bytes : Bytes) × (g path ≡ some bytes) × ReadsBack c bytes

  -- The file is as it was or holds what reads back, at all times; in the end as it reports.
  pub record IsSaved (path : Bytes) (c : Config) (fs : Files) (r : Run) : Type 0 where
    pub whole : All (λ g. Keeps path fs g ⊎ Holds c path g) r.visited
    pub success : r.result ≡ ok → Holds c path r.final
    pub failure : r.result ≢ ok → Keeps path fs r.final

  holds :
      (c : Config) (path : Bytes) (g : Files)
      → checked encode decode c ≢ none
      → g path ≡ checked encode decode c
      → Holds c path g
  holds c path g ne e = elim (Option-cases (checked encode decode c)) [
    | inl e' ↦ absurd (ne e')
    | inr (bytes, e') ↦ (bytes, e ∙ e', checked-ReadsBack c bytes e')
  ]

  whole-IsSaved :
      (path : Bytes) (c : Config) (fs : Files) (gs : List Files)
      → All
          (λ g.
            Keeps path fs g
            ⊎ ((checked encode decode c ≢ none) × (g path ≡ checked encode decode c)))
          gs
      → All (λ g. Keeps path fs g ⊎ Holds c path g) gs
  whole-IsSaved path c fs [] h = tt
  whole-IsSaved path c fs (g ∷ gs) (inl k, rest) = (inl k, whole-IsSaved path c fs gs rest)
  whole-IsSaved path c fs (g ∷ gs) (inr (ne, e), rest) =
      (inr (holds c path g ne e), whole-IsSaved path c fs gs rest)

  -- Whatever the system calls do, and wherever between them or within the write a save stops, if the
  -- disk keeps their order: the file is as it was or holds the whole encoding, which reads back as
  -- the configuration that was saved (the same default device, as many devices, and each an entry of
  -- it). It holds that in the end if the save reports success, and is as it was if it reports an
  -- error.
  pub save_to-IsAtomic :
      (path : Bytes) (c : Config) (faults : Faults) (fs : Files)
      → IsSaved path c fs (save_to encode decode path c faults fs)
  unfolding save_to
  save_to-IsAtomic path c faults fs =
      let a = save_checked-IsAtomic path faults fs (checked encode decode c) in
      let done = a.success in
      record {
        whole = whole-IsSaved path c fs _ a.whole;
        success = λ e.
            let (ne, same) = done e in
            holds c path ((save_to encode decode path c faults fs).final) ne same;
        failure = a.failure;
      }
