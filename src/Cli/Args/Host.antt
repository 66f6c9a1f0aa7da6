-- ===== src/Cli/Args/Host.antt =====
-- What an accepted host is made of.
use yamaha_cli.Prelude.{
  ℕ, ◌≡◌, refl, Bool, true, ◌||◌, List, [], ◌∷◌, arith, inl, inr, Bool-cases, ◌==◌, All,
}
use yamaha_cli.Text.{Bytes, split_by, onto_head, is_digit}
use yamaha_cli.Cli.Args.{
  all_bytes, all_labels, is_label_byte, is_label, is_octet, is_hostname, is_ipv4,
  validate_config_host,
}

-- A letter, a digit, `-`, `_` or `.`; so no colon, slash or bracket.
abbrev pub is_host_byte : ℕ → Bool
is_host_byte c = is_label_byte c || c == 46

digit-is_label_byte : (s : Bytes) → all_bytes is_digit s ≡ true → all_bytes is_label_byte s ≡ true
unfolding all_bytes
digit-is_label_byte [] h = refl
digit-is_label_byte (c ∷ s) h = ground (arith, digit-is_label_byte s)

abbrev has_label_bytes : Bytes → Bool
has_label_bytes = all_bytes is_label_byte

labels-bytes :
    (p : Bytes → Bool) (ls : List Bytes)
    → ((l : Bytes) → p l ≡ true → all_bytes is_label_byte l ≡ true)
    → all_labels p ls ≡ true
    → all_labels (all_bytes is_label_byte) ls ≡ true
unfolding all_labels
labels-bytes p [] h k = refl
labels-bytes p (l ∷ ls) h k = ground (arith, h l, labels-bytes p ls h)

onto_head-bytes :
    (c : ℕ) (ls : List Bytes)
    → all_labels (all_bytes is_label_byte) (onto_head c ls) ≡ true
    → (is_label_byte c ≡ true) × (all_labels (all_bytes is_label_byte) ls ≡ true)
unfolding all_labels all_bytes
onto_head-bytes c [] h = (ground arith, refl)
onto_head-bytes c (l ∷ ls) h = (ground arith, ground arith)

joined-bytes :
    (s : Bytes)
    → all_labels (all_bytes is_label_byte) (split_by 46 s) ≡ true
    → All (λ c. is_host_byte c ≡ true) s
unfolding split_by all_labels all_bytes
joined-bytes [] h = tt
joined-bytes (c ∷ s) h = elim (Bool-cases (c == 46)) [
  | inl e ↦ (ground arith, joined-bytes s (ground arith))
  | inr e ↦
      let (b, k) = onto_head-bytes c (split_by 46 s) (ground arith) in
      (ground arith, joined-bytes s k)
]

is_label-bytes : (l : Bytes) → is_label l ≡ true → all_bytes is_label_byte l ≡ true
unfolding is_label
is_label-bytes l h = ground arith

is_octet-bytes : (l : Bytes) → is_octet l ≡ true → all_bytes is_label_byte l ≡ true
unfolding is_octet
is_octet-bytes l h = digit-is_label_byte l (ground arith)

-- A host that `config add` accepts has letters, digits, `-`, `_` and `.` only.
pub validate_config_host-IsBare :
    (host : Bytes) → validate_config_host host ≡ true → All (λ c. is_host_byte c ≡ true) host
unfolding validate_config_host is_hostname is_ipv4
validate_config_host-IsBare host h = elim (Bool-cases (is_ipv4 host)) [
  | inl e ↦
      joined-bytes host (labels-bytes is_octet (split_by 46 host) is_octet-bytes (ground arith))
  | inr e ↦
      joined-bytes host (labels-bytes is_label (split_by 46 host) is_label-bytes (ground arith))
]
