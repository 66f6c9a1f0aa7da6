-- ===== src/Cli/Errors/Table.antt =====
-- The table of exit codes in README.md.
use yamaha_cli.Prelude.{
  ℕ, Bool, true, false, ◌||◌, List, ◌∷◌, none, some, ◌≡◌, ◌≢◌, ◌↔◌, ◌⊎◌, refl, sym, subst, zero,
  suc, arith, inl, inr, ◌==◌,
}
use yamaha_cli.Text.{Bytes}
use yamaha_cli.Cli.Errors.{
  Kind, other, Error, has, is_interrupt, is_no_device, is_unavailable, is_unsupported,
  is_restricted, is_generic, is_usage, is_cobra_usage_error, ranked, exit_code, error_exit_code,
}

-- The codes for an error.
abbrev pub is_documented : ℕ → Bool
is_documented n = n == 1 || n == 2 || n == 64 || n == 69 || n == 70 || n == 75 || n == 130

-- The same error behind one that says nothing of its kind.
abbrev pub wrapped : Bytes → Error → Error
wrapped message e = record { chain = other ∷ e.chain; message = message }

has-other : (p : Kind → Bool) (ks : List Kind) → p other ≡ false → has p (other ∷ ks) ≡ has p ks
unfolding has
has-other p ks h = ground arith

ranked_documented : (a b c d f g h i : Bool) → is_documented (ranked a b c d f g h i) ≡ true
unfolding ranked
ranked_documented true _ _ _ _ _ _ _ = refl
ranked_documented false true _ _ _ _ _ _ = refl
ranked_documented false false true _ _ _ _ _ = refl
ranked_documented false false false true _ _ _ _ = refl
ranked_documented false false false false true _ _ _ = refl
ranked_documented false false false false false true _ _ = refl
ranked_documented false false false false false false true _ = refl
ranked_documented false false false false false false false true = refl
ranked_documented false false false false false false false false = refl

ranked_interrupt : (a b c d f g h i : Bool) → (ranked a b c d f g h i ≡ 130) ↔ (a ≡ true)
unfolding ranked
ranked_interrupt true _ _ _ _ _ _ _ = (λ e. refl, λ e. refl)
ranked_interrupt false true _ _ _ _ _ _ = (λ e. absurd (omega arith), λ e. cc)
ranked_interrupt false false true _ _ _ _ _ = (λ e. absurd (omega arith), λ e. cc)
ranked_interrupt false false false true _ _ _ _ = (λ e. absurd (omega arith), λ e. cc)
ranked_interrupt false false false false true _ _ _ = (λ e. absurd (omega arith), λ e. cc)
ranked_interrupt false false false false false true _ _ = (λ e. absurd (omega arith), λ e. cc)
ranked_interrupt false false false false false false true _ = (λ e. absurd (omega arith), λ e. cc)
ranked_interrupt false false false false false false false true =
    (λ e. absurd (omega arith), λ e. cc)
ranked_interrupt false false false false false false false false =
    (λ e. absurd (omega arith), λ e. cc)

-- The message matters for the last two codes only.
ranked_message :
    (a b c d f g h i j : Bool)
    → (ranked a b c d f g h j ≡ ranked a b c d f g h i)
      ⊎ ((ranked a b c d f g h i ≡ 1) ⊎ (ranked a b c d f g h i ≡ 2))
unfolding ranked
ranked_message true _ _ _ _ _ _ i j = inl refl
ranked_message false true _ _ _ _ _ i j = inl refl
ranked_message false false true _ _ _ _ i j = inl refl
ranked_message false false false true _ _ _ i j = inl refl
ranked_message false false false false true _ _ i j = inl refl
ranked_message false false false false false true _ i j = inl refl
ranked_message false false false false false false true i j = inl refl
ranked_message false false false false false false false true j = inr (inr refl)
ranked_message false false false false false false false false j = inr (inl refl)

documented_nonzero : (n : ℕ) → is_documented n ≡ true → n ≢ 0
documented_nonzero zero h = cc
documented_nonzero (suc n) h = omega arith

-- The tests of a wrapped error are those of the error.
wrapped_code :
    (e : Error) (message : Bytes)
    → exit_code (wrapped message e)
      ≡ ranked
          (has is_interrupt e.chain)
          (has is_no_device e.chain)
          (has is_unavailable e.chain)
          (has is_unsupported e.chain)
          (has is_restricted e.chain)
          (has is_generic e.chain)
          (has is_usage e.chain)
          (is_cobra_usage_error message)
unfolding exit_code has is_interrupt is_no_device is_unavailable is_unsupported is_restricted
    is_generic is_usage
wrapped_code e message = refl

-- An error's exit code is one of those that the README lists for errors, and never 0. It is 130 just
-- if an interrupt is somewhere in the chain, whatever else is. An error that is wrapped keeps its
-- code, unless it has the generic code or that of misuse, which are told by the message.
pub exit_code-wrapped :
    (e : Error) (message : Bytes)
    → (is_documented (exit_code e) ≡ true)
      × (error_exit_code (some e) ≢ error_exit_code none)
      × ((exit_code e ≡ 130) ↔ (has is_interrupt e.chain ≡ true))
      × ((exit_code (wrapped message e) ≡ exit_code e) ⊎ ((exit_code e ≡ 1) ⊎ (exit_code e ≡ 2)))
unfolding exit_code error_exit_code
exit_code-wrapped e message =
    let ks = e.chain in
    (
      documented e,
      documented_nonzero (exit_code e) (documented e),
      ranked_interrupt (has is_interrupt ks) _ _ _ _ _ _ _,
      subst (λ n. (n ≡ exit_code e) ⊎ ((exit_code e ≡ 1) ⊎ (exit_code e ≡ 2)))
          (sym (wrapped_code e message))
          (ranked_message (has is_interrupt ks) (has is_no_device ks) (has is_unavailable ks)
            (has is_unsupported ks) (has is_restricted ks) (has is_generic ks) (has is_usage ks)
            (is_cobra_usage_error e.message) (is_cobra_usage_error message)),
    )
  where
    documented : (e : Error) → is_documented (exit_code e) ≡ true
    documented e = ranked_documented (has is_interrupt e.chain) _ _ _ _ _ _ _
