-- ===== src/Discover/Locations/Order.antt =====
-- The order in which the searches end does not change the locations.
use yamaha_cli.Prelude.{
  ◌≡◌, refl, sym, ap₂, ◌∙◌, subst, Bool, true, false, ◌||◌, List, [], ◌∷◌, ◌++◌, arith,
  if◌then◌else◌, inl, inr, Bool-cases,
}
use yamaha_cli.Text.{
  Bytes, equal, equal_iff, has, insert_text, sort_texts, has-sort_texts, Unrepeated,
  sort_texts-Ascending, Ascending-unique, less_text,
}
use yamaha_cli.Discover.Locations.{
  SearchResult, Locations, located, ssdp_failed, add_location, add_locations, join_results,
  any_failed, sorted_or_failed, search_locations,
}
use mathlib.Core.List.{Permᴰ}

has-append : (t l : Bytes) (xs : List Bytes) → has t (xs ++ l ∷ []) ≡ (has t xs || equal l t)
unfolding has
has-append t l [] = ground arith
has-append t l (x ∷ xs) = ground (arith, has-append t l xs)

has-add_location :
    (t l : Bytes) (locs : List Bytes) → has t (add_location l locs) ≡ (has t locs || equal l t)
unfolding add_location
has-add_location t l locs = elim (Bool-cases (has l locs)) [
  | inr e ↦ rw e (has-append t l locs)
  | inl e ↦ elim (Bool-cases (equal l t)) [
    | inr q ↦ rw (e, q) (ground arith)
    | inl q ↦
        let there = subst (λ x. has x locs ≡ true) ((equal_iff l t).0 q) e in rw (e, there) refl
  ]
]

has-add_locations :
    (t : Bytes) (more locs : List Bytes)
    → has t (add_locations more locs) ≡ (has t locs || has t more)
unfolding add_locations has
has-add_locations t [] locs = ground arith
has-add_locations t (l ∷ more) locs =
    ground (arith, has-add_locations t more (add_location l locs), has-add_location t l locs)

-- The location is in one of the results.
abbrev reported : Bytes → List SearchResult → Bool
unfolding has
reported t [] = false
reported t (r ∷ results) = has t r.locs || reported t results

has-join_results :
    (t : Bytes) (results : List SearchResult) (locs : List Bytes)
    → has t (join_results results locs) ≡ (has t locs || reported t results)
unfolding join_results reported
has-join_results t [] locs = ground arith
has-join_results t (r ∷ results) locs =
    ground (
      arith,
      has-join_results t results (add_locations r.locs locs),
      has-add_locations t r.locs locs,
    )

Unrepeated-append :
    (l : Bytes) (xs : List Bytes) → has l xs ≡ false → Unrepeated xs → Unrepeated (xs ++ l ∷ [])
unfolding has
Unrepeated-append l [] n h = (refl, tt)
Unrepeated-append l (x ∷ xs) n h = (
  ground (arith, has-append x l xs, h.0, equal_iff l x, equal_iff x l),
  Unrepeated-append l xs (ground arith) h.1,
)

add_locations-Unrepeated :
    (more locs : List Bytes) → Unrepeated locs → Unrepeated (add_locations more locs)
unfolding add_locations add_location
add_locations-Unrepeated [] locs h = h
add_locations-Unrepeated (l ∷ more) locs h =
    add_locations-Unrepeated more (add_location l locs) (added (has l locs) refl)
  where
    added : (b : Bool) → has l locs ≡ b → Unrepeated (if b then locs else locs ++ l ∷ [])
    added true e = h
    added false e = Unrepeated-append l locs e h

join_results-Unrepeated :
    (results : List SearchResult) (locs : List Bytes)
    → Unrepeated locs
    → Unrepeated (join_results results locs)
unfolding join_results
join_results-Unrepeated [] locs h = h
join_results-Unrepeated (r ∷ results) locs h =
    join_results-Unrepeated results (add_locations r.locs locs)
      (add_locations-Unrepeated r.locs locs h)

or_swap : (x y z : Bool) → x || (y || z) ≡ y || (x || z)
or_swap x y z = ground arith

reported_permuted :
    (t : Bytes) {rs ss : List SearchResult} → Permᴰ rs ss → reported t rs ≡ reported t ss
unfolding reported
reported_permuted t Permᴰ.nil = refl
reported_permuted t (Permᴰ.cons {l₁} {l₂} e p) =
    ap₂ (λ r b. has t r.locs || b) e (reported_permuted t p)
reported_permuted t (Permᴰ.swap {a} {b} {a'} {b'} {l} e f) =
    or_swap (has t a.locs) (has t b.locs) (reported t l)
    ∙ ap₂ (λ p q. has t p.locs || (has t q.locs || reported t l)) f e
reported_permuted t (Permᴰ.trans p q) = reported_permuted t p ∙ reported_permuted t q

any_failed_permuted : {rs ss : List SearchResult} → Permᴰ rs ss → any_failed rs ≡ any_failed ss
unfolding any_failed
any_failed_permuted Permᴰ.nil = refl
any_failed_permuted (Permᴰ.cons e p) = ap₂ (λ r b. r.failed || b) e (any_failed_permuted p)
any_failed_permuted (Permᴰ.swap {a} {b} {a'} {b'} {l} e f) =
    or_swap a.failed b.failed (any_failed l)
    ∙ ap₂ (λ p q. p.failed || (q.failed || any_failed l)) f e
any_failed_permuted (Permᴰ.trans p q) = any_failed_permuted p ∙ any_failed_permuted q

-- The answer, by the sorted locations.
abbrev of_sorted : Bool → List Bytes → Locations
of_sorted true [] = ssdp_failed
of_sorted _ locs = located locs

of_sorted-insert_text :
    (b : Bool) (x : Bytes) (ys : List Bytes)
    → located (insert_text x ys) ≡ of_sorted b (insert_text x ys)
unfolding insert_text
of_sorted-insert_text false x ys = refl
of_sorted-insert_text true x [] = refl
of_sorted-insert_text true x (y ∷ ys) = elim (Bool-cases (less_text y x)) [
  | inl e ↦ rw e refl
  | inr e ↦ rw e refl
]

sorted_or_failed-of_sorted :
    (b : Bool) (locs : List Bytes) → sorted_or_failed b locs ≡ of_sorted b (sort_texts locs)
unfolding sorted_or_failed sort_texts
sorted_or_failed-of_sorted false locs = refl
sorted_or_failed-of_sorted true [] = refl
sorted_or_failed-of_sorted true (l ∷ locs) = of_sorted-insert_text true l (sort_texts locs)

-- In whatever order the searches from the addresses end, the locations are the same list, or the
-- same failure.
pub search_locations_permuted :
    {rs ss : List SearchResult} → Permᴰ rs ss → search_locations rs ≡ search_locations ss
unfolding search_locations has
search_locations_permuted {rs} {ss} p =
    sorted_or_failed-of_sorted (any_failed rs) (join_results rs [])
    ∙ ap₂ of_sorted (any_failed_permuted p) (
        Ascending-unique (sort_texts (join_results rs [])) (sort_texts (join_results ss []))
          (sort_texts-Ascending (join_results rs []) (join_results-Unrepeated rs [] tt))
          (sort_texts-Ascending (join_results ss []) (join_results-Unrepeated ss [] tt))
          λ t.
            has-sort_texts t (join_results rs [])
            ∙ has-join_results t rs []
            ∙ reported_permuted t p
            ∙ sym (has-sort_texts t (join_results ss []) ∙ has-join_results t ss []))
    ∙ sym (sorted_or_failed-of_sorted (any_failed ss) (join_results ss []))
