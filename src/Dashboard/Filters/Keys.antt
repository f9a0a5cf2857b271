-- ===== src/Dashboard/Filters/Keys.antt =====
-- The parents' choices, on their way through the debounced text.
use text.Mathlib.TextLemmas.{cons-append}
use walmart_assignment.Base.{
  ◌≡◌, refl, ap, ◌∙◌, String, ℕ, true, false, Option, none, some, List, [], ◌∷◌, All, Bool-cases,
  inl, inr, arith,
}
use walmart_assignment.Base.Text.{◌&◌, is_truthy, join}
use walmart_assignment.Base.Split.{has_char, split_at-join}
use walmart_assignment.Dashboard.Filters.{
  Selection, selected, keep, chosen, parent_selection, joined, debounced_arr,
}

is_truthy-join :
    (x : String) (xs : List String) → is_truthy x ≡ true → is_truthy (join "|" (x ∷ xs)) ≡ true
is_truthy-join String.[] xs h = absurd (ground arith)
is_truthy-join (String.◌∷◌ c s) [] h = refl
is_truthy-join (String.◌∷◌ c s) (y ∷ ys) h =
    ap (λ t. is_truthy (t & join "|" (y ∷ ys))) (cons-append c s "|")
    ∙ ap is_truthy (cons-append c (s & "|") (join "|" (y ∷ ys)))

keep-All :
    (o : Option String) (vs : List String)
    → All (λ v. is_truthy v ≡ true) vs
    → All (λ v. is_truthy v ≡ true) (keep o vs)
keep-All none vs h = h
keep-All (some v) vs h = elim (Bool-cases (is_truthy v)) [ inl t ↦ rw t (t, h) | inr f ↦ rw f h ]

chosen-All :
    (names : List String) (sel : Selection) → All (λ v. is_truthy v ≡ true) (chosen names sel)
chosen-All [] sel = tt
chosen-All (n ∷ names) sel = keep-All (selected n sel) (chosen names sel) (chosen-All names sel)

debounced_arr-join :
    (vs : List String)
    → All (λ v. is_truthy v ≡ true) vs
    → All (λ v. has_char b'|' v ≡ false) vs
    → debounced_arr (join "|" vs) ≡ vs
unfolding debounced_arr
debounced_arr-join [] t h = refl
debounced_arr-join (x ∷ xs) (t, ts) h =
    let given = is_truthy-join x xs t in rw given (split_at-join "|" x xs h)

-- Where no choice contains the separator, the request for the options of a category gets the
-- choices of the categories before it, in order, from the text they are joined to.
pub debounced_arr-joined :
    (names : List String) (idx : ℕ) (sel : Selection)
    → All (λ v. has_char b'|' v ≡ false) (parent_selection names idx sel)
    → debounced_arr (joined names idx sel) ≡ parent_selection names idx sel
unfolding joined
debounced_arr-joined names idx sel h =
    debounced_arr-join (parent_selection names idx sel) (chosen-All _ sel) h
