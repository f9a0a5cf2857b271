-- ===== src/Dashboard/Filters/Chain.antt =====
-- What a choice in a menu does to the others.
use walmart_assignment.Base.{
  ◌≡◌, refl, sym, ap, subst, ◌∙◌, String, ℕ, zero, suc, ◌+◌, ◌≤◌, Bool, true, false, Option, none,
  some, List, [], ◌∷◌, take, drop, length, length-take, ◌⊎◌, min, All, count_by, count_by-le-length,
  get_elem?, leb, Bool-cases, inl, inr, if◌then◌else◌, arith,
}
use mathlib.Core.Option.{some_inj}
use walmart_assignment.Base.Text.{str_eq, is_truthy, includes, Distinct, eq_refl}
use walmart_assignment.Dashboard.Filters.{
  Selection, selected, delete_all, keep, select_at, handle_select, chosen, parent_selection,
  enabled,
}

none_if : (b : Bool) (o : Option String) → (if b then none else (if true then none else o)) ≡ none
none_if true o = refl
none_if false o = refl

pub delete_all-selected :
    (key : String) (names : List String) (sel : Selection)
    → selected key (delete_all names sel) ≡ (if includes key names then none else selected key sel)
delete_all-selected key [] sel = refl
delete_all-selected key (n ∷ names) sel =
    delete_all-selected key names ((n, none) ∷ sel) ∙ elim (Bool-cases (str_eq n key)) [
      | inl here ↦ rw here (none_if (includes key names) (selected key sel))
      | inr other ↦ rw other refl
    ]

-- What the code calls a choice: a text that is not empty.
abbrev pub has_value : Option String → Bool
has_value none = false
has_value (some v) = is_truthy v

abbrev pub is_chosen : Selection → String → Bool
is_chosen sel name = has_value (selected name sel)

length-keep :
    (o : Option String) (vs : List String)
    → length (keep o vs) ≡ (if has_value o then 1 else 0) + length vs
length-keep none vs = omega arith
length-keep (some v) vs = elim (Bool-cases (is_truthy v)) [
  | inl t ↦ rw t (omega arith)
  | inr f ↦ rw f (omega arith)
]

length-chosen :
    (names : List String) (sel : Selection)
    → length (chosen names sel) ≡ count_by (is_chosen sel) names
length-chosen [] sel = refl
length-chosen (n ∷ names) sel =
    length-keep (selected n sel) (chosen names sel)
    ∙ ap (λ k. (if has_value (selected n sel) then 1 else 0) + k) (length-chosen names sel)

-- Lists cut in two.
module _ (c : String → Bool) where
  count_by-cut :
      (xs : List String) (k j : ℕ)
      → j ≤ length xs
      → All (λ n. c n ≡ true) (take k xs)
      → All (λ n. c n ≡ false) (drop k xs)
      → count_by c (take j xs) ≡ min j k
  count_by-cut xs k zero le t f = omega arith
  count_by-cut [] k (suc j) le t f = absurd (omega arith)
  count_by-cut (x ∷ xs) zero (suc j) le t (f, fs) =
      rw f (omega (arith, count_by-cut xs zero j (omega arith) tt fs))
  count_by-cut (x ∷ xs) (suc k) (suc j) le (t, ts) f =
      rw t (omega (arith, count_by-cut xs k j (omega arith) ts f))

  all_of_count : (xs : List String) → length xs ≤ count_by c xs → All (λ n. c n ≡ true) xs
  all_of_count [] h = tt
  all_of_count (x ∷ xs) h = elim (Bool-cases (c x)) [
    | inl t ↦ (t, all_of_count xs (ground arith))
    | inr f ↦ absurd (let le = count_by-le-length c xs in ground arith)
  ]

pub includes-drop :
    (n : String) (k : ℕ) (xs : List String) → includes n xs ≡ false → includes n (drop k xs) ≡ false
includes-drop n zero xs h = h
includes-drop n (suc k) [] h = refl
includes-drop n (suc k) (x ∷ xs) h = includes-drop n k xs (ground arith)

take-drop-Distinct :
    (k : ℕ) (xs : List String) → Distinct xs → All (λ n. includes n (drop k xs) ≡ false) (take k xs)
take-drop-Distinct zero xs d = tt
take-drop-Distinct (suc k) [] d = tt
take-drop-Distinct (suc k) (x ∷ xs) (h, d) = (includes-drop x k xs h, take-drop-Distinct k xs d)

pub All-includes :
    (ys xs : List String)
    → ((n : String) → includes n ys ≡ true → includes n xs ≡ true)
    → All (λ n. includes n xs ≡ true) ys
All-includes [] xs h = tt
All-includes (y ∷ ys) xs h =
    (h y (rw (eq_refl y) refl), All-includes ys xs (λ n e. h n (ground arith)))

take-get_elem? :
    (P : String → Type 0) (k : ℕ) (xs : List String) (name : String)
    → get_elem? xs k ≡ some name
    → All P (take k xs)
    → P name
    → All P (take (suc k) xs)
take-get_elem? P k [] name e h p = tt
take-get_elem? P zero (x ∷ xs) name e h p = (subst P (sym (some_inj.0 e)) p, tt)
take-get_elem? P (suc k) (x ∷ xs) name e (h, hs) p = (h, take-get_elem? P k xs name e hs p)

All-map :
    (P Q : String → Type 0) (xs : List String) → ((n : String) → P n → Q n) → All P xs → All Q xs
All-map P Q [] f p = tt
All-map P Q (x ∷ xs) f (p, ps) = (f x p, All-map P Q xs f ps)

All-both :
    (P Q R : String → Type 0) (xs : List String)
    → ((n : String) → P n → Q n → R n)
    → All P xs
    → All Q xs
    → All R xs
All-both P Q R [] f p q = tt
All-both P Q R (x ∷ xs) f (p, ps) (q, qs) = (f x p q, All-both P Q R xs f ps qs)

module _ (names : List String) (idx : ℕ) (name value : String) (sel : Selection) where
  abbrev after : Selection
  after = delete_all (drop (suc idx) names) ((name, some value) ∷ sel)

  -- Chosen before, or the category of the menu.
  abbrev Kept : String → Type 0
  Kept n = (is_chosen sel n ≡ true) ⊎ (name ≡ n)

  handle_select-after :
      get_elem? names idx ≡ some name → handle_select names idx value sel ≡ some after
  unfolding handle_select
  handle_select-after e = ap (λ o. select_at o (drop (suc idx) names) value sel) e

  Kept-is_chosen :
      is_truthy value ≡ true
      → (n : String) → Kept n
      → includes n (drop (suc idx) names) ≡ false
      → is_chosen after n ≡ true
  Kept-is_chosen truthy n kept early =
      let here : is_chosen after n
          ≡ has_value (if str_eq name n then some value else selected n sel) =
        ap has_value (
          delete_all-selected n (drop (suc idx) names) ((name, some value) ∷ sel)
          ∙ rw early refl) in
      here ∙ elim kept [
        | inr same ↦ rw (← same, eq_refl name) truthy
        | inl old ↦ elim (Bool-cases (str_eq name n)) [
          | inl it ↦ rw it truthy
          | inr other ↦ rw other old
        ]
      ]

  later-is_chosen :
      (n : String) → includes n (drop (suc idx) names) ≡ true → is_chosen after n ≡ false
  later-is_chosen n late =
      let gone : selected n after ≡ none =
        delete_all-selected n (drop (suc idx) names) ((name, some value) ∷ sel) ∙ rw late refl in
      rw gone refl

  enabled-All : enabled names idx sel ≡ true → All (λ n. is_chosen sel n ≡ true) (take idx names)
  unfolding enabled
  enabled-All on =
      let count = length-chosen (take idx names) sel in
      let size = length-take idx names in
      all_of_count (is_chosen sel) (take idx names) (ground arith)

  after-enabled :
      (j : ℕ)
      → Distinct names
      → get_elem? names idx ≡ some name
      → is_truthy value ≡ true
      → enabled names idx sel ≡ true
      → j ≤ length names
      → enabled names j after ≡ leb j (suc idx)
  unfolding enabled
  after-enabled j distinct e truthy on le =
      let early = take-drop-Distinct (suc idx) names distinct in
      let kept : All Kept (take idx names) =
        All-map (λ n. is_chosen sel n ≡ true) Kept (take idx names) (λ n p. inl p)
          (enabled-All on) in
      let first =
        All-both Kept (λ n. includes n (drop (suc idx) names) ≡ false)
          (λ n. is_chosen after n ≡ true) (take (suc idx) names) (Kept-is_chosen truthy)
          (take-get_elem? Kept idx names name e kept (inr refl)) early in
      let rest =
        All-map (λ n. includes n (drop (suc idx) names) ≡ true) (λ n. is_chosen after n ≡ false)
          (drop (suc idx) names) later-is_chosen
          (All-includes (drop (suc idx) names) (drop (suc idx) names) (λ n p. p)) in
      let count = count_by-cut (is_chosen after) names (suc idx) j le first rest in
      let size = length-chosen (take j names) after in
      let total : length (parent_selection names j after) ≡ min j (suc idx) = size ∙ count in
      rw total (ground arith)

-- The categories have different names. After a choice of a value that is not empty, in a menu whose
-- options are asked for: the options are asked for of exactly the menus up to the next one.
pub handle_select-enabled :
    (names : List String) (idx : ℕ) (name value : String) (sel next : Selection) (j : ℕ)
    → Distinct names
    → get_elem? names idx ≡ some name
    → is_truthy value ≡ true
    → enabled names idx sel ≡ true
    → handle_select names idx value sel ≡ some next
    → j ≤ length names
    → enabled names j next ≡ leb j (suc idx)
handle_select-enabled names idx name value sel next j distinct e truthy on made le =
    let same : after names idx name value sel ≡ next =
      some_inj.0 (sym (handle_select-after names idx name value sel e) ∙ made) in
    subst (λ s. enabled names j s ≡ leb j (suc idx)) same
      (after-enabled names idx name value sel j distinct e truthy on le)
