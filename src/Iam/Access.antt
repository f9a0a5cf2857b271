-- ===== src/Iam/Access.antt =====
-- iam-service/src/routes: what the role, rule and session handlers share. The caller is `req.user`,
-- and a page of a listing is cut from a query for one row more than its limit.
use walmart_assignment.Base.{
  ◌≡◌, refl, ap, String, ℕ, zero, suc, Bool, true, false, ◌||◌, Option, none, some, List, [], ◌∷◌,
  ◌++◌, map, ltb, lt→ltb, le→ltb_false, ◌≤◌, if◌then◌else◌, length, take, get_elem?, All, filter_by,
  arith,
}
use walmart_assignment.Base.Text.{includes, is_truthy}

-- `(req as any).user || {}`, as far as the handlers read it; a field that is missing, or that is no
-- list, is `none`.
pub record Caller : Type 0 where
  pub sub : Option String
  pub roles : Option (List String)
  pub permissions : Option (List String)

abbrev pub has_text : String → Option (List String) → Bool
has_text x none = false
has_text x (some xs) = includes x xs

-- `Array.isArray(auth.roles) && auth.roles.includes('admin')`.
unfoldable pub is_admin : Caller → Bool
is_admin auth = has_text "admin" auth.roles

-- `if (!isAdmin && !perms.includes(permission))` is the negation of this.
unfoldable pub may_read : String → Caller → Bool
may_read permission auth = is_admin auth || has_text permission auth.permissions

-- `if (search)`: an empty text counts as none.
abbrev pub non_empty : Option String → Option String
non_empty none = none
non_empty (some s) = if is_truthy s then some s else none

pub record Page (V : Type 0) : Type 0 where
  pub items : List V
  pub next : Option String

-- `list.length > limit ? key(list[limit]) : null`.
abbrev next_of : {Row : Type 0} → (Row → String) → ℕ → List Row → Option String
next_of key limit list =
    if ltb limit (length list)
    then (elim (get_elem? list limit) [ none ↦ none | some r ↦ some (key r) ])
    else none

-- The page of a listing: `list.slice(0, limit).map(view)` and the cursor of the next one.
unfoldable pub page : {Row V : Type 0} → (Row → String) → (Row → V) → ℕ → List Row → Page V
page key view limit list = record {
  items = map view (take limit list);
  next = next_of key limit list;
}

module _ {Row : Type 0} where
  pub take-append_all : (xs ys : List Row) → take (length xs) (xs ++ ys) ≡ xs
  take-append_all [] ys = refl
  take-append_all (x ∷ xs) ys = ap (λ t. x ∷ t) (take-append_all xs ys)

  pub take-append_one :
      (xs ys : List Row) (m : Row) → take (suc (length xs)) (xs ++ m ∷ ys) ≡ xs ++ m ∷ []
  take-append_one [] ys m = refl
  take-append_one (x ∷ xs) ys m = ap (λ t. x ∷ t) (take-append_one xs ys m)

  pub get_elem?-append_one :
      (xs : List Row) (m : Row) → get_elem? (xs ++ m ∷ []) (length xs) ≡ some m
  get_elem?-append_one [] m = refl
  get_elem?-append_one (x ∷ xs) m = get_elem?-append_one xs m

  pub length-append_one : (xs : List Row) (m : Row) → length (xs ++ m ∷ []) ≡ suc (length xs)
  length-append_one [] m = refl
  length-append_one (x ∷ xs) m = ap suc (length-append_one xs m)

  -- In the order of the listing the rows `xs` stand before `m`, and `ys` behind it: exactly `ys` is
  -- behind the cursor of `m`.
  pub record IsCut (behind : Row → Bool) (xs : List Row) (m : Row) (ys : List Row) : Type 0 where
    pub before : All (λ x. behind x ≡ false) xs
    pub at : behind m ≡ false
    pub after : All (λ y. behind y ≡ true) ys

  pub filter_by-all :
      (p : Row → Bool) (ys : List Row) → All (λ y. p y ≡ true) ys → filter_by p ys ≡ ys
  filter_by-all p [] h = refl
  filter_by-all p (y ∷ ys) h = rw (h.0, filter_by-all p ys h.1)

  pub filter_by-IsCut :
      (behind : Row → Bool) (xs : List Row) (m : Row) (ys : List Row)
      → IsCut behind xs m ys
      → filter_by behind (xs ++ m ∷ ys) ≡ ys
  filter_by-IsCut behind [] m ys c = rw c.at (filter_by-all behind ys c.after)
  filter_by-IsCut behind (x ∷ xs) m ys c =
      rw c.before.0 (
        filter_by-IsCut behind xs m ys (record { before = c.before.1; at = c.at; after = c.after }))

  -- A full page shows the rows before the one that its cursor names.
  pub page_full :
      {V : Type 0} (key : Row → String) (view : Row → V) (xs ys : List Row) (m : Row)
      → page key view (length xs) (take (suc (length xs)) (xs ++ m ∷ ys))
        ≡ record { items = map view xs; next = some (key m) }
  unfolding page
  page_full key view xs ys m =
      let behind : ltb (length xs) (suc (length xs)) ≡ true = lt→ltb _ _ (omega arith) in
      rw (
        take-append_one xs ys m,
        take-append_all xs (m ∷ []),
        get_elem?-append_one xs m,
        length-append_one xs m,
        behind,
      )

  pub take_all : (n : ℕ) (ys : List Row) → length ys ≤ n → take n ys ≡ ys
  take_all zero [] h = refl
  take_all zero (y ∷ ys) h = absurd (omega arith)
  take_all (suc n) [] h = refl
  take_all (suc n) (y ∷ ys) h = ap (λ t. y ∷ t) (take_all n ys (omega arith))

  -- A page that is not full shows all that is left, and gives no cursor.
  pub page_last :
      {V : Type 0} (key : Row → String) (view : Row → V) (n : ℕ) (ys : List Row)
      → length ys ≤ n
      → page key view n (take (suc n) ys) ≡ record { items = map view ys; next = none }
  unfolding page
  page_last key view n ys h =
      rw (take_all (suc n) ys (omega arith), take_all n ys h, le→ltb_false n (length ys) h)
