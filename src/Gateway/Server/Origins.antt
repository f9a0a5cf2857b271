-- ===== src/Gateway/Server/Origins.antt =====
-- The list of origins that a text stands for.
use Prim.Native.Char.{Char, code}
use text.Mathlib.TextLemmas.{nil-append, cons-append}
use walmart_assignment.Base.{
  ◌≡◌, refl, sym, ap, ◌∙◌, String, ℕ, ◌==◌, ◌||◌, arith, Bool, true, false, List, [], ◌∷◌, map,
  filter_by, All, Bool-cases, inl, inr,
}
use walmart_assignment.Base.Text.{is_truthy, join, ◌&◌}
use walmart_assignment.Base.Split.{split_at, has_char, split_at-join}
use walmart_assignment.Gateway.Server.{
  is_space, trim_start, trim_before, trim_end, trim, origins_of,
}

-- A text without white space at its ends: its first and its last character are something else.
abbrev pub first_is_space : String → Bool
first_is_space String.[] = false
first_is_space (String.◌∷◌ c s) = is_space (code c)

abbrev pub last_is_space : String → Bool
last_is_space String.[] = false
last_is_space (String.◌∷◌ c String.[]) = is_space (code c)
last_is_space (String.◌∷◌ c (String.◌∷◌ d s)) = last_is_space (String.◌∷◌ d s)

abbrev pub IsTrim : String → Type 0
IsTrim s = (first_is_space s ≡ false) × (last_is_space s ≡ false)

trim_start-first : (s : String) → first_is_space (trim_start s) ≡ false
trim_start-first String.[] = refl
trim_start-first (String.◌∷◌ c s) = elim (Bool-cases (is_space (code c))) [
  | inl space ↦ rw space (trim_start-first s)
  | inr other ↦ rw other other
]

trim_before-last :
    (c : Char) (s : String) → last_is_space s ≡ false → last_is_space (trim_before c s) ≡ false
trim_before-last c String.[] h = elim (Bool-cases (is_space (code c))) [
  | inl space ↦ rw space refl
  | inr other ↦ rw other other
]
trim_before-last c (String.◌∷◌ d s) h = h

trim_end-last : (s : String) → last_is_space (trim_end s) ≡ false
trim_end-last String.[] = refl
trim_end-last (String.◌∷◌ c s) = trim_before-last c (trim_end s) (trim_end-last s)

trim_before-first :
    (c : Char) (s : String) → is_space (code c) ≡ false → first_is_space (trim_before c s) ≡ false
trim_before-first c String.[] h = rw h h
trim_before-first c (String.◌∷◌ d s) h = h

trim_end-first : (s : String) → first_is_space s ≡ false → first_is_space (trim_end s) ≡ false
trim_end-first String.[] h = refl
trim_end-first (String.◌∷◌ c s) h = trim_before-first c (trim_end s) h

trim-IsTrim : (s : String) → IsTrim (trim s)
unfolding trim
trim-IsTrim s = (trim_end-first (trim_start s) (trim_start-first s), trim_end-last (trim_start s))

-- A trimmed text is left as it is.
trim_start-eq : (s : String) → first_is_space s ≡ false → trim_start s ≡ s
trim_start-eq String.[] h = refl
trim_start-eq (String.◌∷◌ c s) h = rw h refl

trim_end-eq : (s : String) → last_is_space s ≡ false → trim_end s ≡ s
trim_end-eq String.[] h = refl
trim_end-eq (String.◌∷◌ c String.[]) h = rw h refl
trim_end-eq (String.◌∷◌ c (String.◌∷◌ d s)) h = ap (trim_before c) (trim_end-eq (String.◌∷◌ d s) h)

trim-eq : (s : String) → IsTrim s → trim s ≡ s
unfolding trim
trim-eq s h = rw (trim_start-eq s h.0) (trim_end-eq s h.1)

-- An origin that the list may have.
abbrev pub IsOrigin : String → Type 0
IsOrigin s = IsTrim s × (is_truthy s ≡ true) × (has_char b',' s ≡ false)

-- A text of white space alone.
abbrev pub IsSpaces : String → Type 0
IsSpaces String.[] = Unit
IsSpaces (String.◌∷◌ c s) = (is_space (code c) ≡ true) × IsSpaces s

-- What may stand between two commas: an origin with white space around it, or white space alone.
pub data Piece : Type 0 where
  padded : String → String → String → Piece
  blank : String → Piece

abbrev pub text_in : Piece → String
text_in (padded before o after) = before & (o & after)
text_in (blank s) = s

abbrev pub IsPiece : Piece → Type 0
IsPiece (padded before o after) = IsSpaces before × IsOrigin o × IsSpaces after
IsPiece (blank s) = IsSpaces s

-- The origins among the pieces.
abbrev pub origins_in : List Piece → List String
origins_in [] = []
origins_in (padded before o after ∷ ps) = o ∷ origins_in ps
origins_in (blank s ∷ ps) = origins_in ps

trim_start-append : (before s : String) → IsSpaces before → trim_start (before & s) ≡ trim_start s
trim_start-append String.[] s h = ap trim_start (nil-append s)
trim_start-append (String.◌∷◌ c before) s (space, h) =
    ap trim_start (cons-append c before s) ∙ rw space (trim_start-append before s h)

trim_end_eq_nil : (s : String) → IsSpaces s → trim_end s ≡ ""
trim_end_eq_nil String.[] h = refl
trim_end_eq_nil (String.◌∷◌ c s) (space, h) =
    ap (trim_before c) (trim_end_eq_nil s h) ∙ rw space refl

trim_end-append : (s after : String) → IsSpaces after → trim_end (s & after) ≡ trim_end s
trim_end-append String.[] after h = ap trim_end (nil-append after) ∙ trim_end_eq_nil after h
trim_end-append (String.◌∷◌ c s) after h =
    ap trim_end (cons-append c s after) ∙ ap (trim_before c) (trim_end-append s after h)

trim_start-origin : (o after : String) → IsOrigin o → trim_start (o & after) ≡ o & after
trim_start-origin String.[] after ((f, l), given, n) = absurd (cc)
trim_start-origin (String.◌∷◌ c o) after ((other, l), given, n) =
    ap trim_start (cons-append c o after) ∙ rw other (sym (cons-append c o after))

trim-padded :
    (before o after : String)
    → IsSpaces before
    → IsOrigin o
    → IsSpaces after
    → trim (before & (o & after)) ≡ o
unfolding trim
trim-padded before o after b h a =
    ap trim_end (trim_start-append before (o & after) b ∙ trim_start-origin o after h)
    ∙ trim_end-append o after a
    ∙ trim_end-eq o h.0.1

trim-blank : (s : String) → IsSpaces s → trim s ≡ ""
unfolding trim
trim-blank String.[] h = refl
trim-blank (String.◌∷◌ c s) (space, h) = rw space (trim-blank s h)

kept-eq :
    (ps : List Piece)
    → All IsPiece ps
    → filter_by is_truthy (map trim (map text_in ps)) ≡ origins_in ps
kept-eq [] h = refl
kept-eq (padded before o after ∷ ps) ((b, given, a), h) =
    rw (trim-padded before o after b given a, given.1) (ap (λ xs. o ∷ xs) (kept-eq ps h))
kept-eq (blank s ∷ ps) (spaces, h) = rw (trim-blank s spaces) (kept-eq ps h)

has_char-append : (k : ℕ) (s t : String) → has_char k (s & t) ≡ (has_char k s || has_char k t)
has_char-append k String.[] t = ap (has_char k) (nil-append t)
has_char-append k (String.◌∷◌ c s) t =
    let ih = has_char-append k s t in ap (has_char k) (cons-append c s t) ∙ ground arith

space_no_comma : (n : ℕ) → is_space n ≡ true → (n == b',') ≡ false
space_no_comma n h = ground arith

has_char-spaces : (s : String) → IsSpaces s → has_char b',' s ≡ false
has_char-spaces String.[] h = refl
has_char-spaces (String.◌∷◌ c s) (space, h) =
    rw (space_no_comma (code c) space) (has_char-spaces s h)

has_char-text_in : (p : Piece) → IsPiece p → has_char b',' (text_in p) ≡ false
has_char-text_in (padded before o after) (b, given, a) =
    rw
      (
        has_char-append b',' before (o & after),
        has_char-append b',' o after,
        has_char-spaces before b,
        given.2,
      )
      (has_char-spaces after a)
has_char-text_in (blank s) h = has_char-spaces s h

commas : (ps : List Piece) → All IsPiece ps → All (λ v. has_char b',' v ≡ false) (map text_in ps)
commas [] h = tt
commas (p ∷ ps) (h, hs) = (has_char-text_in p h, commas ps hs)

-- The variable is written as origins, with any white space around each, and pieces of white space
-- alone, joined by commas; an origin is not empty, begins and ends with something else than white
-- space and has no comma. Then the list has just the origins, in order, and nothing else.
pub origins_of-join :
    (ps : List Piece) → All IsPiece ps → origins_of (join "," (map text_in ps)) ≡ origins_in ps
unfolding origins_of trim
origins_of-join [] h = refl
origins_of-join (p ∷ ps) h =
    rw (split_at-join "," (text_in p) (map text_in ps) (commas (p ∷ ps) h)) (kept-eq (p ∷ ps) h)

filter-trim :
    (xs : List String)
    → All (λ o. IsTrim o × (is_truthy o ≡ true)) (filter_by is_truthy (map trim xs))
filter-trim [] = tt
filter-trim (x ∷ xs) = elim (Bool-cases (is_truthy (trim x))) [
  | inl given ↦ rw given ((trim-IsTrim x, given), filter-trim xs)
  | inr empty ↦ rw empty (filter-trim xs)
]

-- Whatever the variable holds, no entry of the list is empty or has white space at its ends.
pub origins_of-IsTrim :
    (text : String) → All (λ o. IsTrim o × (is_truthy o ≡ true)) (origins_of text)
unfolding origins_of trim
origins_of-IsTrim text = filter-trim (split_at b',' text)
