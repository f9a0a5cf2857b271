-- ===== src/Base/Split.antt =====
-- Texts cut at a separator, as `split` does for a single character, and `trim`.
use Prim.Native.Char.{Char, code}
use Prim.Native.Nat.{ℕ}
use Prim.Native.String.{String}
use text.Mathlib.TextLemmas.{nil-append, cons-append}
use mathlib.Core.Path.{◌≡◌, refl, ap, ◌∙◌}
use mathlib.Core.Bool.{Bool, true, false, ◌||◌}
use mathlib.Core.List.{List, [], ◌∷◌}
use native.Mathlib.Omega.{arith}
use walmart_assignment.Base.Tests.{◌==◌, if◌then◌else◌}
use walmart_assignment.Base.Lists.{All}
use walmart_assignment.Base.Text.{◌&◌, join}

abbrev pub push : Char → List String → List String
push c [] = String.◌∷◌ c "" ∷ []
push c (x ∷ xs) = String.◌∷◌ c x ∷ xs

-- `s.split(separator)` for the separator of a code.
abbrev pub split_at : ℕ → String → List String
split_at k String.[] = "" ∷ []
split_at k (String.◌∷◌ c s) =
    let rest = split_at k s in if code c == k then "" ∷ rest else push c rest

-- A text contains a character.
abbrev pub has_char : ℕ → String → Bool
has_char k String.[] = false
has_char k (String.◌∷◌ c s) = (code c == k) || has_char k s

split_at_alone : (k : ℕ) (x : String) → has_char k x ≡ false → split_at k x ≡ x ∷ []
split_at_alone k String.[] h = refl
split_at_alone k (String.◌∷◌ c s) h =
    let apart : (code c == k) ≡ false = ground arith in
    rw apart (ap (push c) (split_at_alone k s (ground arith)))

module _ (sep : Char) where
  abbrev pub separator : String
  separator = String.◌∷◌ sep ""

  split_at-append :
      (x s : String)
      → has_char (code sep) x ≡ false
      → split_at (code sep) ((x & separator) & s) ≡ x ∷ split_at (code sep) s
  split_at-append String.[] s h =
      let own : (code sep == code sep) ≡ true = ground arith in
      ap (λ t. split_at (code sep) (t & s)) (nil-append separator)
      ∙ (ap (split_at (code sep)) (cons-append sep "" s)
          ∙ (rw own (ap (λ t. "" ∷ split_at (code sep) t) (nil-append s))))
  split_at-append (String.◌∷◌ c x) s h =
      let apart : (code c == code sep) ≡ false = ground arith in
      ap (λ t. split_at (code sep) (t & s)) (cons-append c x separator)
      ∙ (ap (split_at (code sep)) (cons-append c (x & separator) s)
          ∙ rw apart (ap (push c) (split_at-append x s (ground arith))))

  -- Texts without the separator come back from the text they are joined to.
  pub split_at-join :
      (x : String) (xs : List String)
      → All (λ v. has_char (code sep) v ≡ false) (x ∷ xs)
      → split_at (code sep) (join separator (x ∷ xs)) ≡ x ∷ xs
  split_at-join x [] (h, hs) = split_at_alone (code sep) x h
  split_at-join x (y ∷ ys) (h, hs) =
      split_at-append x (join separator (y ∷ ys)) h ∙ ap (λ t. x ∷ t) (split_at-join y ys hs)
