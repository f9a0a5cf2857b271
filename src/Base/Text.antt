-- ===== src/Base/Text.antt =====
-- Whole texts: their equality as a test, and the prefixes that the handlers cut off.
use Prim.Native.String.{String, [], ◌∷◌}
use Prim.Native.String
use Prim.Native.Nat.{ℕ, zero, suc}
use mathlib.Core.Path.{◌≡◌}
use native.Mathlib.Omega.{arith}
use mathlib.Core.Bool.{Bool, true, false, ◌||◌}
use mathlib.Core.List.{List}
use text.Mathlib.Text
pub use text.Mathlib.Text.{starts_with}
pub use text.Mathlib.TextEquality.{eq_iff}
pub use text.Mathlib.TextPositions.{eq_refl}

-- `s === t` on strings.
abbrev pub str_eq : String → String → Bool
str_eq s t = Text.◌==◌ s t

infixl 65 ◌&◌
-- Concatenation, as the template literals make it.
abbrev pub ◌&◌ : String → String → String
s & t = String.◌++◌ s t

-- `s.slice(n)`.
abbrev pub slice_from : ℕ → String → String
slice_from zero s = s
slice_from (suc n) [] = []
slice_from (suc n) (c ∷ s) = slice_from n s

-- A string is falsy exactly if it is empty.
abbrev pub is_truthy : String → Bool
is_truthy [] = false
is_truthy (c ∷ s) = true

-- `xs.includes(s)` on a list of strings.
abbrev pub includes : String → List String → Bool
includes s List.[] = false
includes s (List.◌∷◌ x xs) = str_eq x s || includes s xs

pub str_eq_comm : (s t : String) → str_eq s t ≡ str_eq t s
str_eq_comm s t = ground (arith, eq_iff s t, eq_iff t s)

-- The texts of a list are pairwise different.
abbrev pub Distinct : List String → Type 0
Distinct List.[] = Unit
Distinct (List.◌∷◌ x xs) = (includes x xs ≡ false) × Distinct xs

-- `xs.join(separator)`.
abbrev pub join : String → List String → String
join separator List.[] = []
join separator (List.◌∷◌ x List.[]) = x
join separator (List.◌∷◌ x (List.◌∷◌ y xs)) = x & separator & join separator (List.◌∷◌ y xs)
