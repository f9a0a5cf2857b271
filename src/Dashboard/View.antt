-- ===== src/Dashboard/View.antt =====
-- What a component of the dashboard renders, as a tree of elements (JSX). A handler is the event that
-- it sends, of a type `E` of the component; elements of the component libraries stand by their names.
pub mod Handlers
pub mod Shown
use walmart_assignment.Base.{
  ◌≡◌, refl, String, ℕ, suc, Bool, true, false, Option, none, some, List, [], ◌∷◌, if◌then◌else◌,
}

-- A property of an element: a text, a number, a truth value, the numbers of a chart by their
-- texts, and the handlers, which get nothing, a text (`e.target.value`, `e.key`) or a truth
-- value (`open`) from the browser.
pub data Attr (E : Type 0) : Type 0 where
  attr : String → String → Attr E
  count : String → ℕ → Attr E
  flag : String → Bool → Attr E
  values : String → List String → Attr E
  on : String → E → Attr E
  on_text : String → (String → E) → Attr E
  on_flag : String → (Bool → E) → Attr E

mutual
  pub data Node (E : Type 0) : Type 0 where
    text : String → Node E
    number : ℕ → Node E
    element : String → List (Attr E) → Nodes E → Node E

  pub data Nodes (E : Type 0) : Type 0 where
    nil : Nodes E
    cons : Node E → Nodes E → Nodes E

abbrev pub join_nodes : {E : Type 0} → Nodes E → Nodes E → Nodes E
join_nodes nil ns = ns
join_nodes (cons m ms) ns = cons m (join_nodes ms ns)

-- `<>…</>`: pieces one after the other.
abbrev pub fragment : {E : Type 0} → List (Nodes E) → Nodes E
fragment [] = nil
fragment (p ∷ []) = p
fragment (p ∷ q ∷ ps) = join_nodes p (fragment (q ∷ ps))

-- `<tag …>…</tag>`, a text and a number.
abbrev pub tag : {E : Type 0} → String → List (Attr E) → List (Nodes E) → Nodes E
tag name attrs pieces = cons (element name attrs (fragment pieces)) nil

abbrev pub say : {E : Type 0} → String → Nodes E
say t = cons (text t) nil

abbrev pub numeral : {E : Type 0} → ℕ → Nodes E
numeral n = cons (number n) nil

-- `{test && …}`, and `{value && …}` for a value that may be missing.
abbrev pub when : {E : Type 0} → Bool → Nodes E → Nodes E
when b ns = if b then ns else nil

abbrev pub when_some : {E A : Type 0} → Option A → (A → Nodes E) → Nodes E
when_some none f = nil
when_some (some a) f = f a

-- `{xs.map((x) => …)}`, and `{xs.map((x, idx) => …)}` from an index on.
abbrev pub each : {E A : Type 0} → (A → Nodes E) → List A → Nodes E
each f [] = nil
each f (a ∷ rest) = join_nodes (f a) (each f rest)

abbrev pub each_from : {E A : Type 0} → (ℕ → A → Nodes E) → ℕ → List A → Nodes E
each_from f i [] = nil
each_from f i (a ∷ rest) = join_nodes (f i a) (each_from f (suc i) rest)

-- Rendering that may throw: `none` is an exception.
infixl 5 ◌>>=◌
abbrev pub ◌>>=◌ : {A B : Type 0} → Option A → (A → Option B) → Option B
none >>= f = none
(some a) >>= f = f a

pub >>=-eq-some :
    {A B : Type 0} (o : Option A) (f : A → Option B) {b : B}
    → (o >>= f) ≡ some b
    → (a : A) × (o ≡ some a) × (f a ≡ some b)
>>=-eq-some none f h = absurd (cc)
>>=-eq-some (some a) f h = (a, refl, h)
