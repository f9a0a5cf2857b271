-- ===== src/Base/Js.antt =====
-- Asynchronous code as state passing with exceptions. An `await` runs to its end before the next
-- statement; the state comes back after a `throw` too, since what was written stays written.
use Prim.Native.Nat.{ℕ}
use Prim.Native.String.{String}
use mathlib.Core.Bool.{Bool}
use mathlib.Core.Option.{Option}
use mathlib.Core.Path.{◌≡◌, refl, ap}
use mathlib.Core.Logic.{◌⊎◌, inl, inr}
use native.Mathlib.Omega.{arith}
use mathlib.Core.List.{List, [], ◌∷◌}
use walmart_assignment.Base.Tests.{if◌then◌else◌}

-- A thrown value: `err instanceof Error`, `err.message`, `String(err)`, `err.code`, and the `pos`
-- (line and column) of a validation error.
pub record Exn : Type 0 where
  pub is_error : Bool
  pub message : String
  pub text : String
  pub code : Option ℕ
  pub pos : Option (ℕ × ℕ)

-- `new Error(message)`.
abbrev pub error : String → Exn
error m = record {
  is_error = Bool.true;
  message = m;
  text = m;
  code = Option.none;
  pos = Option.none;
}

-- `err instanceof Error ? err.message : String(err)`.
abbrev pub message_of : Exn → String
message_of e = if e.is_error then e.message else e.text

pub data Outcome (A : Type 0) : Type 0 where
  ok : A → Outcome A
  thrown : Exn → Outcome A

abbrev pub Action : Type 0 → Type 0 → Type 0
Action S A = S → Outcome A × S

abbrev pub pure : {S A : Type 0} → A → Action S A
pure a s = (ok a, s)

abbrev pub throw : {S A : Type 0} → Exn → Action S A
throw e s = (thrown e, s)

-- What follows a call, by how the call ended.
abbrev pub and_then : {S A B : Type 0} → Outcome A × S → (A → Action S B) → Outcome B × S
and_then (ok a, s) f = f a s
and_then (thrown e, s) f = (thrown e, s)

abbrev pub or_else : {S A : Type 0} → Outcome A × S → (Exn → Action S A) → Outcome A × S
or_else (ok a, s) h = (ok a, s)
or_else (thrown e, s) h = h e s

infixl 5 ◌>>=◌ ◌>>◌
abbrev pub ◌>>=◌ : {S A B : Type 0} → Action S A → (A → Action S B) → Action S B
◌>>=◌ m f s = and_then (m s) f

abbrev pub ◌>>◌ : {S A B : Type 0} → Action S A → Action S B → Action S B
m >> k = m >>= λ _. k

-- Reads of the state, writes to it, and calls that cannot throw.
abbrev pub gets : {S A : Type 0} → (S → A) → Action S A
gets f s = (ok (f s), s)

abbrev pub modify : {S : Type 0} → (S → S) → Action S (Unit {0})
modify f s = (ok tt, f s)

abbrev pub call : {S A : Type 0} → (S → A × S) → Action S A
call f s = let (a, s') = f s in (ok a, s')

-- `try { m } catch (e) { h(e) }`.
abbrev pub try_catch : {S A : Type 0} → Action S A → (Exn → Action S A) → Action S A
try_catch m h s = or_else (m s) h

-- `try { m } finally { k }`: what `k` throws takes the place of the result.
abbrev pub finally : {S A : Type 0} → Action S A → Action S (Unit {0}) → Action S A
finally m k s =
    let (r, s') = m s in
    let (r', s'') = k s' in elim r' [ ok _ ↦ (r, s'') | thrown e ↦ (thrown e, s'') ]

-- `m.catch(() => undefined)`.
abbrev pub swallow : {S A : Type 0} → Action S A → Action S (Unit {0})
swallow m s = (ok tt, (m s).1)

-- A missing value that the code throws for.
abbrev pub or_throw : {S A : Type 0} → Option A → Exn → Action S A
or_throw Option.none e = throw e
or_throw (Option.some a) e = pure a

-- `for (const x of xs) await f(x)`.
unfoldable pub for_each : {S A : Type 0} → (A → Action S (Unit {0})) → List A → Action S (Unit {0})
for_each f [] = pure tt
for_each f (x ∷ xs) = let rest = for_each f xs in f x >> rest

pub Outcome-cases :
    {A : Type 0} (r : Outcome A) → ((a : A) × (r ≡ ok a)) ⊎ ((e : Exn) × (r ≡ thrown e))
Outcome-cases (ok a) = inl (a, refl)
Outcome-cases (thrown e) = inr (e, refl)

-- How a call may end, with its final state.
pub Run-cases :
    {S A : Type 0} (r : Outcome A × S)
    → ((a : A) × (s : S) × (r ≡ (ok a, s))) ⊎ ((e : Exn) × (s : S) × (r ≡ (thrown e, s)))
Run-cases (ok a, s) = inl (a, s, refl)
Run-cases (thrown e, s) = inr (e, s, refl)

module _ {S A B : Type 0} (m : Action S A) (f : A → Action S B) {s : S} where
  -- A bind that ends well: both parts do.
  pub >>=-eq-ok :
      {b : B} {t : S}
      → (m >>= f) s ≡ (ok b, t)
      → (a : A) × (u : S) × (m s ≡ (ok a, u)) × (f a u ≡ (ok b, t))
  >>=-eq-ok {b} {t} h = elim (Outcome-cases (m s).0) [
    | inl (a, e) ↦ (a, (m s).1, ap (λ r. (r, (m s).1)) e, rw (e, ◌>>=◌) at h)
    | inr (x, e) ↦ ground arith
  ]

-- Postconditions: `Ends P X r` says that a value satisfies `P` and an exception `X`, each with the
-- final state; `Returns P r` that the call ends in a value, which satisfies `P`.
abbrev pub Ends : {S A : Type 0} → (A → S → Type 0) → (Exn → S → Type 0) → Outcome A × S → Type 0
Ends P X (ok a, s) = P a s
Ends P X (thrown e, s) = X e s

abbrev pub Returns : {S A : Type 0} → (A → S → Type 0) → Outcome A × S → Type 0
Returns P = Ends P (λ _ _. ⊥)

module _ {S A B : Type 0} (Q : A → S → Type 0) (X : Exn → S → Type 0) (P : B → S → Type 0) where
  -- A bind: what the first part ensures is what the second may assume.
  pub Ends-bind :
      (m : Action S A) (f : A → Action S B) (s : S)
      → Ends Q X (m s)
      → ((a : A) (t : S) → Q a t → Ends P X (f a t))
      → Ends P X ((m >>= f) s)
  Ends-bind m f s h k = go (m s) h
    where
      go : (r : Outcome A × S) → Ends Q X r → Ends P X (◌>>=◌ {S = S} (λ _. r) f s)
      go (ok a, t) h' = k a t h'
      go (thrown e, t) h' = h'

module _ {S A : Type 0} (P : A → S → Type 0) (X Y : Exn → S → Type 0) where
  pub Ends-try_catch :
      (m : Action S A) (h : Exn → Action S A) (s : S)
      → Ends P X (m s)
      → ((e : Exn) (t : S) → X e t → Ends P Y (h e t))
      → Ends P Y (try_catch m h s)
  Ends-try_catch m h s p k = go (m s) p
    where
      go : (r : Outcome A × S) → Ends P X r → Ends P Y (try_catch {S = S} (λ _. r) h s)
      go (ok a, t) h' = h'
      go (thrown e, t) h' = k e t h'

-- A result from what its call returns.
pub Returns-value :
    {S A : Type 0} (P : A → S → Type 0) (r : Outcome A × S)
    → Returns P r
    → (a : A) × (s : S) × (r ≡ (ok a, s)) × P a s
Returns-value P (ok a, s) h = (a, s, refl, h)
Returns-value P (thrown e, s) h = absurd h

-- A weaker postcondition.
pub Ends-mono :
    {S A : Type 0} (P Q : A → S → Type 0) (X Y : Exn → S → Type 0) (r : Outcome A × S)
    → Ends P X r
    → ((a : A) (s : S) → P a s → Q a s)
    → ((e : Exn) (s : S) → X e s → Y e s)
    → Ends Q Y r
Ends-mono P Q X Y (ok a, s) h f g = f a s h
Ends-mono P Q X Y (thrown e, s) h f g = g e s h

pub Returns-mono :
    {S A : Type 0} (P Q : A → S → Type 0) (r : Outcome A × S)
    → Returns P r
    → ((a : A) (s : S) → P a s → Q a s)
    → Returns Q r
Returns-mono P Q r h f = Ends-mono P Q (λ _ _. ⊥) (λ _ _. ⊥) r h f (λ _ _ x. x)

pub Returns-and :
    {S A : Type 0} (P Q : A → S → Type 0) (r : Outcome A × S)
    → Returns P r
    → Returns Q r
    → Returns (λ a s. P a s × Q a s) r
Returns-and P Q (ok a, s) h k = (h, k)
Returns-and P Q (thrown e, s) h k = h

-- A first part of which nothing is needed.
pub Ends-after :
    {S A B : Type 0} (P : B → S → Type 0) (m : Action S A) (f : A → Action S B) (s : S)
    → ((a : A) (t : S) → Ends P (λ _ _. Unit) (f a t))
    → Ends P (λ _ _. Unit) ((m >>= f) s)
Ends-after {S} P m f s k = go (m s)
  where
    go : (r : Outcome _ × S) → Ends P (λ _ _. Unit) (and_then r f)
    go (ok a, t) = k a t
    go (thrown e, t) = tt

-- A first part of which only the result is needed.
pub Ends-after_eq :
    {S A B : Type 0} (P : B → S → Type 0) (m : Action S A) (f : A → Action S B) (s : S)
    → ((a : A) (t : S) → m s ≡ (ok a, t) → Ends P (λ _ _. Unit) (f a t))
    → Ends P (λ _ _. Unit) ((m >>= f) s)
Ends-after_eq {S} {A} P m f s k = go (m s) refl
  where
    go : (r : Outcome A × S) → m s ≡ r → Ends P (λ _ _. Unit) (and_then r f)
    go (ok a, t) e = k a t e
    go (thrown x, t) e = tt

-- A sequence that ends well, from the call that begins it.
pub and_then-eq-ok :
    {S A B : Type 0} (r : Outcome A × S) (f : A → Action S B) {b : B} {t : S}
    → and_then r f ≡ (ok b, t)
    → (a : A) × (u : S) × (r ≡ (ok a, u)) × (f a u ≡ (ok b, t))
and_then-eq-ok (ok a, u) f h = (a, u, refl, h)
and_then-eq-ok (thrown e, u) f h = cc
