-- ===== src/Dashboard/Manager/Permissions.antt =====
-- The check boxes of the role editor.
use walmart_assignment.Base.{
  ◌≡◌, refl, ◌∙◌, String, Bool, false, not, ◌&&◌, ◌||◌, List, [], ◌∷◌, ◌++◌, filter_by, Bool-cases,
  if◌then◌else◌, inl, inr, arith, ap,
}
use walmart_assignment.Base.Text.{str_eq, includes, eq_iff, str_eq_comm}
use walmart_assignment.Dashboard.Manager.{toggle_permission}

-- The clicks on the boxes, one after the other.
unfoldable pub toggles : List String → List String → List String
toggles [] perms = perms
toggles (q ∷ qs) perms = toggles qs (toggle_permission q perms)

-- A bit that is flipped for every click on `p`.
abbrev pub flips : String → List String → Bool → Bool
flips p [] b = b
flips p (q ∷ qs) b = flips p qs (if str_eq q p then not b else b)

includes-append :
    (p q : String) (xs : List String) → includes p (xs ++ (q ∷ [])) ≡ (includes p xs || str_eq q p)
includes-append p q [] = ground arith
includes-append p q (x ∷ xs) = ground (arith, includes-append p q xs)

includes-filter_by :
    (p q : String) (xs : List String)
    → includes p (filter_by (λ x. not (str_eq x q)) xs) ≡ (includes p xs && not (str_eq q p))
includes-filter_by p q [] = refl
includes-filter_by p q (x ∷ xs) = elim (Bool-cases (str_eq x q)) [
  | inl here ↦
      let same : x ≡ q = (eq_iff x q).0 here in
      let ih = includes-filter_by p q xs in rw here (ih ∙ (rw same (ground arith)))
  | inr other ↦
      let ih = includes-filter_by p q xs in
      elim (Bool-cases (str_eq x p)) [
        | inl it ↦
            let same : x ≡ p = (eq_iff x p).0 it in
            let apart : str_eq q p ≡ false = str_eq_comm q p ∙ (rw same at other) in
            rw (other, it, apart) refl
        | inr apart ↦ rw (other, apart) ih
      ]
]

-- One click flips its own permission and leaves the others.
pub toggle_permission-includes :
    (p q : String) (perms : List String)
    → includes p (toggle_permission q perms)
      ≡ (if str_eq q p then not (includes p perms) else includes p perms)
unfolding toggle_permission
toggle_permission-includes p q perms = elim (Bool-cases (str_eq q p)) [
  | inl here ↦
      let same : q ≡ p = (eq_iff q p).0 here in
      elim (Bool-cases (includes q perms)) [
        | inl has ↦ rw (has, here) (includes-filter_by p q perms ∙ rw (here, (rw same at has)) refl)
        | inr lacks ↦
            rw (lacks, here) (includes-append p q perms ∙ rw (here, (rw same at lacks)) refl)
      ]
  | inr other ↦ elim (Bool-cases (includes q perms)) [
    | inl has ↦ rw (has, other) (includes-filter_by p q perms ∙ rw other (ground arith))
    | inr lacks ↦ rw (lacks, other) (includes-append p q perms ∙ rw other (ground arith))
  ]
]

-- Whatever boxes are clicked and in which order: a permission is in the list in the end exactly if it
-- was there before, flipped once for every click on its own box. What was there twice goes and comes
-- as one.
pub toggles-includes :
    (p : String) (qs perms : List String)
    → includes p (toggles qs perms) ≡ flips p qs (includes p perms)
unfolding toggles
toggles-includes p [] perms = refl
toggles-includes p (q ∷ qs) perms =
    toggles-includes p qs (toggle_permission q perms)
    ∙ ap (flips p qs) (toggle_permission-includes p q perms)
