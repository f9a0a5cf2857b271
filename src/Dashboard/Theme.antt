-- ===== src/Dashboard/Theme.antt =====
-- ui-dashboard/components/DarkModeToggle.tsx: the theme of the page, and what is stored of it.
pub mod Render
use walmart_assignment.Base.{
  ◌≡◌, refl, String, Bool, true, false, not, ◌&&◌, Option, none, some, if◌then◌else◌, Bool-cases,
  arith, inl, inr,
}
use walmart_assignment.Base.Text.{str_eq}

-- The state of the component, the class `dark` of the document, and the item `tv-darkmode`.
pub record Theme : Type 0 where
  pub is_dark : Bool
  pub class_dark : Bool
  pub stored : Option String

abbrev pub is_light : Option String → Bool
is_light none = false
is_light (some s) = str_eq s "light"

-- The effect of the first render; the argument is whether the system prefers dark.
unfoldable pub mount : Bool → Theme → Theme
mount prefers_dark t =
    let dark = if is_light t.stored then false else prefers_dark in
    record t { is_dark = dark; class_dark = dark }

unfoldable pub toggle : Theme → Theme
toggle t =
    let new_dark = not t.is_dark in
    record {
      is_dark = new_dark;
      class_dark = new_dark;
      stored = some (if new_dark then "dark" else "light");
    }

-- What happens to the page: it is loaded, or the button is pressed.
pub data Visit : Type 0 where
  reload : Bool → Visit
  press : Visit

abbrev pub step : Visit → Theme → Theme
step (reload prefers_dark) = mount prefers_dark
step press = toggle

-- The button and the document agree, and a stored `light` is obeyed.
abbrev pub IsConsistent : Theme → Type 0
IsConsistent t = (t.class_dark ≡ t.is_dark) × (is_light t.stored ≡ true → t.is_dark ≡ false)

-- Whatever the page and the storage held before: after a load or a press the button and the document
-- agree, and a stored `light` is obeyed.
pub step-IsConsistent : (v : Visit) (t : Theme) → IsConsistent (step v t)
unfolding mount toggle
step-IsConsistent (reload p) t = (refl, λ h. rw h refl)
step-IsConsistent press t = elim (Bool-cases t.is_dark) [
  | inl dark ↦ (refl, λ h. rw dark refl)
  | inr light ↦ (refl, λ h. absurd (let e = rw light at h in ground arith))
]

-- A press and then a load: the page is dark exactly if it was light before the press and the system
-- prefers dark, so what the press chose counts only where it is `light`.
pub mount-toggle :
    (prefers_dark : Bool) (t : Theme)
    → (mount prefers_dark (toggle t)).is_dark ≡ (not t.is_dark && prefers_dark)
unfolding mount toggle
mount-toggle p t = elim (Bool-cases t.is_dark) [
  | inl dark ↦ rw dark refl
  | inr light ↦ rw light refl
]
