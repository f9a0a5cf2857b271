-- ===== src/Dashboard/Filters.antt =====
-- ui-dashboard/components/FiltersDrilldown.tsx: the chain of menus. The requests for the options and
-- the rendering are left out.
pub mod Chain
pub mod Keys
pub mod Menus
pub mod Labels
pub mod Offers
mod Tests
use walmart_assignment.Base.{
  ◌≡◌, String, ℕ, zero, suc, Bool, false, not, ◌&&◌, ◌||◌, ◌==◌, Option, none, some, List, [], ◌∷◌,
  take, drop, length, get_elem?, filter_by, if◌then◌else◌,
}
use walmart_assignment.Base.Text.{str_eq, is_truthy, join}
use walmart_assignment.Base.Split.{split_at}

-- `Record<string, string>`: the newest entry of a key counts, and `none` stands for a deleted one.
abbrev pub Selection : Type 0
Selection = List (String × Option String)

abbrev pub selected : String → Selection → Option String
selected key [] = none
selected key ((k, v) ∷ rest) = if str_eq k key then v else selected key rest

-- The loop that deletes the names of the later categories.
abbrev pub delete_all : List String → Selection → Selection
delete_all [] sel = sel
delete_all (name ∷ names) sel = delete_all names ((name, none) ∷ sel)

-- The entry of the category itself, and then the later ones; there is no entry to write without a
-- category.
abbrev select_at : Option String → List String → String → Selection → Option Selection
select_at none later value sel = none
select_at (some name) later value sel = some (delete_all later ((name, some value) ∷ sel))

-- `handleSelect`; `none` is the error that `categories[idx].name` throws out of range.
unfoldable pub handle_select : List String → ℕ → String → Selection → Option Selection
handle_select names idx value sel = select_at (get_elem? names idx) (drop (suc idx) names) value sel

-- `.map((c) => selected[c.name]).filter(Boolean)`.
abbrev pub keep : Option String → List String → List String
keep none vs = vs
keep (some v) vs = if is_truthy v then v ∷ vs else vs

abbrev pub chosen : List String → Selection → List String
chosen [] sel = []
chosen (name ∷ names) sel = keep (selected name sel) (chosen names sel)

abbrev pub parent_selection : List String → ℕ → Selection → List String
parent_selection names idx sel = chosen (take idx names) sel

-- Whether the options of a category are asked for.
unfoldable pub enabled : List String → ℕ → Selection → Bool
enabled names idx sel = idx == 0 || length (parent_selection names idx sel) == idx

-- `selected[cat.name] || cat.name`, on the button of a category.
abbrev pub if_empty : Option String → String → String
if_empty none name = name
if_empty (some v) name = if is_truthy v then v else name

unfoldable pub label : String → Selection → String
label name sel = if_empty (selected name sel) name

-- `joined`, the text that is debounced.
unfoldable pub joined : List String → ℕ → Selection → String
joined names idx sel = join "|" (parent_selection names idx sel)

-- `debouncedArr`, which the request for the options gets.
unfoldable pub debounced_arr : String → List String
debounced_arr key = if is_truthy key then split_at b'|' key else []

-- `openState[idx] || false`, and `setOpenState((s) => ({ ...s, [idx]: o }))`.
abbrev pub is_open : ℕ → List (ℕ × Bool) → Bool
is_open idx [] = false
is_open idx ((k, o) ∷ rest) = if k == idx then o else is_open idx rest

abbrev pub set_open : ℕ → Bool → List (ℕ × Bool) → List (ℕ × Bool)
set_open idx o s = (idx, o) ∷ s

-- A click on an option: the choice is made and the menu closes.
abbrev pub close_menu :
    ℕ → List (ℕ × Bool) → Option Selection → Option (Selection × List (ℕ × Bool))
close_menu idx opened none = none
close_menu idx opened (some next) = some (next, set_open idx false opened)

unfoldable pub on_select :
    List String → ℕ → String → Selection → List (ℕ × Bool) → Option (Selection × List (ℕ × Bool))
on_select names idx value sel opened = close_menu idx opened (handle_select names idx value sel)
