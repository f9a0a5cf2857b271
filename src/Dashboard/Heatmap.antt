-- ===== src/Dashboard/Heatmap.antt =====
-- ui-dashboard/components/SeverityHeatmap.tsx: the grid of days, its colours and its tooltip.
-- The calendar is a parameter. Positions are counted in cells here.
pub mod Render
pub mod Hover
use walmart_assignment.Base.{
  ◌≡◌, refl, String, ℕ, suc, ◌+◌, ◌-◌, ◌≤◌, ◌<◌, Bool, false, Option, none, some, List, [], ◌∷◌,
  ltb, leb, ◌==◌, if◌then◌else◌, All, arith,
}
use walmart_assignment.Base.Int.{ℤ, pos, negsuc, sub_ℕ}

-- The numbers of a day; `none` is `undefined`.
pub record DayData : Type 0 where
  pub date : String
  pub low : Option ℕ
  pub medium : Option ℕ
  pub high : Option ℕ

-- Every comparison with `undefined` is false.
unfoldable pub color_class : Option ℕ → String
color_class none = "fill-red-600 dark:fill-red-400"
color_class (some high) =
    if high == 0
    then "fill-gray-200 dark:fill-gray-700"
    else if leb high 3
    then "fill-red-200 dark:fill-red-800"
    else if leb high 6
    then "fill-red-400 dark:fill-red-600"
    else "fill-red-600 dark:fill-red-400"

-- `day.low + day.medium + day.high > 0`.
unfoldable pub stroke_needed : DayData → Bool
stroke_needed day = elim day.low [
  | none ↦ false
  | some l ↦ elim day.medium [
    | none ↦ false
    | some m ↦ elim day.high [ none ↦ false | some h ↦ ltb 0 (l + m + h) ]
  ]
]

-- The legend below the grid: the least and the greatest number of each class.
pub record Entry : Type 0 where
  pub least : ℕ
  pub greatest : Option ℕ
  pub class : String

abbrev pub legend : List Entry
legend =
    record { least = 0; greatest = some 0; class = "fill-gray-200 dark:fill-gray-700" }
    ∷ record { least = 1; greatest = some 3; class = "fill-red-200 dark:fill-red-800" }
    ∷ record { least = 4; greatest = some 6; class = "fill-red-400 dark:fill-red-600" }
    ∷ record { least = 7; greatest = none; class = "fill-red-600 dark:fill-red-400" }
    ∷ []

pub record Cell : Type 0 where
  pub day : DayData
  pub row : ℕ
  pub col : ℤ

-- `getDay()` of a date, and `differenceInCalendarWeeks(today, date)`.
pub record Calendar : Type 0 where
  pub get_day : String → ℕ
  pub weeks_ago : String → ℤ

module _ (c : Calendar) where
  unfoldable pub cells : List DayData → List Cell
  cells [] = []
  cells (d ∷ ds) = record { day = d; row = c.get_day d.date; col = c.weeks_ago d.date } ∷ cells ds

  abbrev pub max_pos : ℕ → ℤ → ℕ
  max_pos m (pos n) = if leb m n then n else m
  max_pos m (negsuc n) = m

  -- `Math.max(0, ...cells.map(c => c.col))`.
  unfoldable pub max_col : List Cell → ℕ
  max_col [] = 0
  max_col (x ∷ xs) = max_pos (max_col xs) x.col

  -- `maxCol - c.col`, the column in which a cell is drawn.
  abbrev pub column : ℕ → ℤ → ℤ
  column m (pos n) = sub_ℕ m n
  column m (negsuc n) = pos (m + suc n)

  -- The days are not after today, and a week has seven.
  abbrev pub IsPast : List DayData → Type 0
  IsPast = All (λ d. ((n : ℕ) × (c.weeks_ago d.date ≡ pos n)) × (c.get_day d.date < 7))

  -- A cell stands in the grid of `m + 1` columns and seven rows.
  abbrev pub InGrid : ℕ → Cell → Type 0
  InGrid m x = ((n : ℕ) × (column m x.col ≡ pos n) × (n ≤ m)) × (x.row < 7)

  cells-InGrid :
      (m : ℕ) (days : List DayData)
      → IsPast days
      → max_col (cells days) ≤ m
      → All (InGrid m) (cells days)
  unfolding cells max_col
  cells-InGrid m [] past h = tt
  cells-InGrid m (d ∷ ds) (((n, ago), week), past) h =
      let (here, later) = max_split n (max_col (cells ds)) (rw ago at h) in
      (((m - n, rw ago (ground arith), omega arith), week), cells-InGrid m ds past later)
    where
      max_split : (n k : ℕ) → (if leb k n then n else k) ≤ m → (n ≤ m) × (k ≤ m)
      max_split n k e = ground arith

  -- For days that are not after today every cell is drawn inside the grid: in one of the columns 0 to
  -- `maxCol` and one of seven rows.
  pub heatmap-InGrid :
      (days : List DayData) → IsPast days → All (InGrid (max_col (cells days))) (cells days)
  heatmap-InGrid days past = cells-InGrid (max_col (cells days)) days past (omega arith)

-- The entry of the legend whose range holds a number.
abbrev pub Covers : Entry → ℕ → Type 0
Covers e n = (e.least ≤ n) × ((k : ℕ) → e.greatest ≡ some k → n ≤ k)

-- The colours agree with the legend: the class of a number of alerts is that of every entry whose
-- range holds the number.
pub color_class-legend : (n : ℕ) → All (λ e. Covers e n → color_class (some n) ≡ e.class) legend
unfolding color_class
color_class-legend n = (
  (λ h. let b : n ≤ 0 = h.1 0 refl in ground arith),
  (
    (λ h. let b : n ≤ 3 = h.1 3 refl in let a = h.0 in ground arith),
    (
      (λ h. let b : n ≤ 6 = h.1 6 refl in let a = h.0 in ground arith),
      ((λ h. let a = h.0 in ground arith), tt),
    ),
  ),
)
