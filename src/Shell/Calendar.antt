-- ===== src/Shell/Calendar.antt =====
-- The calendar of kernel/main.c. A year, a month and a day are numbers from 1 on; below a year of
-- 10^9 no `int` there overflows. The rows that `display_month` prints are a list of pieces.
pub mod Days
use bird_os.Prelude.{
  ℕ, zero, suc, ◌+◌, ◌-◌, ◌/◌, ◌%◌, ◌≤◌, ◌<◌, ◌≡◌, Bool, ◌&&◌, ◌||◌, not, List, [], ◌∷◌, ◌++◌, ◌==◌,
  leb, ltb, if◌then◌else◌, get_or, set, replicate,
}

unfoldable pub is_leap : ℕ → ℕ
is_leap year = if (year % 400 == 0) || ((year % 4 == 0) && not (year % 100 == 0)) then 1 else 0

abbrev pub month_days : List ℕ
month_days = 31 ∷ 28 ∷ 31 ∷ 30 ∷ 31 ∷ 30 ∷ 31 ∷ 31 ∷ 30 ∷ 31 ∷ 30 ∷ 31 ∷ []

unfoldable pub max_day : ℕ → ℕ → ℕ
max_day year month =
    let days : List ℕ = if is_leap year == 1 then set month_days 1 29 else month_days in
    get_or days (month - 1) 0

-- The sum of `k` months from month `i` on.
unfoldable pub sum_loop : ℕ → ℕ → ℕ → ℕ → ℕ
sum_loop zero year i sum = sum
sum_loop (suc k) year i sum = sum_loop k year (i + 1) (sum + max_day year i)

unfoldable pub total_day : ℕ → ℕ → ℕ → ℕ
total_day year month day = sum_loop (month - 1) year 1 0 + day

-- From 0, Sunday, to 6, Saturday
unfoldable pub weekday : ℕ → ℕ → ℕ → ℕ
weekday year month day =
    ((year - 1) + (year - 1) / 4 - (year - 1) / 100 + (year - 1) / 400 + total_day year month day)
    % 7

-- Seven blanks; a day in seven columns; the end of a line.
pub data Piece : Type 0 where
  blank : Piece
  day : ℕ → Piece
  new_line : Piece

-- The loop over the days in `k` rounds from day `j` on, with the counter `i` of places.
unfoldable pub day_loop : ℕ → ℕ → ℕ → List Piece
day_loop zero j i = []
day_loop (suc k) j i =
    let rest = day_loop k (j + 1) (i + 1) in
    if i % 7 == 6 then day j ∷ new_line ∷ rest else day j ∷ rest

-- What `display_month` prints below its heading.
unfoldable pub display_month : ℕ → ℕ → List Piece
display_month year month =
    let week : ℕ = weekday year month 1 in
    replicate week blank ++ day_loop (max_day year month) 1 week ++ (new_line ∷ [])
