-- ===== src/Shell/Calendar/Days.antt =====
-- The days of the week in order, and the columns of the calendar of kernel/main.c.
use bird_os.Prelude.{
  ℕ, zero, suc, ◌+◌, ◌-◌, ◌/◌, ◌%◌, ◌≤◌, ◌≡◌, refl, sym, ap, ap₂, ◌∙◌, true, inl, inr, ◌&&◌, ◌||◌,
  not, List, [], ◌∷◌, ◌++◌, ◌==◌, ltb, if◌then◌else◌, Bool-cases, replicate, arith,
}
use bird_os.Shell.Calendar.{Piece, blank, day, new_line}
unfoldable use bird_os.Shell.Calendar.{
  is_leap, max_day, sum_loop, total_day, weekday, day_loop, display_month,
}

-- The day after, as a year, a month and a day.
abbrev pub next_day : ℕ → ℕ → ℕ → ℕ × ℕ × ℕ
next_day y m d =
    if ltb d (max_day y m) then (y, m, d + 1) else if ltb m 12 then (y, m + 1, 1) else (y + 1, 1, 1)

abbrev pub weekday_of : ℕ × ℕ × ℕ → ℕ
weekday_of (y, m, d) = weekday y m d

sum_loop_snoc : (k y i sum : ℕ) → sum_loop (suc k) y i sum ≡ sum_loop k y i sum + max_day y (i + k)
unfolding sum_loop
sum_loop_snoc zero y i sum = ap (λ j. sum + max_day y j) (omega arith)
sum_loop_snoc (suc k) y i sum =
    sum_loop_snoc k y (i + 1) (sum + max_day y i)
    ∙ ap (λ j. sum_loop k y (i + 1) (sum + max_day y i) + max_day y j) (omega arith)

year_days : (y : ℕ) → total_day y 12 31 ≡ 365 + is_leap y
unfolding total_day sum_loop max_day is_leap
year_days y = elim (Bool-cases ((y % 400 == 0) || ((y % 4 == 0) && not (y % 100 == 0)))) [
  | inl e ↦ rw e refl
  | inr e ↦ rw e refl
]

month_end : (y m : ℕ) → 1 ≤ m → total_day y (m + 1) 1 ≡ total_day y m (max_day y m) + 1
unfolding total_day
month_end y m h =
    let e : m + 1 - 1 ≡ suc (m - 1) = omega arith in
    let f : 1 + (m - 1) ≡ m = omega arith in
    ap (λ k. sum_loop k y 1 0 + 1) e
    ∙ ap (λ t. t + 1)
        (sum_loop_snoc (m - 1) y 1 0 ∙ ap (λ j. sum_loop (m - 1) y 1 0 + max_day y j) f)

december : (y : ℕ) → max_day y 12 ≡ 31
unfolding max_day
december y = ground arith

leap_years :
    (y : ℕ)
    → 1 ≤ y
    → y + y / 4 - y / 100 + y / 400
      ≡ (y - 1) + (y - 1) / 4 - (y - 1) / 100 + (y - 1) / 400 + 1 + is_leap y
unfolding is_leap
leap_years y h = ground arith

weekday_succ :
    (y m d m' d' : ℕ)
    → total_day y m' d' ≡ total_day y m d + 1
    → weekday y m' d' ≡ (weekday y m d + 1) % 7
unfolding weekday
weekday_succ y m d m' d' e = omega (arith, e)

day_succ : (y m d : ℕ) → total_day y m (d + 1) ≡ total_day y m d + 1
unfolding total_day
day_succ y m d = omega arith

first_day : (y : ℕ) → total_day y 1 1 ≡ 1
unfolding total_day sum_loop
first_day y = refl

new_year : (y : ℕ) → 1 ≤ y → weekday (y + 1) 1 1 ≡ (weekday y 12 31 + 1) % 7
unfolding weekday
new_year y h =
    let e : y + 1 - 1 ≡ y = omega arith in
    rw e (omega (arith, leap_years y h, year_days y, first_day (y + 1)))

module _ (y m d : ℕ) where
  -- For a date from year 1 on, the day after falls on the next day of the week, also at the end of
  -- a month or a year.
  weekday-next_day :
      1 ≤ y
      → 1 ≤ m
      → m ≤ 12
      → 1 ≤ d
      → d ≤ max_day y m
      → weekday_of (next_day y m d) ≡ (weekday y m d + 1) % 7
  weekday-next_day hy lm um ld ud = elim (Bool-cases (ltb d (max_day y m))) [
    | inl e ↦ rw e (same_month e)
    | inr e ↦ elim (Bool-cases (ltb m 12)) [
      | inl f ↦ rw (e, f) (next_month (ground (arith, e)) f)
      | inr f ↦ rw (e, f) (next_year (ground (arith, e)) (ground (arith, f)))
    ]
  ]
    where
      same_month : ltb d (max_day y m) ≡ true → weekday y m (d + 1) ≡ (weekday y m d + 1) % 7
      same_month e = weekday_succ y m d m (d + 1) (day_succ y m d)

      next_month : d ≡ max_day y m → ltb m 12 ≡ true → weekday y (m + 1) 1 ≡ (weekday y m d + 1) % 7
      next_month e f =
          weekday_succ y m d (m + 1) 1 (month_end y m lm ∙ ap (λ x. total_day y m x + 1) (sym e))

      next_year : d ≡ max_day y m → m ≡ 12 → weekday (y + 1) 1 1 ≡ (weekday y m d + 1) % 7
      next_year e f =
          new_year y hy
          ∙ ap₂ (λ a b. (weekday y a b + 1) % 7) (sym f) (sym (e ∙ ap (max_day y) f ∙ december y))

-- The line of a day that ends it when the day is a Saturday.
abbrev pub row : ℕ → ℕ → ℕ → List Piece
row y m j = if weekday y m j == 6 then day j ∷ new_line ∷ [] else day j ∷ []

abbrev pub rows : ℕ → ℕ → ℕ → ℕ → List Piece
rows zero j y m = []
rows (suc k) j y m = row y m j ++ rows k (j + 1) y m

day_loop-rows : (k j i y m : ℕ) → i % 7 ≡ weekday y m j → day_loop k j i ≡ rows k j y m
unfolding day_loop
day_loop-rows zero j i y m e = refl
day_loop-rows (suc k) j i y m e =
    let rest : day_loop k (j + 1) (i + 1) ≡ rows k (j + 1) y m =
      day_loop-rows k (j + 1) (i + 1) y m
        (omega (arith, e, weekday_succ y m j m (j + 1) (day_succ y m j))) in
    elim (Bool-cases (weekday y m j == 6)) [
      | inl f ↦ rw (e, f) (ap (λ t. day j ∷ new_line ∷ t) rest)
      | inr f ↦ rw (e, f) (ap (λ t. day j ∷ t) rest)
    ]

weekday_mod : (y m d : ℕ) → weekday y m d % 7 ≡ weekday y m d
unfolding weekday
weekday_mod y m d = omega arith

-- Below the heading, `display_month` prints as many blank places as there are days of the week
-- before the first of the month, and then every day of the month in order, with a new line after
-- exactly the Saturdays, and a new line at the end.
display_month-rows :
    (y m : ℕ)
    → display_month y m
      ≡ replicate (weekday y m 1) blank ++ rows (max_day y m) 1 y m ++ (new_line ∷ [])
unfolding display_month
display_month-rows y m =
    ap (λ t. replicate (weekday y m 1) blank ++ t ++ (new_line ∷ []))
      (day_loop-rows (max_day y m) 1 (weekday y m 1) y m (weekday_mod y m 1))
