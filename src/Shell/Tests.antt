-- ===== src/Shell/Tests.antt =====
-- The theorems on the calendar at concrete dates, and runs of it.
use bird_os.Prelude.{◌≡◌, refl}
unfoldable use bird_os.Shell.Calendar.{weekday, total_day, sum_loop, max_day, is_leap}

-- 2000-01-01 was a Saturday.
millennium : weekday 2000 1 1 ≡ 6
unfolding weekday total_day sum_loop
millennium = refl

thirty_one : max_day 2000 12 ≡ 31
unfolding max_day is_leap
thirty_one = refl
