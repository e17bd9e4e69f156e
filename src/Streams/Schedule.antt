-- ===== src/Streams/Schedule.antt =====
-- stream_policy_jobs.py: `within_work_schedule`. Local time is the second of the employee's wall
-- clock since 1970-01-01, which was a Thursday.
use iskan.Prelude.{
  ℕ, ◌+◌, ◌-◌, ◌*◌, ◌/◌, ◌%◌, ◌==◌, leb, any, Bool, true, false, ◌&&◌, ◌||◌, List, Option, none,
  some, if◌then◌else◌,
}
use iskan.Streams.{WorkSchedule}

abbrev pub isoweekday : ℕ → ℕ
isoweekday day = (day + 3) % 7 + 1

-- the shift that starts on the day; one that ends at or before its start ends on the next day
abbrev pub shift_end : ℕ → ℕ → ℕ → ℕ
shift_end day start end = day * 86400 + (if leb end start then end + 86400 else end)

-- the test of the loop for one of its two days; `start - grace <= local`, the other way round
unfoldable pub in_shift : List ℕ → ℕ → ℕ → ℕ → ℕ → ℕ → Bool
in_shift weekdays start end grace day local =
    any (λ w. w == isoweekday day) weekdays
    && leb (day * 86400 + start) (local + grace)
    && leb local (shift_end day start end + grace)

-- `within_work_schedule`
unfoldable pub within_work_schedule : Option WorkSchedule → ℕ → ℕ → Bool → Bool
within_work_schedule none local grace_minutes holiday = true
within_work_schedule (some schedule) local grace_minutes holiday =
    if holiday then false else (elim schedule.rules [
      | none ↦ true
      | some (weekdays, start, end) ↦
          let day = local / 86400 in
          in_shift weekdays start end (grace_minutes * 60) day local
          || in_shift weekdays start end (grace_minutes * 60) (day - 1) local
    ])
