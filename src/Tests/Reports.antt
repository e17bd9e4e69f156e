-- ===== src/Tests/Reports.antt =====
-- The theorems on report schedules at concrete inputs, and test_report_schedule.py.
use iskan.Prelude.{
  ℕ, ◌≡◌, refl, ◌+◌, ◌*◌, ◌<◌, ◌≤◌, codes, true, false, [], ◌∷◌, Option, none, some, All, arith,
  length,
}
use iskan.Http.Errors.{value_error, ok, err}
use iskan.Security.Crypto.{Text}
use iskan.Reports.Cron.{cron_field_matches, cron_matches, next_cron_after}
use iskan.Reports.Next.{Ends, next_cron_after-Ends}
use iskan.Reports.Queue.{
  Schedule, Db, Attempt, raised, is_due, next_run, process_report_schedules, taken,
}
use iskan.Reports.Due.{next_run-within, process_report_schedules-is_due}
use iskan.Reports.Runs.{HasRuns, process_report_schedules-HasRuns}

-- the minutes of 2026-08-24 08:00, 2026-08-25 08:00 and 2026-09-01 09:00
weekly : cron_matches (codes "0 8 * * 1") (20689 * 1440 + 480) ≡ ok true
unfolding cron_matches cron_field_matches
weekly = refl

not_weekly : cron_matches (codes "0 8 * * 1") (20690 * 1440 + 480) ≡ ok false
unfolding cron_matches cron_field_matches
not_weekly = refl

monthly : cron_matches (codes "0 9 1 * *") (20697 * 1440 + 540) ≡ ok true
unfolding cron_matches cron_field_matches
monthly = refl

-- a step with a range as its base is not read
step_of_range :
    cron_field_matches (codes "1-5/2") 4
    ≡ err (value_error "invalid literal for int() with base 10")
unfolding cron_field_matches
step_of_range = refl

abbrev every_minute : Text
every_minute = codes "* * * * *"

next_cron_after-Ends_example : Ends every_minute 11 532811 (next_cron_after every_minute 600)
next_cron_after-Ends_example = next_cron_after-Ends every_minute 600

next_run-within_example :
    (600 < next_run 600 every_minute) × (next_run 600 every_minute ≤ 600 + 370 * 86400)
next_run-within_example = next_run-within 600 every_minute

abbrev schedule : ℕ → Option ℕ → Schedule
schedule id next = record {
  id = id;
  user_id = 1;
  report_code = "tabel";
  cron = every_minute;
  enabled = true;
  last_run_at = none;
  next_run_at = next;
}

abbrev db : Db
db = record {
  schedules = schedule 1 none ∷ schedule 2 (some 500) ∷ schedule 3 (some 700) ∷ [];
  runs = [];
  next_run_id = 20;
}

abbrev attempt : Schedule → Attempt
attempt s = raised "SMTP_HOST не настроен"

process_report_schedules-is_due_example :
    All (λ r. is_due 600 r ≡ false) (process_report_schedules attempt 600 db).1.schedules
process_report_schedules-is_due_example =
    process_report_schedules-is_due attempt 600 db (omega arith)

process_report_schedules-HasRuns_example :
    (length (taken 600 db) ≤ 10)
    × HasRuns attempt
        (taken 600 db)
        (process_report_schedules attempt 600 db).0
        []
        (process_report_schedules attempt 600 db).1.runs
process_report_schedules-HasRuns_example = process_report_schedules-HasRuns attempt 600 db tt
