-- ===== src/Reports.antt =====
-- report_jobs.py: the schedules of the reports. `Cron` reads the expressions, `Next` is about the
-- minute that `next_cron_after` finds, `Queue` is the worker's pass over the schedules
-- `Due` is about
-- the schedules that it leaves `Runs` about the runs that it writes and `Cancelled`
-- about a pass that is cancelled.
pub mod Cron
pub mod Next
pub mod Queue
pub mod Due
pub mod Runs
pub mod Cancelled
