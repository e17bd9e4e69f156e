-- ===== src/Tests/Reclassification.antt =====
-- The theorems on reclassification at concrete inputs.
use iskan.Prelude.{ℕ, ◌≡◌, refl, [], ◌∷◌, none, some, count_where, arith}
use iskan.Http.Errors.{http, ok, err}
use iskan.Reclassification.{
  Event, queued, Job, Db, is_active, start_reclassification, run_next_reclassification,
}
use iskan.Reclassification.Jobs.{
  after_job, run_next_reclassification-ends, run_next_reclassification-start_reclassification,
}
use iskan.Tests.Rules.{ops, editing, rules}

abbrev event : ℕ → ℕ → Event
event id start = record { id = id; ts_start = start; content = editing; category_id = none }

abbrev job : Job
job = record {
  id = 2;
  days = 1;
  status = queued;
  created_at = 50;
  total_events = 0;
  processed_events = 0;
}

-- the first event is too old
abbrev db : Db
db = record {
  events = event 3 10 ∷ event 5 90000 ∷ event 9 95000 ∷ [];
  rules = rules;
  jobs = job ∷ [];
  audit_log = [];
}

run_next_reclassification-ends_example :
    run_next_reclassification ops 3 100000 db ≡ some (after_job ops 100000 job db)
run_next_reclassification-ends_example =
    run_next_reclassification-ends ops 3 100000 job db (omega arith) (omega arith) (omega arith)
      refl

run_next_reclassification-start_reclassification_example :
    (start_reclassification 7 4 100000 db ≡ (err (http 409 "Пересчёт уже выполняется"), db))
    × ((db' : Db) × (run_next_reclassification ops 3 100000 db ≡ some db')
        × ((start_reclassification 7 4 100000 db').0 ≡ ok tt)
        × (count_where is_active (start_reclassification 7 4 100000 db').1.jobs ≡ 1))
run_next_reclassification-start_reclassification_example =
    run_next_reclassification-start_reclassification ops 3 100000 job db 7 4 (omega arith)
      (omega arith) (omega arith) refl (omega arith) (omega arith) (omega arith)
