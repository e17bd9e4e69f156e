-- ===== src/Reclassification.antt =====
-- reclassification_jobs.py, and `start_reclassification` of admin.py: the stored events are
-- classified again by the rules of now, in batches. The instants at which a job asks the clock are
-- one instant, and the tables do not refuse a statement. `Batches` is about the loop.
pub mod Batches
pub mod Loop
pub mod Jobs
use iskan.Prelude.{
  ℕ, zero, suc, ◌+◌, ◌*◌, ◌==◌, leb, ltb, String, Bool, true, false, not, ◌&&◌, ◌||◌, List, [], ◌∷◌,
  Option, none, some, ⊤, find?, select, update_where, count_where, length, is_some, any,
  if◌then◌else◌,
}
use iskan.Http.{Action, pure, gets, modify, raise_if, ◌>>=◌, ◌>>◌}
use iskan.Http.Errors.{Error, http, Result, ok, err}
use iskan.Rules.{TextOps, Classifiable, ClassificationRule, ClassificationResult, classify_result}

-- a row of `activity_events`, with what it is classified by
pub record Event : Type 0 where
  pub id : ℕ
  pub ts_start : ℕ
  pub content : Classifiable
  pub category_id : Option ℕ

pub data JobStatus : Type 0 where
  queued : JobStatus
  running : JobStatus
  completed : JobStatus

pub record Job : Type 0 where
  pub id : ℕ
  pub days : ℕ
  pub status : JobStatus
  pub created_at : ℕ
  pub total_events : ℕ
  pub processed_events : ℕ

-- the events in the order of their ids; the enabled rules with their categories
pub record Db : Type 0 where
  pub events : List Event
  pub rules : List ClassificationRule
  pub jobs : List Job
  pub audit_log : List (String × ℕ)

-- `audit`, without the details
abbrev pub audit : String → ℕ → Action Db ⊤
audit action id = modify (λ db. record db { audit_log = (action, id) ∷ db.audit_log })

abbrev pub is_active : Job → Bool
is_active j = elim j.status [ queued ↦ true | running ↦ true | completed ↦ false ]

abbrev pub is_queued : Job → Bool
is_queued j = elim j.status [ queued ↦ true | other ↦ false ]

abbrev pub new_job : ℕ → ℕ → ℕ → Job
new_job id days now = record {
  id = id;
  days = days;
  status = queued;
  created_at = now;
  total_events = 0;
  processed_events = 0;
}

-- `start_reclassification`
unfoldable pub start_reclassification : ℕ → ℕ → ℕ → Action Db ⊤
start_reclassification days fresh now = do
  raise_if (ltb days 1 || ltb 365 days) (http 422 "Период должен быть от 1 до 365 дней")
  jobs ← gets (λ db. db.jobs)
  raise_if (any is_active jobs) (http 409 "Пересчёт уже выполняется")
  modify (λ db. record db { jobs = new_job fresh days now ∷ db.jobs })
  audit "reclassification_started" fresh

-- `WHERE status='queued' ORDER BY created_at LIMIT 1`
abbrev pub oldest : List Job → Option Job
oldest [] = none
oldest (j ∷ js) =
    let rest = oldest js in
    elim rest [
      | none ↦ if is_queued j then some j else none
      | some r ↦ if is_queued j && leb j.created_at r.created_at then some j else some r
    ]

-- `ts_start>=now()-($1*interval '1 day')`
abbrev pub in_range : ℕ → ℕ → Event → Bool
in_range now days e = leb now (e.ts_start + days * 86400)

-- `LIMIT n`
unfoldable pub limit : ℕ → List Event → List Event
limit zero es = []
limit (suc n) [] = []
limit (suc n) (e ∷ es) = e ∷ limit n es

-- `rows[-1]["id"]`
abbrev pub last_id : ℕ → List Event → ℕ
last_id last [] = last
last_id last (e ∷ es) = last_id e.id es

abbrev pub with_result : ClassificationResult → Event → Event
with_result r e = record e {
  content = record e.content { state = r.state };
  category_id = r.category_id;
}

module _ (t : TextOps) (rules : List ClassificationRule) where
  -- what an update sets: the result for the row that was read
  abbrev pub classified : Event → Event → Event
  classified row e = with_result (classify_result t row.content rules) e

  -- `executemany("UPDATE activity_events … WHERE id=$1", updates)`
  unfoldable pub write_rows : List Event → List Event → List Event
  write_rows [] es = es
  write_rows (row ∷ rows) es =
      write_rows rows (update_where (λ e. e.id == row.id) (classified row) es)

  -- `while True:`, for as many rounds; the events afterwards and how many were processed, or
  -- `none` if the rounds are used up
  unfoldable pub run_batches : ℕ → ℕ → (Event → Bool) → ℕ → ℕ → List Event → Option (List Event × ℕ)
  run_batches zero size test last processed es = none
  run_batches (suc rounds) size test last processed es =
      let rows = limit size (select (λ e. test e && ltb last e.id) es) in
      let rest =
        run_batches rounds size test (last_id last rows) (processed + length rows)
          (write_rows rows es) in
      elim rows [ [] ↦ some (es, processed) | r ∷ rs ↦ rest ]

-- the `LIMIT` of a batch
unfoldable pub batch_size : ℕ
batch_size = 5000

abbrev pub finish : ℕ → ℕ → Job → Job
finish total processed j = record j {
  status = completed;
  total_events = total;
  processed_events = processed;
}

abbrev pub stored_batches : ℕ → ℕ → Option (List Event × ℕ) → Db → Option Db
stored_batches id total none db = none
stored_batches id total (some (es, processed)) db = some (record db {
  events = es;
  jobs = update_where (λ j. j.id == id) (finish total processed) db.jobs;
})

-- `run_next_reclassification`: whether there was a job, and the tables, if the rounds are enough
unfoldable pub run_job : TextOps → ℕ → ℕ → Job → Db → Option Db
run_job t rounds now job db =
    stored_batches job.id (count_where (in_range now job.days) db.events)
      (run_batches t db.rules rounds batch_size (in_range now job.days) 0 0 db.events) db

unfoldable pub run_next_reclassification : TextOps → ℕ → ℕ → Db → Option Db
run_next_reclassification t rounds now db = elim (oldest db.jobs) [
  | none ↦ some db
  | some job ↦ run_job t rounds now job (record db {
    jobs = update_where (λ j. j.id == job.id) (λ j. record j { status = running }) db.jobs;
  })
]
