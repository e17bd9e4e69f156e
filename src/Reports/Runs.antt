-- ===== src/Reports/Runs.antt =====
-- The runs that a pass over the schedules writes.
use iskan.Prelude.{
  ℕ, zero, suc, ◌≡◌, refl, sym, subst, inl, inr, ◌+◌, ◌<◌, ◌≤◌, ◌==◌, ==_iff, ==_refl, Bool, true,
  false, List, [], ◌∷◌, select, length, count_where, update_where, All, All-map, arith, Bool-cases,
  if◌then◌else◌,
}
use iskan.Reports.Queue.{
  Schedule, running, sent, Run, Db, Attempt, delivered, raised, is_due, in_order, limit,
  started_run, finished_run, is_delivered, start_run, finish_run, advance_schedule,
  process_schedule, process_each, taken, process_report_schedules,
}

-- what a run's status is
abbrev pub is_sent : Run → Bool
is_sent r = elim r.status [ sent key ↦ true | other ↦ false ]

abbrev pub is_running : Run → Bool
is_running r = elim r.status [ running ↦ true | other ↦ false ]

-- a run of the schedule
abbrev pub is_run_of : ℕ → Run → Bool
is_run_of id r = r.schedule_id == id

-- The runs have ids that were drawn.
abbrev pub IsDrawn : Db → Type 0
IsDrawn db = All (λ r. r.id < db.next_run_id) db.runs

-- an update of a row that is not there
update_where-free :
    (n : ℕ) (f : Run → Run) (rs : List Run)
    → All (λ r. r.id < n) rs
    → update_where (λ r. r.id == n) f rs ≡ rs
update_where-free n f [] h = refl
update_where-free n f (r ∷ rs) (less, h) = elim (Bool-cases (r.id == n)) [
  | inl same ↦ absurd (omega (arith, less, (==_iff r.id n).0 same))
  | inr other ↦ ground (arith, other, update_where-free n f rs h)
]

-- the run that is updated is the one that was inserted
process_schedule-runs :
    (attempt : Schedule → Attempt) (now : ℕ) (s : Schedule) (db : Db)
    → IsDrawn db
    → (process_schedule attempt now s db).runs
      ≡ finished_run now (attempt s) (started_run db.next_run_id s) ∷ db.runs
unfolding process_schedule start_run finish_run advance_schedule
process_schedule-runs attempt now s db drawn = ground (
  arith,
  ==_refl db.next_run_id,
  update_where-free db.next_run_id (finished_run now (attempt s)) db.runs drawn,
)

process_schedule-next_run_id :
    (attempt : Schedule → Attempt) (now : ℕ) (s : Schedule) (db : Db)
    → (process_schedule attempt now s db).next_run_id ≡ db.next_run_id + 1
unfolding process_schedule start_run finish_run advance_schedule
process_schedule-next_run_id attempt now s db = refl

process_schedule-IsDrawn :
    (attempt : Schedule → Attempt) (now : ℕ) (s : Schedule) (db : Db)
    → IsDrawn db
    → IsDrawn (process_schedule attempt now s db)
process_schedule-IsDrawn attempt now s db drawn =
    subst (λ rs. All (λ r. r.id < (process_schedule attempt now s db).next_run_id) rs)
      (sym (process_schedule-runs attempt now s db drawn))
      (subst
        (λ n.
          All (λ r. r.id < n)
            (finished_run now (attempt s) (started_run db.next_run_id s) ∷ db.runs))
        (sym (process_schedule-next_run_id attempt now s db))
        (
          omega arith,
          All-map (λ r. r.id < db.next_run_id) (λ r. r.id < db.next_run_id + 1) db.runs
              (λ r h. omega (arith, h)) drawn,
        ))

finished :
    (now n : ℕ) (s : Schedule) (a : Attempt)
    → is_sent (finished_run now a (started_run n s)) ≡ is_delivered a
finished now n s (delivered key) = refl
finished now n s (raised error) = refl

ended :
    (now n : ℕ) (s : Schedule) (a : Attempt)
    → is_running (finished_run now a (started_run n s)) ≡ false
ended now n s (delivered key) = refl
ended now n s (raised error) = refl

-- The runs that were there, and one that has ended for each of the schedules.
pub record HasRuns (attempt : Schedule → Attempt) (ss : List Schedule) (processed : ℕ)
    (before after : List Run) : Type 0 where
  pub all : length after ≡ length before + length ss
  pub each :
      (id : ℕ)
      → count_where (is_run_of id) after
        ≡ count_where (is_run_of id) before + count_where (λ s. s.id == id) ss
  pub sents : count_where is_sent after ≡ count_where is_sent before + processed
  pub delivered_ones : processed ≡ count_where (λ s. is_delivered (attempt s)) ss
  pub runnings : count_where is_running after ≡ count_where is_running before

HasRuns-next :
    (attempt : Schedule → Attempt) (now n : ℕ) (s : Schedule) (ss : List Schedule) (processed : ℕ)
    (before after : List Run)
    → HasRuns attempt ss processed (finished_run now (attempt s) (started_run n s) ∷ before) after
    → HasRuns attempt
        (s ∷ ss)
        ((if is_delivered (attempt s) then 1 else 0) + processed)
        before
        after
HasRuns-next attempt now n s ss processed before after h = record {
  all = omega (arith, h.all);
  each = λ id. ground (arith, h.each id);
  sents = ground (arith, h.sents, finished now n s (attempt s));
  delivered_ones = ground (arith, h.delivered_ones);
  runnings = ground (arith, h.runnings, ended now n s (attempt s));
}

pub process_each-HasRuns :
    (attempt : Schedule → Attempt) (now : ℕ) (ss : List Schedule) (db : Db)
    → IsDrawn db
    → HasRuns attempt ss
        (process_each attempt now ss db).0
        db.runs
        (process_each attempt now ss db).1.runs
unfolding process_each
process_each-HasRuns attempt now [] db drawn = record {
  all = omega arith;
  each = λ id. omega arith;
  sents = omega arith;
  delivered_ones = refl;
  runnings = refl;
}
process_each-HasRuns attempt now (s ∷ ss) db drawn =
    let db' = process_schedule attempt now s db in
    HasRuns-next attempt now db.next_run_id s ss (process_each attempt now ss db').0 db.runs
      (process_each attempt now ss db').1.runs
      (subst
        (λ rs.
          HasRuns attempt ss (process_each attempt now ss db').0 rs
            (process_each attempt now ss db').1.runs)
        (process_schedule-runs attempt now s db drawn)
        (process_each-HasRuns attempt now ss db' (process_schedule-IsDrawn attempt now s db drawn)))

limit-length : (n : ℕ) (rs : List Schedule) → length (limit n rs) ≤ n
limit-length zero rs = omega arith
limit-length (suc n) [] = omega arith
limit-length (suc n) (r ∷ rs) = omega (arith, limit-length n rs)

taken-length : (now : ℕ) (db : Db) → length (taken now db) ≤ 10
unfolding taken
taken-length now db = limit-length 10 (in_order (select (is_due now) db.schedules))

-- If the ids of the runs were drawn before, a pass that is not cancelled writes a run for each
-- schedule that it takes, at most ten: of any id as many as schedules of this id were taken. It
-- answers how many attempts delivered, as many runs more are sent, and it leaves no run of its own
-- running, whatever was raised.
pub process_report_schedules-HasRuns :
    (attempt : Schedule → Attempt) (now : ℕ) (db : Db)
    → IsDrawn db
    → (length (taken now db) ≤ 10)
      × HasRuns attempt
          (taken now db)
          (process_report_schedules attempt now db).0
          db.runs
          (process_report_schedules attempt now db).1.runs
unfolding process_report_schedules
process_report_schedules-HasRuns attempt now db drawn =
    (taken-length now db, process_each-HasRuns attempt now (taken now db) db drawn)
