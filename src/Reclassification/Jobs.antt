-- ===== src/Reclassification/Jobs.antt =====
-- What a job does to the tables, and how many jobs wait or run.
use iskan.Prelude.{
  ℕ, ◌≡◌, refl, sym, ap, ◌∙◌, subst, inl, inr, ◌<◌, ◌≤◌, ◌==◌, leb, any, true, false, ◌&&◌, List,
  [], ◌∷◌, some, ⊤, update_where, count_where, Member, here, there, Bool-cases, Option-cases, arith,
}
use iskan.Http.Errors.{http, Result, ok, err}
use iskan.Rules.{TextOps}
use iskan.Reclassification.{
  running, Job, Db, is_active, is_queued, new_job, start_reclassification, oldest, in_range,
  run_batches, batch_size, finish, run_job, run_next_reclassification,
}
use iskan.Reclassification.Batches.{Above, Ascending, count_where-Above, again, upto-Above}
use iskan.Reclassification.Loop.{run_batches-IsDone}

-- the tables when a job has ended that found so many events
abbrev pub after_job : TextOps → ℕ → Job → Db → Db
after_job t now job db =
    let test = in_range now job.days in
    let n = count_where test db.events in
    record db {
      events = update_where test (again t db.rules) db.events;
      jobs =
          update_where (λ j. j.id == job.id) (finish n n)
            (update_where (λ j. j.id == job.id) (λ j. record j { status = running }) db.jobs);
    }

module _ (t : TextOps) (rounds now : ℕ) (job : Job) (db : Db) where
  batches :
      Ascending db.events
      → Above 0 db.events
      → count_where (in_range now job.days) db.events < rounds
      → run_batches t db.rules rounds batch_size (in_range now job.days) 0 0 db.events
        ≡ some (
          update_where (in_range now job.days) (again t db.rules) db.events,
          count_where (in_range now job.days) db.events,
        )
  unfolding batch_size
  batches up above enough =
      let test = in_range now job.days in
      let counted = count_where-Above test 0 db.events above in
      ap (run_batches t db.rules rounds 5000 test 0 0)
        (sym (upto-Above t db.rules test 0 db.events above))
      ∙ run_batches-IsDone t db.rules test 4999 (λ r e. refl) rounds 0 0 db.events up
          (omega (arith, counted, enough))
      ∙ ap (λ (n : ℕ). some (update_where test (again t db.rules) db.events, n))
          (omega (arith, counted))

  -- The oldest job that waits, if there is one, ends after at most as many rounds as there are
  -- events in its range and one more. It has then classified again, by the rules that are there,
  -- every event of its range and no other, whatever the size of its batches, and counted each once.
  -- The events are listed in the order of their ids, which are not 0.
  pub run_next_reclassification-ends :
      Ascending db.events
      → Above 0 db.events
      → count_where (in_range now job.days) db.events < rounds
      → oldest db.jobs ≡ some job
      → run_next_reclassification t rounds now db ≡ some (after_job t now job db)
  unfolding run_next_reclassification run_job
  run_next_reclassification-ends up above enough found =
      ground (arith, found, batches up above enough)

oldest-queued :
    (js : List Job) (job : Job) → oldest js ≡ some job → Member job js × (is_active job ≡ true)
oldest-queued [] job h = absurd (cc h)
oldest-queued (j ∷ js) job h = elim (Option-cases (oldest js)) [
  | inl alone ↦ elim (Bool-cases (is_queued j)) [
    | inl waits ↦
        let same : j ≡ job = ground (arith, h, alone, waits) in
        (here same, subst (λ x. is_active x ≡ true) same (active j waits))
    | inr other ↦ absurd (ground (arith, h, alone, other))
  ]
  | inr (r, found) ↦ elim (Bool-cases (is_queued j && leb j.created_at r.created_at)) [
    | inl first ↦
        let same : j ≡ job = ground (arith, h, found, first) in
        (here same, subst (λ x. is_active x ≡ true) same (active j (ground (arith, first))))
    | inr later ↦
        let (m, a) = oldest-queued js job (ground (arith, h, found, later)) in (there m, a)
  ]
]
  where
    active : (j : Job) → is_queued j ≡ true → is_active j ≡ true
    active j h = ground (arith, h)

module _ (id n : ℕ) where
  -- the jobs of the id run and are completed
  abbrev ended_jobs : List Job → List Job
  ended_jobs js =
      update_where (λ j. j.id == id) (finish n n)
        (update_where (λ j. j.id == id) (λ j. record j { status = running }) js)

  ended_jobs-le : (js : List Job) → count_where is_active (ended_jobs js) ≤ count_where is_active js
  ended_jobs-le [] = omega arith
  ended_jobs-le (j ∷ js) = ground (arith, ended_jobs-le js)

  ended_jobs-lt :
      (job : Job) (js : List Job)
      → job.id ≡ id
      → Member job js
      → is_active job ≡ true
      → count_where is_active (ended_jobs js) < count_where is_active js
  ended_jobs-lt job [] e m a = elim m [ ]
  ended_jobs-lt job (j ∷ js) e (here same) a = ground (
    arith,
    ended_jobs-le js,
    subst (λ x. is_active x ≡ true) (sym same) a,
    ap (λ (x : Job). x.id) same,
    e,
  )
  ended_jobs-lt job (j ∷ js) e (there m) a = ground (arith, ended_jobs-lt job js e m a)

any-count : (js : List Job) → count_where is_active js ≡ 0 → any is_active js ≡ false
any-count [] h = refl
any-count (j ∷ js) h = ground (arith, h, any-count js)

any-some :
    (job : Job) (js : List Job) → Member job js → is_active job ≡ true → any is_active js ≡ true
any-some job [] m a = elim m [ ]
any-some job (j ∷ js) (here same) a = ground (arith, subst (λ x. is_active x ≡ true) (sym same) a)
any-some job (j ∷ js) (there m) a = ground (arith, any-some job js m a)

module _ (days fresh now : ℕ) (db : Db) (low : 1 ≤ days) (high : days ≤ 365) where
  start-refused :
      any is_active db.jobs ≡ true
      → start_reclassification days fresh now db ≡ (err (http 409 "Пересчёт уже выполняется"), db)
  unfolding start_reclassification
  start-refused h = ground (arith, h)

  start-accepted :
      any is_active db.jobs ≡ false
      → start_reclassification days fresh now db ≡ (
        ok tt,
        record db {
          jobs = new_job fresh days now ∷ db.jobs;
          audit_log = ("reclassification_started", fresh) ∷ db.audit_log;
        },
      )
  unfolding start_reclassification
  start-accepted h = ground (arith, h)

-- While the only active job waits, no job is started, and that is answered with 409; the worker's
-- pass ends it, and then a job of one to 365 days is started and is the only active one.
pub run_next_reclassification-start_reclassification :
    (t : TextOps) (rounds now : ℕ) (job : Job) (db : Db) (days fresh : ℕ)
    → Ascending db.events
    → Above 0 db.events
    → count_where (in_range now job.days) db.events < rounds
    → oldest db.jobs ≡ some job
    → count_where is_active db.jobs ≤ 1
    → 1 ≤ days
    → days ≤ 365
    → (start_reclassification days fresh now db ≡ (err (http 409 "Пересчёт уже выполняется"), db))
      × ((db' : Db) × (run_next_reclassification t rounds now db ≡ some db')
          × ((start_reclassification days fresh now db').0 ≡ ok tt)
          × (count_where is_active (start_reclassification days fresh now db').1.jobs ≡ 1))
run_next_reclassification-start_reclassification t rounds now job db days fresh up above enough
      found one low high =
    let (m, a) = oldest-queued db.jobs job found in
    let n = count_where (in_range now job.days) db.events in
    let none_left : count_where is_active (ended_jobs job.id n db.jobs) ≡ 0 =
      omega (arith, one, ended_jobs-lt job.id n job db.jobs refl m a) in
    let started =
      start-accepted days fresh now (after_job t now job db) low high
        (any-count (ended_jobs job.id n db.jobs) none_left) in
    (
      start-refused days fresh now db low high (any-some job db.jobs m a),
      (
        after_job t now job db,
        run_next_reclassification-ends t rounds now job db up above enough found,
        ap (λ (x : Result ⊤ × Db). x.0) started,
        ap (λ (x : Result ⊤ × Db). count_where is_active x.1.jobs) started
            ∙ omega (arith, none_left),
      ),
    )
