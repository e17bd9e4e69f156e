-- ===== src/Reports/Due.antt =====
-- What a pass over the schedules leaves.
use iskan.Prelude.{
  ℕ, zero, suc, ◌≡◌, refl, sym, subst, inl, inr, ◌+◌, ◌*◌, ◌/◌, ◌<◌, ◌≤◌, ◌==◌, ==_refl, Bool, true,
  false, List, [], ◌∷◌, select, any, length, count_where, update_where, All, All-map, Member, here,
  there, any-Member, arith, Bool-cases,
}
use iskan.Http.Errors.{Result, ok, err}
use iskan.Security.Crypto.{Text}
use iskan.Reports.Cron.{next_cron_after}
use iskan.Reports.Next.{Ends, next_cron_after-Ends}
use iskan.Reports.Queue.{
  Schedule, Db, Attempt, is_due, is_before, insert_by, in_order, limit, minute_or_tomorrow,
  next_run, advance, process_schedule, process_each, process_report_schedules, start_run,
  finish_run, advance_schedule, taken,
}

minute_or_tomorrow-within :
    (now : ℕ) (e : Text) (r : Result ℕ)
    → Ends e (now / 60 + 1) (now / 60 + 1 + 532800) r
    → (now < minute_or_tomorrow now r) × (minute_or_tomorrow now r ≤ now + 370 * 86400)
minute_or_tomorrow-within now e (ok m) (low, high, fits, before) =
    (omega (arith, low), omega (arith, high))
minute_or_tomorrow-within now e (err x) h = (omega arith, omega arith)

-- Whatever its expression is, a schedule's next run is after the pass and at most 370 days later.
pub next_run-within :
    (now : ℕ) (cron : Text) → (now < next_run now cron) × (next_run now cron ≤ now + 370 * 86400)
unfolding next_run
next_run-within now cron =
    minute_or_tomorrow-within now cron (next_cron_after cron now) (next_cron_after-Ends cron now)

advance-is_due : (now : ℕ) (cron : Text) (s : Schedule) → is_due now (advance now cron s) ≡ false
advance-is_due now cron s = ground (arith, (next_run-within now cron).0)

-- a due schedule is among those that are still to be processed
abbrev pub IsPending : ℕ → List Schedule → Schedule → Type 0
IsPending now ss r = is_due now r ≡ true → any (λ s. r.id == s.id) ss ≡ true

process_each-schedules :
    (attempt : Schedule → Attempt) (now : ℕ) (ss : List Schedule) (db : Db)
    → All (IsPending now ss) db.schedules
    → All (λ r. is_due now r ≡ false) (process_each attempt now ss db).1.schedules
unfolding process_each process_schedule start_run finish_run advance_schedule
process_each-schedules attempt now [] db h =
    All-map (IsPending now []) (λ r. is_due now r ≡ false) db.schedules (λ r k. none_left r k) h
  where
    none_left : (r : Schedule) → IsPending now [] r → is_due now r ≡ false
    none_left r k = elim (Bool-cases (is_due now r)) [ inl due ↦ cc (k due) | inr idle ↦ idle ]
process_each-schedules attempt now (s ∷ ss) db h =
    process_each-schedules attempt now ss (process_schedule attempt now s db) (step db.schedules h)
  where
    step :
        (rs : List Schedule)
        → All (IsPending now (s ∷ ss)) rs
        → All (IsPending now ss) (update_where (λ r. r.id == s.id) (advance now s.cron) rs)
    step [] h = tt
    step (r ∷ rs) (k, h) = elim (Bool-cases (r.id == s.id)) [
      | inl same ↦ rw same ((λ due. absurd (cc (advance-is_due now s.cron r, due))), step rs h)
      | inr other ↦ rw other ((λ due. ground (arith, k due, other)), step rs h)
    ]

insert_by-Member : (s : Schedule) (rs : List Schedule) → Member s (insert_by s rs)
insert_by-Member s [] = here refl
insert_by-Member s (r ∷ rs) = elim (Bool-cases (is_before s r)) [
  | inl first ↦ rw first (here refl)
  | inr later ↦ rw later (there (insert_by-Member s rs))
]

insert_by-Member_rest :
    (s : Schedule) {a : Schedule} (rs : List Schedule) → Member a rs → Member a (insert_by s rs)
insert_by-Member_rest s [] m = elim m [ ]
insert_by-Member_rest s (r ∷ rs) m = elim (Bool-cases (is_before s r)) [
  | inl first ↦ rw first (there m)
  | inr later ↦
      rw later (elim m [ here e ↦ here e | there k ↦ there (insert_by-Member_rest s rs k) ])
]

in_order-Member : {a : Schedule} (rs : List Schedule) → Member a rs → Member a (in_order rs)
in_order-Member [] m = elim m [ ]
in_order-Member (r ∷ rs) (here e) =
    subst (λ b. Member b (insert_by r (in_order rs))) e (insert_by-Member r (in_order rs))
in_order-Member (r ∷ rs) (there m) = insert_by-Member_rest r (in_order rs) (in_order-Member rs m)

insert_by-length : (s : Schedule) (rs : List Schedule) → length (insert_by s rs) ≡ length rs + 1
insert_by-length s [] = ground arith
insert_by-length s (r ∷ rs) = ground (arith, insert_by-length s rs)

in_order-length : (rs : List Schedule) → length (in_order rs) ≡ length rs
in_order-length [] = refl
in_order-length (r ∷ rs) = omega (arith, insert_by-length r (in_order rs), in_order-length rs)

select-length : (p : Schedule → Bool) (rs : List Schedule) → length (select p rs) ≡ count_where p rs
select-length p [] = refl
select-length p (r ∷ rs) = ground (arith, select-length p rs)

limit-Member :
    (n : ℕ) {a : Schedule} (rs : List Schedule)
    → length rs ≤ n
    → Member a rs
    → Member a (limit n rs)
limit-Member zero [] h m = elim m [ ]
limit-Member zero (r ∷ rs) h m = absurd (omega (arith, h))
limit-Member (suc n) [] h m = elim m [ ]
limit-Member (suc n) (r ∷ rs) h (here e) = here e
limit-Member (suc n) (r ∷ rs) h (there m) = there (limit-Member n rs (omega (arith, h)) m)

select-Member :
    (p : Schedule → Bool) {a : Schedule} (rs : List Schedule)
    → Member a rs
    → p a ≡ true
    → Member a (select p rs)
select-Member p [] m h = elim m [ ]
select-Member p (r ∷ rs) (here e) h = rw (subst (λ b. p b ≡ true) (sym e) h) (here e)
select-Member p (r ∷ rs) (there m) h = elim (Bool-cases (p r)) [
  | inl hit ↦ rw hit (there (select-Member p rs m h))
  | inr miss ↦ rw miss (select-Member p rs m h)
]

All-Member :
    {P : Schedule → Type 0} (rs : List Schedule) → ((a : Schedule) → Member a rs → P a) → All P rs
All-Member [] h = tt
All-Member (r ∷ rs) h = (h r (here refl), All-Member rs (λ a m. h a (there m)))

-- If at most ten schedules are due, none is due after the pass.
pub process_report_schedules-is_due :
    (attempt : Schedule → Attempt) (now : ℕ) (db : Db)
    → count_where (is_due now) db.schedules ≤ 10
    → All (λ r. is_due now r ≡ false) (process_report_schedules attempt now db).1.schedules
unfolding process_report_schedules taken
process_report_schedules-is_due attempt now db few =
    let due = select (is_due now) db.schedules in
    let batch = limit 10 (in_order due) in
    process_each-schedules attempt now batch db (
      All-Member db.schedules (λ r m is.
        any-Member (λ s. r.id == s.id) batch
          (limit-Member 10 (in_order due)
            (omega (arith, few, in_order-length due, select-length (is_due now) db.schedules))
            (in_order-Member due (select-Member (is_due now) db.schedules m is)))
          (==_refl r.id)))
