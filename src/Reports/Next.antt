-- ===== src/Reports/Next.antt =====
-- The minute that `next_cron_after` finds.
use iskan.Prelude.{
  ℕ, zero, suc, ◌≡◌, refl, subst, ◌+◌, ◌/◌, ◌≤◌, ◌<◌, ◌⊎◌, inl, inr, true, false, arith,
}
use iskan.Http.Errors.{value_error, Result, ok, err, Result-cases}
use iskan.Security.Crypto.{Text}
use iskan.Reports.Cron.{cron_matches, search_minute, next_cron_after, rounds_of_search}

-- no minute from the first to the last fits, nor raises
abbrev pub NoneFits : Text → ℕ → ℕ → Type 0
NoneFits e first last = (k : ℕ) → first ≤ k → k < last → cron_matches e k ≡ ok false

-- what is found after `c` minutes of which none fits
abbrev pub Ends : Text → ℕ → ℕ → Result ℕ → Type 0
Ends e c last (ok m) = (c ≤ m) × (m < last) × (cron_matches e m ≡ ok true) × NoneFits e c m
Ends e c last (err x) =
    ((m : ℕ) × (c ≤ m) × (m < last) × (cron_matches e m ≡ err x) × NoneFits e c m)
    ⊎ ((x ≡ value_error "Расписание не имеет запуска в ближайший год") × NoneFits e c last)

later :
    (e : Text) (c last : ℕ)
    → cron_matches e c ≡ ok false
    → NoneFits e (c + 1) last
    → NoneFits e c last
later e c last h rest k low high = elim (nat_cases c k low) [
  | inl same ↦ subst (λ n. cron_matches e n ≡ ok false) same h
  | inr more ↦ rest k more high
]
  where
    nat_cases : (c k : ℕ) → c ≤ k → (c ≡ k) ⊎ (c + 1 ≤ k)
    nat_cases c k low = omega arith

Ends-later :
    (e : Text) (c last : ℕ) (r : Result ℕ)
    → cron_matches e c ≡ ok false
    → Ends e (c + 1) last r
    → Ends e c last r
Ends-later e c last (ok m) h (low, high, fits, before) =
    (omega arith, high, fits, later e c m h before)
Ends-later e c last (err x) h (inl (m, low, high, raises, before)) =
    inl (m, omega arith, high, raises, later e c m h before)
Ends-later e c last (err x) h (inr (same, before)) = inr (same, later e c last h before)

empty : (e : Text) (c : ℕ) → NoneFits e c c
empty e c k low high = absurd (omega arith)

search_minute-Ends : (n : ℕ) (e : Text) (c : ℕ) → Ends e c (c + n) (search_minute n e c)
unfolding search_minute
search_minute-Ends zero e c = inr (refl, λ k low high. absurd (omega arith))
search_minute-Ends (suc n) e c = elim (Result-cases (cron_matches e c)) [
  | inr (x, raises) ↦ rw raises (inl (c, omega arith, omega arith, raises, empty e c))
  | inl (true, fits) ↦ rw fits (omega arith, omega arith, fits, empty e c)
  | inl (false, misses) ↦ rw misses (
      Ends-later e c (c + suc n) (search_minute n e (c + 1)) misses (
        subst (λ last. Ends e (c + 1) last (search_minute n e (c + 1))) (omega arith)
          (search_minute-Ends n e (c + 1))))
]

-- The search of an instant's next run ends in one of three ways. It answers a minute after the
-- instant's, at most 370 days after it, that the expression matches, while it matches none
-- between; or it raises what the first minute raises of which the expression's fields cannot be
-- read, while none before matches; or it raises that there is no run, and none of the minutes of
-- 370 days matches.
pub next_cron_after-Ends :
    (e : Text) (instant : ℕ)
    → Ends e (instant / 60 + 1) (instant / 60 + 1 + 532800) (next_cron_after e instant)
unfolding next_cron_after rounds_of_search
next_cron_after-Ends e instant = search_minute-Ends 532800 e (instant / 60 + 1)
