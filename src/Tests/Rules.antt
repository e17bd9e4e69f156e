-- ===== src/Tests/Rules.antt =====
-- The theorems on classification and on intervals at concrete inputs.
use iskan.Prelude.{
  ℕ, ◌+◌, ◌*◌, ◌≡◌, ◌≤◌, ◌<◌, refl, List, [], ◌∷◌, none, some, arith, true, String, ◌=s◌,
  if◌then◌else◌,
}
use iskan.Rules.{
  TextOps, Classifiable, ClassificationRule, is_preserved, result_of, applies, classify_result,
}
use iskan.Rules.Best.{best, classify_result-best}
use iskan.Activity.{
  ValidatedInterval, seconds, is_allowed, validate_interval, normalize_activity_state,
}
use iskan.Activity.Clip.{total, total-le, validate_interval-bounds}

-- texts in capitals already, and patterns that are never used
abbrev pub ops : TextOps
ops = record {
  upper = λ s. s;
  strip = λ s. s;
  casefold = λ s. s;
  contains = λ p s. p =s s;
  fnmatchcase = λ s p. p =s s;
  search = λ p s. none;
}

abbrev pub editing : Classifiable
editing = record {
  state = "ACTIVE";
  process_name = some "code.exe";
  window_title = none;
  url_domain = none;
  url_path = none;
}

abbrev pub rule : ℕ → String → ClassificationRule
rule priority productivity = record {
  priority = priority;
  match_field = "process_name";
  match_type = "exact";
  pattern = "code.exe";
  productivity = productivity;
  category_id = some priority;
}

abbrev pub rules : List ClassificationRule
rules = rule 20 "UNPRODUCTIVE" ∷ rule 10 "PRODUCTIVE" ∷ []

classify_result-best_example : classify_result ops editing rules ≡ (
    if is_preserved (ops.upper editing.state)
    then record { state = ops.upper editing.state; category_id = none }
    else result_of ops (best (applies ops editing) rules))
classify_result-best_example = classify_result-best ops editing rules

abbrev pub interval : ValidatedInterval
interval = record { start = 5000000; end = 8000000; duration_seconds = 3; state = "IDLE" }

validate_interval-bounds_example :
    (1 ≤ interval.duration_seconds)
    × (interval.duration_seconds ≤ 86400)
    × (interval.start + interval.duration_seconds * 1000000 ≤ interval.end)
    × (interval.end < interval.start + (interval.duration_seconds + 1) * 1000000)
    × (is_allowed interval.state ≡ true)
unfolding validate_interval normalize_activity_state
validate_interval-bounds_example =
    validate_interval-bounds ops (record { at = 5000000; has_timezone = true })
      (record { at = 8000000; has_timezone = true }) "IDLE" interval refl

-- two intervals, of which the second ends behind the range
total-le_example :
    total ((5000000, 8000000) ∷ (9000000, 30000000) ∷ []) 6000000 20000000
    ≤ seconds 6000000 20000000
unfolding total
total-le_example =
    total-le ((5000000, 8000000) ∷ (9000000, 30000000) ∷ []) 0 6000000 20000000
      (omega arith, omega arith, (omega arith, omega arith, tt))
