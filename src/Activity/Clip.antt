-- ===== src/Activity/Clip.antt =====
-- Bounds on validated intervals and on the time that intervals have within a range.
use iskan.Prelude.{
  ℕ, ◌+◌, ◌-◌, ◌*◌, ◌≤◌, ◌<◌, ◌≡◌, inl, inr, refl, subst, String, Bool, true, false, not, List, [],
  ◌∷◌, Option, none, some, or_else, Bool-cases, arith, if◌then◌else◌,
}
use iskan.Http.Errors.{value_error, ok, err, Result-cases}
use iskan.Rules.{TextOps}
use iskan.Activity.{
  Moment, ValidatedInterval, is_allowed, seconds, later, clipped_duration, normalize_activity_state,
  validate_interval,
}

module _ (t : TextOps) where
  normalize-is_allowed :
      (value : Option String) (s : String)
      → normalize_activity_state t value ≡ ok (some s)
      → is_allowed s ≡ true
  unfolding normalize_activity_state
  normalize-is_allowed none s h = absurd (ground arith)
  normalize-is_allowed (some x) s h = elim (Bool-cases (is_allowed (t.upper (t.strip x)))) [
    | inr miss ↦ absurd (refused miss)
    | inl fits ↦ subst (λ y. is_allowed y ≡ true) {x = t.upper (t.strip x)} {y = s} (same fits) fits
  ]
    where
      refused : is_allowed (t.upper (t.strip x)) ≡ false → ⊥
      refused e = clash (is_allowed (t.upper (t.strip x))) e h
        where
          clash :
              (b : Bool)
              → b ≡ false
              → (if not b
                  then err (value_error "Unsupported activity state")
                  else ok (some (t.upper (t.strip x))))
                ≡ ok (some s)
              → ⊥
          clash b e k = ground (arith, e, k)

      same : is_allowed (t.upper (t.strip x)) ≡ true → t.upper (t.strip x) ≡ s
      same e = read (is_allowed (t.upper (t.strip x))) e h
        where
          read :
              (b : Bool)
              → b ≡ true
              → (if not b
                  then err (value_error "Unsupported activity state")
                  else ok (some (t.upper (t.strip x))))
                ≡ ok (some s)
              → t.upper (t.strip x) ≡ s
          read b e k = ground (arith, e, k)

  -- An interval that is accepted lasts at least a second and at most a day of whole seconds, its
  -- end is that much behind its start, and its state is one of the six.
  pub validate_interval-bounds :
      (start end : Moment) (state : String) (v : ValidatedInterval)
      → validate_interval t start end state ≡ ok v
      → (1 ≤ v.duration_seconds)
        × (v.duration_seconds ≤ 86400)
        × (v.start + v.duration_seconds * 1000000 ≤ v.end)
        × (v.end < v.start + (v.duration_seconds + 1) * 1000000)
        × (is_allowed v.state ≡ true)
  unfolding validate_interval
  validate_interval-bounds start end state v h =
      elim (Result-cases (normalize_activity_state t (some state))) [
        | inr (e, refused) ↦ absurd (ground (arith, h, refused))
        | inl (normalized, read) ↦ (
          ground (arith, h, read),
          ground (arith, h, read),
          ground (arith, h, read),
          ground (arith, h, read),
          subst (λ y. is_allowed y ≡ true) {x = or_else normalized "NEUTRAL"} {y = v.state}
              (ground (arith, h, read)) (states normalized read),
        )
      ]
    where
      states :
          (n : Option String)
          → normalize_activity_state t (some state) ≡ ok n
          → is_allowed (or_else n "NEUTRAL") ≡ true
      states none k = refl
      states (some s) k = normalize-is_allowed (some state) s k

-- what a device's intervals have in common with a range
unfoldable pub total : List (ℕ × ℕ) → ℕ → ℕ → ℕ
total [] range_start range_end = 0
total (i ∷ is) range_start range_end =
    clipped_duration i.0 i.1 range_start range_end + total is range_start range_end

-- Each interval begins when the one before is over.
abbrev pub InOrder : ℕ → List (ℕ × ℕ) → Type 0
InOrder from [] = Unit
InOrder from (i ∷ is) = (from ≤ i.0) × (i.0 ≤ i.1) × InOrder i.1 is

total-from :
    (is : List (ℕ × ℕ)) (from range_start range_end : ℕ)
    → InOrder from is
    → total is range_start range_end * 1000000 ≤ range_end - later from range_start
unfolding total clipped_duration
total-from [] from a b h = omega arith
total-from (i ∷ is) from a b h = ground (arith, total-from is i.1 a b h.2, h.0, h.1)

-- The times of intervals that do not overlap add up to no more than the range.
pub total-le :
    (is : List (ℕ × ℕ)) (from range_start range_end : ℕ)
    → InOrder from is
    → total is range_start range_end ≤ seconds range_start range_end
total-le is from a b h = ground (arith, total-from is from a b h)
