-- ===== src/Activity.antt =====
-- presence.py and activity.py: the state of a device and the intervals of its activity. An
-- instant is its microsecond; one without a timezone has none.
pub mod Clip
use iskan.Prelude.{
  ℕ, ◌+◌, ◌-◌, ◌*◌, ◌/◌, leb, ltb, min, max, ◌==◌, String, one_of, Bool, true, false, not, ◌&&◌,
  ◌||◌, List, [], ◌∷◌, Option, none, some, or_else, is_some, if◌then◌else◌,
}
use iskan.Http.Errors.{Error, value_error, Result, ok, err, ◌>>=◌, ◌>>◌, raise_if}
use iskan.Rules.{TextOps}

pub record Moment : Type 0 where
  pub at : ℕ
  pub has_timezone : Bool

pub record PresenceSnapshot : Type 0 where
  pub is_online : Bool
  pub status : String
  pub seconds_since_seen : Option ℕ

pub record ValidatedInterval : Type 0 where
  pub start : ℕ
  pub end : ℕ
  pub duration_seconds : ℕ
  pub state : String

-- `ALLOWED_ACTIVITY_STATES`
abbrev pub is_allowed : String → Bool
is_allowed s =
    one_of s ("PRODUCTIVE" ∷ "NEUTRAL" ∷ "UNPRODUCTIVE" ∷ "IDLE" ∷ "LOCKED" ∷ "BREAK" ∷ [])

-- whole seconds of the time from the first instant to the second, and zero if it is the earlier
abbrev pub seconds : ℕ → ℕ → ℕ
seconds from to = (to - from) / 1000000

-- `max(a, b)` and `min(a, b)` of two instants
abbrev pub later : ℕ → ℕ → ℕ
later a b = if ltb a b then b else a

abbrev pub earlier : ℕ → ℕ → ℕ
earlier a b = if ltb b a then b else a

-- `clipped_duration`
unfoldable pub clipped_duration : ℕ → ℕ → ℕ → ℕ → ℕ
clipped_duration start end range_start range_end =
    seconds (later start range_start) (earlier end range_end)

module _ (t : TextOps) where
  -- `normalize_activity_state`
  unfoldable pub normalize_activity_state : Option String → Result (Option String)
  normalize_activity_state none = ok none
  normalize_activity_state (some value) =
      let normalized = t.upper (t.strip value) in
      if not (is_allowed normalized)
      then err (value_error "Unsupported activity state")
      else ok (some normalized)

  -- `calculate_presence`; a `last_seen` without a timezone is taken as UTC
  unfoldable pub calculate_presence : Option ℕ → Option String → ℕ → ℕ → Result PresenceSnapshot
  calculate_presence none activity_state now ttl_seconds =
      ok (record { is_online = false; status = "OFFLINE"; seconds_since_seen = none })
  calculate_presence (some last_seen) activity_state now ttl_seconds =
      let online = leb (now - last_seen) (ttl_seconds * 1000000) in
      do
        status ← if online then normalize_activity_state activity_state else ok (some "OFFLINE")
        ok (record {
          is_online = online;
          status = or_else status "ONLINE";
          seconds_since_seen = some (seconds last_seen now);
        })

  -- `validate_interval`
  unfoldable pub validate_interval : Moment → Moment → String → Result ValidatedInterval
  validate_interval start end state = do
    raise_if (not start.has_timezone || not end.has_timezone)
        (value_error "Activity timestamps must contain a timezone")
    raise_if (leb (seconds start.at end.at) 0)
        (value_error "Activity event must end after it starts")
    raise_if (ltb (24 * 60 * 60) (seconds start.at end.at))
        (value_error "Activity event cannot exceed 24 hours")
    normalized ← normalize_activity_state (some state)
    ok (record {
      start = start.at;
      end = end.at;
      duration_seconds = seconds start.at end.at;
      state = or_else normalized "NEUTRAL";
    })
