-- ===== src/Tests/Ingest.antt =====
-- The theorem on resent batches at a concrete input.
use iskan.Prelude.{ℕ, ◌+◌, ◌≡◌, refl, [], ◌∷◌, none, some, true}
use iskan.Http.Errors.{ok}
use iskan.Rules.{classify_result, sorted, insert_rule, applies, matches, event_field}
use iskan.Activity.{validate_interval, normalize_activity_state}
use iskan.Ingest.{
  Event, Device, Db, receive_activity_batch, store_batch, receive_events, receive_event, new_event,
  owner, account_of, add_account, insert_event, latest,
}
use iskan.Ingest.Resend.{receive_activity_batch-again}
use iskan.Tests.Rules.{ops, editing, rules}

abbrev device : Device
device = record { id = 1; employee_id = some 11; last_activity_state = none }

abbrev event : ℕ → Event
event uuid = record {
  event_uuid = uuid;
  ts_start = record { at = 5000000; has_timezone = true };
  ts_end = record { at = 8000000; has_timezone = true };
  content = editing;
  windows_sid = some "S-1";
  windows_username = none;
}

abbrev db : Db
db = record {
  devices = device ∷ [];
  accounts = [];
  next_account = 1;
  events = [];
  users = [];
  audit = [];
  notifications = [];
}

-- Two events, of which the second has the id of the first.
abbrev stored : Db
stored = (receive_activity_batch ops rules 9000000 9000000 device (event 5) (event 5 ∷ []) db).1

receive_activity_batch-again_example :
    (1 + 1 ≡ 2)
    × ((sent_at' now' : ℕ) (device' : Device)
        → device'.id ≡ 1
        → receive_activity_batch ops rules sent_at' now' device' (event 5) (event 5 ∷ []) stored
          ≡ (ok (record { accepted = 0; duplicates = 2 }), stored))
unfolding receive_activity_batch store_batch receive_events receive_event new_event owner account_of
    add_account insert_event latest classify_result sorted insert_rule applies matches event_field
    validate_interval normalize_activity_state
receive_activity_batch-again_example =
    receive_activity_batch-again ops rules (event 5) (event 5 ∷ []) 9000000 9000000 device db stored
      (record { accepted = 1; duplicates = 1 }) refl
