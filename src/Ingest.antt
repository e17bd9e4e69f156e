-- ===== src/Ingest.antt =====
-- main.py: `receive_activity_batch`. The tables of the devices, their Windows accounts and the
-- events; ids that PostgreSQL draws come from a counter.
pub mod Settled
pub mod Idempotence
pub mod Resend
use iskan.Prelude.{
  ℕ, ◌+◌, ◌-◌, ◌*◌, ◌==◌, leb, ltb, String, ◌=s◌, one_of, any, Bool, true, false, not, ◌&&◌, ◌||◌,
  List, [], ◌∷◌, ◌++◌, map, Option, none, some, ⊤, find?, select, update_where, count_where, length,
  or_else, is_some, is_none, if◌then◌else◌,
}
use iskan.Http.{Action, pure, gets, modify, lift, transaction, when, or_raise, ◌>>=◌, ◌>>◌}
use iskan.Http.Errors.{Error, value_error, Result, ok, err}
use iskan.Auth.Store.{User}
use iskan.Rules.{TextOps, Classifiable, ClassificationRule, ClassificationResult, classify_result}
use iskan.Activity.{Moment, ValidatedInterval, validate_interval}

-- `ActivityEventInput`
pub record Event : Type 0 where
  pub event_uuid : ℕ
  pub ts_start : Moment
  pub ts_end : Moment
  pub content : Classifiable
  pub windows_sid : Option String
  pub windows_username : Option String

pub record Device : Type 0 where
  pub id : ℕ
  pub employee_id : Option ℕ
  pub last_activity_state : Option String

pub record Account : Type 0 where
  pub id : ℕ
  pub device_id : ℕ
  pub sid : String
  pub username : String
  pub employee_id : Option ℕ

-- a row of `activity_events`
pub record StoredEvent : Type 0 where
  pub event_uuid : ℕ
  pub device_id : ℕ
  pub employee_id : Option ℕ
  pub interval : ValidatedInterval
  pub category_id : Option ℕ
  pub windows_sid : Option String
  pub is_quarantined : Bool
  pub time_skew : Bool

-- a notification of an unknown account
pub record Notification : Type 0 where
  pub user_id : ℕ
  pub account_id : ℕ

pub record Db : Type 0 where
  pub devices : List Device
  pub accounts : List Account
  pub next_account : ℕ
  pub events : List StoredEvent
  pub users : List User
  -- the accounts of the `unknown_account` rows
  pub audit : List ℕ
  pub notifications : List Notification

pub record ActivityBatchResponse : Type 0 where
  pub accepted : ℕ
  pub duplicates : ℕ

-- `if event.windows_sid:`
abbrev pub filled : Option String → Option String
filled none = none
filled (some s) = if s =s "" then none else some s

abbrev pub is_account : ℕ → String → Account → Bool
is_account device_id sid a = (a.device_id == device_id) && (a.sid =s sid)

abbrev pub is_mapped : ℕ → Account → Bool
is_mapped device_id a = (a.device_id == device_id) && is_some a.employee_id

abbrev pub is_admin : User → Bool
is_admin u = one_of u.role_code ("admin" ∷ "superadmin" ∷ []) && u.is_active

-- the audit row and the notifications of an account of nobody
abbrev pub report_unknown : ℕ → Action Db ⊤
report_unknown account_id = modify λ db. record db {
  audit = account_id ∷ db.audit;
  notifications =
      map (λ u. record { user_id = u.id; account_id = account_id }) (select is_admin db.users)
      ++ db.notifications;
}

-- the first account of a device is its employee's, a later one nobody's
abbrev pub initial_employee : Device → Db → Option ℕ
initial_employee device db =
    if count_where (is_mapped device.id) db.accounts == 0 then device.employee_id else none

abbrev pub new_account : Device → String → Option String → Db → Account
new_account device sid username db = record {
  id = db.next_account;
  device_id = device.id;
  sid = sid;
  username = or_else (filled username) sid;
  employee_id = initial_employee device db;
}

-- `if account is None:`
unfoldable pub add_account : Device → String → Option String → Action Db Account
add_account device sid username = do
  account ← gets (new_account device sid username)
  modify (λ db. record db { accounts = account ∷ db.accounts; next_account = db.next_account + 1 })
  when (is_none account.employee_id) (report_unknown account.id)
  pure account

-- the account of an event
unfoldable pub account_of : Device → String → Option String → Action Db Account
account_of device sid username = do
  found ← gets (λ db. find? (is_account device.id sid) db.accounts)
  elim found [ some account ↦ pure account | none ↦ add_account device sid username ]

-- the employee that an event is of, and whether it waits for one
unfoldable pub owner : Device → Event → Action Db (Option ℕ × Bool)
owner device event = elim (filled event.windows_sid) [
  | none ↦ pure (device.employee_id, false)
  | some sid ↦ do
    account ← account_of device sid event.windows_username
    pure (account.employee_id, is_none account.employee_id)
]

-- `INSERT … ON CONFLICT(event_uuid) DO NOTHING RETURNING id`; it answers the rows inserted
unfoldable pub insert_event : StoredEvent → Action Db ℕ
insert_event row db =
    if is_some (find? (λ e. e.event_uuid == row.event_uuid) db.events)
    then (ok 0, db)
    else (ok 1, record db { events = row ∷ db.events })

module _ (t : TextOps) (rules : List ClassificationRule) (time_skew : Bool) where
  -- the row that is inserted
  unfoldable pub new_event : Device → Event → ValidatedInterval → Option ℕ × Bool → StoredEvent
  new_event device event interval owned = record {
    event_uuid = event.event_uuid;
    device_id = device.id;
    employee_id = owned.0;
    interval = interval;
    category_id = (classify_result t event.content rules).category_id;
    windows_sid = event.windows_sid;
    is_quarantined = owned.1;
    time_skew = time_skew;
  }

  -- the body of the loop
  unfoldable pub receive_event : Device → Event → Action Db ℕ
  receive_event device event = do
    let classification = classify_result t event.content rules
    interval ← lift (validate_interval t event.ts_start event.ts_end classification.state)
    owned ← owner device event
    insert_event (new_event device event interval owned)

  -- the loop
  unfoldable pub receive_events : Device → List Event → Action Db ℕ
  receive_events device [] = pure 0
  receive_events device (event ∷ events) = do
    inserted ← receive_event device event
    accepted ← receive_events device events
    pure (inserted + accepted)

-- `max(payload.events, key=lambda item: item.ts_end)`: the first of the latest
unfoldable pub latest : Event → List Event → Event
latest event [] = event
latest event (next ∷ events) =
    latest (if ltb event.ts_end.at next.ts_end.at then next else event) events

-- the batch's rows and the device's last state
unfoldable pub store_batch :
    TextOps → List ClassificationRule → Bool → Device → Event → List Event → Action Db ℕ
store_batch t rules time_skew device event events = do
  accepted ← receive_events t rules time_skew device (event ∷ events)
  modify λ db. record db {
    devices =
        update_where (λ d. d.id == device.id)
          (λ d. record d {
            last_activity_state =
                some (classify_result t (latest event events).content rules).state;
          })
          db.devices;
  }
  pure accepted

-- `receive_activity_batch`, with the enabled global rules; the schema lets no empty batch in
unfoldable pub receive_activity_batch :
    TextOps
    → List ClassificationRule
    → ℕ
    → ℕ
    → Device
    → Event
    → List Event
    → Action Db ActivityBatchResponse
receive_activity_batch t rules sent_at now device event events = do
  let time_skew = ltb (300 * 1000000) ((sent_at - now) + (now - sent_at))
  accepted ← transaction (store_batch t rules time_skew device event events)
  pure (record { accepted = accepted; duplicates = length (event ∷ events) - accepted })
