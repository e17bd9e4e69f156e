-- ===== src/Ingest/Settled.antt =====
-- An event that was received is settled: to receive it again changes nothing.
use iskan.Prelude.{
  ℕ, ◌≡◌, refl, inl, inr, ◌==◌, ==_refl, String, =s_iff, true, false, List, ◌∷◌, Option, none, some,
  find?, is_some, is_none, Bool-cases, Option-cases, arith,
}
use iskan.Http.{Action}
use iskan.Http.Errors.{ok}
use iskan.Rules.{TextOps, ClassificationRule, classify_result}
use iskan.Activity.{ValidatedInterval, validate_interval}
use iskan.Ingest.{
  Event, Device, Account, Db, filled, is_account, new_account, add_account, account_of, owner,
}

-- Rows are only added: what was found is found.
pub record Grows (db db' : Db) : Type 0 where
  pub events :
      (uuid : ℕ)
      → is_some (find? (λ e. e.event_uuid == uuid) db.events) ≡ true
      → is_some (find? (λ e. e.event_uuid == uuid) db'.events) ≡ true
  pub accounts :
      (device_id : ℕ) (sid : String)
      → is_some (find? (is_account device_id sid) db.accounts) ≡ true
      → is_some (find? (is_account device_id sid) db'.accounts) ≡ true

abbrev pub HasAccount : ℕ → Option String → Db → Type 0
HasAccount device_id none db = Unit
HasAccount device_id (some sid) db = is_some (find? (is_account device_id sid) db.accounts) ≡ true

pub Grows-refl : (db : Db) → Grows db db
Grows-refl db = record { events = λ _ h. h; accounts = λ _ _ h. h }

pub Grows-trans : (a b c : Db) → Grows a b → Grows b c → Grows a c
Grows-trans a b c g h = record {
  events = λ u k. h.events u (g.events u k);
  accounts = λ d s k. h.accounts d s (g.accounts d s k);
}

add_account-rows :
    (device : Device) (sid : String) (username : Option String) (db : Db)
    → ((add_account device sid username db).0 ≡ ok (new_account device sid username db))
      × ((add_account device sid username db).1.accounts
          ≡ new_account device sid username db ∷ db.accounts)
      × ((add_account device sid username db).1.events ≡ db.events)
unfolding add_account
add_account-rows device sid username db =
    elim (Bool-cases (is_none (new_account device sid username db).employee_id)) [
      | inl nobody ↦ rw nobody (refl, refl, refl)
      | inr somebody ↦ rw somebody (refl, refl, refl)
    ]

-- what a statement sequence that only adds rows and succeeds leaves
pub record Adds {A : Type 0} (m : Action Db A) (db : Db) : Type 0 where
  pub answer : A
  pub ok_answer : (m db).0 ≡ ok answer
  pub grows : Grows db (m db).1

module _ (device : Device) (sid : String) (username : Option String) (db : Db) where
  pub account_of-found :
      (a : Account)
      → find? (is_account device.id sid) db.accounts ≡ some a
      → account_of device sid username db ≡ (ok a, db)
  unfolding account_of
  account_of-found a found = ground (arith, found)

  account_of-missing :
      find? (is_account device.id sid) db.accounts ≡ none
      → account_of device sid username db ≡ add_account device sid username db
  unfolding account_of
  account_of-missing missing = ground (arith, missing)

  account_of-Adds : Adds (account_of device sid username) db
  account_of-Adds =
      let (answer, accounts, events) = add_account-rows device sid username db in
      elim (Option-cases (find? (is_account device.id sid) db.accounts)) [
        | inr (a, found) ↦ record {
          answer = a;
          ok_answer = rw (account_of-found a found) refl;
          grows = rw (account_of-found a found) (Grows-refl db);
        }
        | inl missing ↦ record {
          answer = new_account device sid username db;
          ok_answer = rw (account_of-missing missing) answer;
          grows = rw (account_of-missing missing) (record {
            events = λ u h. rw events h;
            accounts = λ d s h. rw accounts (ground (arith, h));
          });
        }
      ]

  account_of-HasAccount :
      is_some (find? (is_account device.id sid) (account_of device sid username db).1.accounts)
      ≡ true
  account_of-HasAccount =
      let (answer, accounts, events) = add_account-rows device sid username db in
      elim (Option-cases (find? (is_account device.id sid) db.accounts)) [
        | inr (a, found) ↦ rw (account_of-found a found) (ground (arith, found))
        | inl missing ↦
            rw (account_of-missing missing, accounts)
              (ground (arith, ==_refl device.id, (=s_iff sid sid).1 refl))
      ]

module _ (device : Device) (event : Event) (db : Db) where
  pub owner-none :
      filled event.windows_sid ≡ none → owner device event db ≡ (ok (device.employee_id, false), db)
  unfolding owner
  owner-none h = ground (arith, h)

  pub owner-some :
      (sid : String) (a : Account)
      → filled event.windows_sid ≡ some sid
      → (account_of device sid event.windows_username db).0 ≡ ok a
      → owner device event db ≡ (
        ok (a.employee_id, is_none a.employee_id),
        (account_of device sid event.windows_username db).1,
      )
  unfolding owner
  owner-some sid a h e = ground (arith, h, e)

  pub owner-Adds :
      Adds (owner device event) db
      × HasAccount device.id (filled event.windows_sid) (owner device event db).1
  owner-Adds = elim (Option-cases (filled event.windows_sid)) [
    | inl none_given ↦ (
      record {
        answer = (device.employee_id, false);
        ok_answer = rw (owner-none none_given) refl;
        grows = rw (owner-none none_given) (Grows-refl db);
      },
      rw none_given tt,
    )
    | inr (sid, given) ↦
        let a = account_of-Adds device sid event.windows_username db in
        let e = owner-some sid a.answer given a.ok_answer in
        (
          record {
            answer = (a.answer.employee_id, is_none a.answer.employee_id);
            ok_answer = rw e refl;
            grows = rw e a.grows;
          },
          rw (given, e) (account_of-HasAccount device sid event.windows_username db),
        )
  ]

module _ (t : TextOps) (rules : List ClassificationRule) where
  pub record Settled (device_id : ℕ) (event : Event) (db : Db) : Type 0 where
    pub interval : ValidatedInterval
    pub valid :
        validate_interval t event.ts_start event.ts_end
          (classify_result t event.content rules).state
        ≡ ok interval
    pub account : HasAccount device_id (filled event.windows_sid) db
    pub stored : is_some (find? (λ e. e.event_uuid == event.event_uuid) db.events) ≡ true

  pub Settled-Grows :
      (device_id : ℕ) (event : Event) (db db' : Db)
      → Grows db db'
      → Settled device_id event db
      → Settled device_id event db'
  Settled-Grows device_id event db db' g s = record {
    interval = s.interval;
    valid = s.valid;
    account = has (filled event.windows_sid) s.account;
    stored = g.events event.event_uuid s.stored;
  }
    where
      has : (o : Option String) → HasAccount device_id o db → HasAccount device_id o db'
      has none h = tt
      has (some sid) h = g.accounts device_id sid h
