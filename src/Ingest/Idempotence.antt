-- ===== src/Ingest/Idempotence.antt =====
-- An agent that sends a batch again, since it did not see the answer, adds nothing.
use iskan.Prelude.{
  ℕ, ◌≤◌, ◌≡◌, refl, ap, subst, sym, ◌∙◌, inl, inr, ◌==◌, ==_refl, String, Bool, true, false, List,
  [], ◌∷◌, Option, none, some, find?, is_some, is_none, Bool-cases, Option-cases, arith, All,
  length,
}
use iskan.Http.{outcome}
use iskan.Http.Errors.{Error, ok, err, Result-cases}
use iskan.Rules.{TextOps, ClassificationRule, classify_result}
use iskan.Activity.{ValidatedInterval, validate_interval}
use iskan.Ingest.{
  Event, Device, StoredEvent, Db, filled, is_account, owner, insert_event, new_event, receive_event,
  receive_events,
}
use iskan.Ingest.Settled.{
  Grows, Grows-refl, Grows-trans, HasAccount, owner-Adds, owner-none, owner-some, account_of-found,
  Settled, Settled-Grows,
}

insert_event-ok :
    (row : StoredEvent) (db : Db)
    → (n : ℕ) × ((insert_event row db).0 ≡ ok n)
      × (n ≤ 1)
      × Grows db (insert_event row db).1
      × (is_some (find? (λ e. e.event_uuid == row.event_uuid) (insert_event row db).1.events)
          ≡ true)
unfolding insert_event
insert_event-ok row db =
    elim (Bool-cases (is_some (find? (λ e. e.event_uuid == row.event_uuid) db.events))) [
      | inl there ↦ rw there (0, refl, omega arith, Grows-refl db, there)
      | inr absent ↦ rw absent (
        1,
        refl,
        omega arith,
        record { events = λ u h. ground (arith, h); accounts = λ d s h. h },
        ground (arith, ==_refl row.event_uuid),
      )
    ]

module _ (t : TextOps) (rules : List ClassificationRule) (skew : Bool) (device : Device) where
  receive_event-valid :
      (event : Event) (db : Db) (i : ValidatedInterval) (o : Option ℕ × Bool)
      → validate_interval t event.ts_start event.ts_end
          (classify_result t event.content rules).state
        ≡ ok i
      → (owner device event db).0 ≡ ok o
      → receive_event t rules skew device event db
        ≡ insert_event (new_event t rules skew device event i o) (owner device event db).1
  unfolding receive_event
  receive_event-valid event db i o valid owned = ground (arith, valid, owned)

  receive_event-invalid :
      (event : Event) (db : Db) (e : Error)
      → validate_interval t event.ts_start event.ts_end
          (classify_result t event.content rules).state
        ≡ err e
      → receive_event t rules skew device event db ≡ (err e, db)
  unfolding receive_event
  receive_event-invalid event db e invalid = ground (arith, invalid)

  receive_event-ok :
      (event : Event) (db db' : Db) (n : ℕ)
      → receive_event t rules skew device event db ≡ (ok n, db')
      → (n ≤ 1) × Grows db db' × Settled t rules device.id event db'
  unfolding new_event
  receive_event-ok event db db' n h =
      elim (Result-cases (
        validate_interval t event.ts_start event.ts_end
          (classify_result t event.content rules).state)) [
            | inr (e, invalid) ↦ absurd (cc (receive_event-invalid event db e invalid, h))
            | inl (i, valid) ↦
                let (a, account) = owner-Adds device event db in
                let db₁ = (owner device event db).1 in
                let row = new_event t rules skew device event i a.answer in
                let e = receive_event-valid event db i a.answer valid a.ok_answer in
                let (m, answer, le, g, stored) = insert_event-ok row db₁ in
                let same : (insert_event row db₁) ≡ (ok n, db') = sym e ∙ h in
                let same_db : (insert_event row db₁).1 ≡ db' = ap (λ x. x.1) same in
                (
                  ground (arith, ap (λ x. x.0) same, answer, le),
                  subst (Grows db) same_db (Grows-trans db db₁ _ a.grows g),
                  subst (Settled t rules device.id event) same_db (record {
                    interval = i;
                    valid = valid;
                    account = moved db₁ _ g (filled event.windows_sid) account;
                    stored = stored;
                  }),
                )
          ]
    where
      moved :
          (a b : Db)
          → Grows a b
          → (o : Option String) → HasAccount device.id o a
          → HasAccount device.id o b
      moved a b g none k = tt
      moved a b g (some sid) k = g.accounts device.id sid k

  owner-Settled :
      (event : Event) (db : Db)
      → HasAccount device.id (filled event.windows_sid) db
      → (o : Option ℕ × Bool) × (owner device event db ≡ (ok o, db))
  owner-Settled event db has = elim (Option-cases (filled event.windows_sid)) [
    | inl none_given ↦ ((device.employee_id, false), owner-none device event db none_given)
    | inr (sid, given) ↦
        let known = subst (λ o. HasAccount device.id o db) given has in
        elim (Option-cases (find? (is_account device.id sid) db.accounts)) [
          | inl missing ↦ absurd (ground (arith, known, missing))
          | inr (a, found) ↦
              let e = account_of-found device sid event.windows_username db a found in
              (
                (a.employee_id, is_none a.employee_id),
                owner-some device event db sid a given (ap (λ x. x.0) e)
                    ∙ ap (λ x. (ok (a.employee_id, is_none a.employee_id), x)) (ap (λ x. x.1) e),
              )
        ]
  ]

  receive_event-Settled :
      (event : Event) (db : Db)
      → Settled t rules device.id event db
      → receive_event t rules skew device event db ≡ (ok 0, db)
  unfolding insert_event new_event
  receive_event-Settled event db s =
      let (o, e) = owner-Settled event db s.account in
      receive_event-valid event db s.interval o s.valid (ap (λ x. x.0) e)
      ∙ ground (arith, ap (λ x. x.1) e, s.stored)

  pub receive_events-ok :
      (events : List Event) (db db' : Db) (n : ℕ)
      → receive_events t rules skew device events db ≡ (ok n, db')
      → (n ≤ length events) × Grows db db' × All (λ e. Settled t rules device.id e db') events
  unfolding receive_events
  receive_events-ok [] db db' n h =
      (ground (arith, h), subst (Grows db) (ap (λ x. x.1) h) (Grows-refl db), tt)
  receive_events-ok (event ∷ events) db db' n h =
      elim (outcome (receive_event t rules skew device event db)) [
        | inr (e, db₁, failed) ↦ absurd (ground (arith, h, failed))
        | inl (m, db₁, first) ↦ elim (outcome (receive_events t rules skew device events db₁)) [
          | inr (e, db₂, failed) ↦ absurd (ground (arith, h, first, failed))
          | inl (k, db₂, rest) ↦
              let (le, g, s) = receive_event-ok event db db₁ m first in
              let (les, gs, all) = receive_events-ok events db₁ db₂ k rest in
              subst
                (λ d.
                  (n ≤ length (event ∷ events))
                  × Grows db d
                  × All (λ e. Settled t rules device.id e d) (event ∷ events))
                {x = db₂} {y = db'} (ground (arith, h, first, rest))
                (
                  ground (arith, h, first, rest, le, les),
                  Grows-trans db db₁ db₂ g gs,
                  (Settled-Grows t rules device.id event db₁ db₂ gs s, all),
                )
        ]
      ]

  pub receive_events-Settled :
      (events : List Event) (db : Db)
      → All (λ e. Settled t rules device.id e db) events
      → receive_events t rules skew device events db ≡ (ok 0, db)
  unfolding receive_events
  receive_events-Settled [] db h = refl
  receive_events-Settled (event ∷ events) db h =
      ground (arith, receive_event-Settled event db h.0, receive_events-Settled events db h.1)
