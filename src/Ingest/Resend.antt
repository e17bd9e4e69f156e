-- ===== src/Ingest/Resend.antt =====
-- A batch that is sent twice.
use iskan.Prelude.{
  ℕ, ◌+◌, ◌-◌, ◌*◌, ◌≡◌, refl, ap, subst, sym, ◌∙◌, inl, inr, ◌==◌, ltb, Bool, List, ◌∷◌, some,
  update_where, update_where-again, arith, All, All-map, length,
}
use iskan.Http.{outcome}
use iskan.Http.Errors.{Error, ok, err}
use iskan.Rules.{TextOps, ClassificationRule, classify_result}
use iskan.Ingest.{
  Event, Device, Db, ActivityBatchResponse, receive_events, store_batch, latest,
  receive_activity_batch,
}
use iskan.Ingest.Settled.{Settled, Settled-Grows}
use iskan.Ingest.Idempotence.{receive_events-ok, receive_events-Settled}

module _ (t : TextOps) (rules : List ClassificationRule) (event : Event) (events : List Event) where
  -- the device's row when the batch is stored
  touch : Device → Device
  touch d = record d {
    last_activity_state = some (classify_result t (latest event events).content rules).state;
  }

  touched : ℕ → Db → Db
  touched id db = record db { devices = update_where (λ d. d.id == id) touch db.devices }

  store_batch-ok :
      (skew : Bool) (device : Device) (db db₁ : Db) (n : ℕ)
      → receive_events t rules skew device (event ∷ events) db ≡ (ok n, db₁)
      → store_batch t rules skew device event events db ≡ (ok n, touched device.id db₁)
  unfolding store_batch touched touch
  store_batch-ok skew device db db₁ n h = ground (arith, h)

  store_batch-err :
      (skew : Bool) (device : Device) (db db₁ : Db) (e : Error)
      → receive_events t rules skew device (event ∷ events) db ≡ (err e, db₁)
      → (store_batch t rules skew device event events db).0 ≡ err e
  unfolding store_batch
  store_batch-err skew device db db₁ e h = ground (arith, h)

  touched-Settled :
      (id : ℕ) (db : Db)
      → All (λ e. Settled t rules id e db) (event ∷ events)
      → All (λ e. Settled t rules id e (touched id db)) (event ∷ events)
  unfolding touched
  touched-Settled id db =
      All-map (λ e. Settled t rules id e db) (λ e. Settled t rules id e (touched id db))
        (event ∷ events)
        (λ e s.
          Settled-Grows t rules id e db (touched id db)
            (record { events = λ _ h. h; accounts = λ _ _ h. h }) s)

  touched-again : (id : ℕ) (db : Db) → touched id (touched id db) ≡ touched id db
  unfolding touched touch
  touched-again id db =
      ap (λ ds. record db { devices = ds })
        (update_where-again (λ d. d.id == id) (λ d. d.id == id) touch (λ d. refl) (λ d. refl)
          db.devices)

  resent :
      (skew : Bool) (device : Device) (id : ℕ) (db : Db)
      → device.id ≡ id
      → All (λ e. Settled t rules id e db) (event ∷ events)
      → store_batch t rules skew device event events (touched id db) ≡ (ok 0, touched id db)
  resent skew device id db same s =
      let s' =
        subst (λ i. All (λ e. Settled t rules i e (touched id db)) (event ∷ events)) (sym same)
          (touched-Settled id db s) in
      store_batch-ok skew device (touched id db) (touched id db) 0
        (receive_events-Settled t rules skew device (event ∷ events) (touched id db) s')
      ∙ ap (λ d. (ok 0, d)) (ap (λ i. touched i (touched id db)) same ∙ touched-again id db)

  -- If a batch is stored, its accepted events and its duplicates are all its events; and if the
  -- same device sends the same batch again, at any time and with the rules unchanged, every event
  -- is a duplicate and no table changes.
  pub receive_activity_batch-again :
      (sent_at now : ℕ) (device : Device) (db db' : Db) (r : ActivityBatchResponse)
      → receive_activity_batch t rules sent_at now device event events db ≡ (ok r, db')
      → (r.accepted + r.duplicates ≡ length (event ∷ events))
        × ((sent_at' now' : ℕ) (device' : Device)
            → device'.id ≡ device.id
            → receive_activity_batch t rules sent_at' now' device' event events db'
              ≡ (ok (record { accepted = 0; duplicates = length (event ∷ events) }), db'))
  unfolding receive_activity_batch
  receive_activity_batch-again sent_at now device db db' r h =
      let skew = ltb (300 * 1000000) ((sent_at - now) + (now - sent_at)) in
      elim (outcome (receive_events t rules skew device (event ∷ events) db)) [
        | inr (e, db₁, failed) ↦
            absurd (ground (arith, h, store_batch-err skew device db db₁ e failed))
        | inl (n, db₁, stored) ↦
            let (le, _, all) =
              receive_events-ok t rules skew device (event ∷ events) db db₁ n stored in
            let e = store_batch-ok skew device db db₁ n stored in
            let same_db : touched device.id db₁ ≡ db' = ground (arith, h, e) in
            (
              ground (arith, h, e, le),
              λ sent_at' now' device' same.
                  subst
                    (λ d.
                      receive_activity_batch t rules sent_at' now' device' event events d
                      ≡ (ok (record { accepted = 0; duplicates = length (event ∷ events) }), d))
                    same_db
                    (ground (
                      arith,
                      resent (ltb (300 * 1000000) ((sent_at' - now') + (now' - sent_at'))) device'
                          device.id db₁ same all,
                    )),
            )
      ]
