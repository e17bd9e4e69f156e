-- ===== src/Devices/Tokens.antt =====
-- Which tokens speak for a device.
use iskan.Prelude.{
  ℕ, ◌≡◌, refl, inl, inr, ◌==◌, =s_iff, list_eq, list_eq_refl, false, not, ◌&&◌, List, [], ◌∷◌,
  ◌++◌, codes, Option, none, some, find?, find?_holds, update_where, find?-update_where_new,
  find?-update_where-none, All, Option-cases, arith,
}
use iskan.Http.Errors.{http, ok, err}
use iskan.Security.Crypto.{Text}
use iskan.Devices.{
  Device, Db, DeviceSettings, DeviceRequest, hash_device_token, has_hash, authenticated_device,
}
use iskan.Devices.Agent.{
  RegisterRequest, RegisterResponse, is_machine, reinstall, new_device, upsert_device,
  register_device,
}
use iskan.Devices.Admin.{revoke_device_token}

abbrev pub authorization : Text → Option Text
authorization token = some (codes "Bearer " ++ token)

-- the request of who has the token
authenticated :
    (cfg : DeviceSettings) (token : Text) (db : Db) (d : Device)
    → find? (has_hash (hash_device_token cfg token)) db.devices ≡ some d
    → authenticated_device cfg (authorization token) db ≡ (ok d, db)
unfolding authenticated_device
authenticated cfg token db d h = ground (arith, h)

rejected :
    (cfg : DeviceSettings) (token : Text) (db : Db)
    → find? (has_hash (hash_device_token cfg token)) db.devices ≡ none
    → authenticated_device cfg (authorization token) db
      ≡ (err (http 401 "Invalid device token"), db)
unfolding authenticated_device
rejected cfg token db h = ground (arith, h)

module _ (cfg : DeviceSettings) (p : RegisterRequest) (req : DeviceRequest) (db db' : Db)
    (r : RegisterResponse) where
  registered :
      register_device cfg p req db ≡ (ok r, db')
      → All
          (λ d.
            is_machine p.machine_guid d ≡ false
            → has_hash (hash_device_token cfg req.fresh_token) d ≡ false)
          db.devices
      → (d : Device) × (find? (has_hash (hash_device_token cfg req.fresh_token)) db'.devices
          ≡ some d)
        × (d.id ≡ r.device_id)
        × (d.machine_guid ≡ p.machine_guid)
        × (r.device_token ≡ req.fresh_token)
        × (r.approval_required ≡ not d.is_approved)
  unfolding register_device upsert_device
  registered h others =
      let hash = hash_device_token cfg req.fresh_token in
      elim (Option-cases (find? (is_machine p.machine_guid) db.devices)) [
        | inl missing ↦ (
          new_device p hash req.fresh_device,
          ground (arith, h, missing, list_eq_refl hash),
          ground (arith, h, missing),
          refl,
          ground (arith, h, missing),
          ground (arith, h, missing),
        )
        | inr (d, found) ↦
            let first =
              find?-update_where_new (has_hash hash) (is_machine p.machine_guid) (reinstall p hash)
                db.devices (λ x _. list_eq_refl hash) others found in
            (
              reinstall p hash d,
              ground (arith, h, found, first),
              ground (arith, h, found),
              (=s_iff d.machine_guid p.machine_guid).0
                  (find?_holds (is_machine p.machine_guid) db.devices d found),
              ground (arith, h, found),
              ground (arith, h, found),
            )
      ]

  -- The token that a registration answers speaks for the machine's device from then on, and the
  -- answer says whether that is approved, if no other machine's device has the token's hash.
  pub register_device-authenticated_device :
      register_device cfg p req db ≡ (ok r, db')
      → All
          (λ d.
            is_machine p.machine_guid d ≡ false
            → has_hash (hash_device_token cfg req.fresh_token) d ≡ false)
          db.devices
      → (d : Device) × (authenticated_device cfg (authorization r.device_token) db' ≡ (ok d, db'))
        × (d.id ≡ r.device_id)
        × (d.machine_guid ≡ p.machine_guid)
        × (r.approval_required ≡ not d.is_approved)
  register_device-authenticated_device h others =
      let (d, found, id, guid, token, approval) = registered h others in
      (d, rw token (authenticated cfg req.fresh_token db' d found), id, guid, approval)

revoked :
    (id : ℕ) (req : DeviceRequest) (db db' : Db)
    → revoke_device_token id req db ≡ (ok tt, db')
    → db'.devices
      ≡ update_where
          (λ d. d.id == id)
          (λ d. record d { token_hash = req.fresh_hash; is_approved = false })
          db.devices
unfolding revoke_device_token
revoked id req db db' h = ground (arith, h)

-- A token of which only the device has the hash is refused with 401 once the device's token is
-- revoked, and the device is no longer approved, if the hash that is drawn is not the token's.
pub revoke_device_token-authenticated_device :
    (cfg : DeviceSettings) (id : ℕ) (token : Text) (req : DeviceRequest) (db db' : Db)
    → revoke_device_token id req db ≡ (ok tt, db')
    → All (λ d. (d.id == id) ≡ false → has_hash (hash_device_token cfg token) d ≡ false) db.devices
    → list_eq req.fresh_hash (hash_device_token cfg token) ≡ false
    → (authenticated_device cfg (authorization token) db'
        ≡ (err (http 401 "Invalid device token"), db'))
      × (find? (λ d. (d.id == id) && d.is_approved) db'.devices ≡ none)
revoke_device_token-authenticated_device cfg id token req db db' h others fresh =
    let revoke = λ (d : Device). record d { token_hash = req.fresh_hash; is_approved = false } in
    let all = revoked id req db db' h in
    (
      rejected cfg token db' (
          rw all (
            find?-update_where-none (has_hash (hash_device_token cfg token)) (λ d. d.id == id)
              revoke db.devices (λ _ _. fresh) others)),
      rw all (
          find?-update_where-none (λ d. (d.id == id) && d.is_approved) (λ d. d.id == id) revoke
            db.devices (λ d _. ground arith) (same db.devices)),
    )
  where
    same :
        (ds : List Device)
        → All (λ d. (d.id == id) ≡ false → ((d.id == id) && d.is_approved) ≡ false) ds
    same [] = tt
    same (d ∷ ds) = ((λ e. ground (arith, e)), same ds)
