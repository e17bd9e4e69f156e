-- ===== src/Screenshots/Upload.antt =====
-- screenshots.py: `authenticated_screenshot_device` and `upload_screenshot`.
use Prim.Native.String.{◌++◌ as concat}
use iskan.Prelude.{
  ℕ, ◌+◌, ◌==◌, leb, ltb, String, length, Bool, not, ◌&&◌, ◌||◌, List, [], ◌∷◌, map, Option, none,
  some, ⊤, select, is_none, is_some, or_else, if◌then◌else◌,
}
use iskan.Http.{Action, pure, gets, modify, raise_if, lift, ◌>>=◌, ◌>>◌}
use iskan.Http.Errors.{http, runtime_error, Result, ok, err}
use iskan.Security.Crypto.{Text}
use iskan.Screenshots.Form.{File, Upload, check_upload}
use iskan.Screenshots.{Screenshot, EventSpan, Db, phash_distance}

-- what the upload draws: the row's id, the object's name, and whether the storage takes the objects
pub record UploadRequest : Type 0 where
  pub fresh_id : ℕ
  pub fresh_name : String
  pub takes_image : Bool
  pub takes_thumbnail : Bool

-- what is needed of the device that uploads
pub record Sender : Type 0 where
  pub id : ℕ
  pub employee_id : Option ℕ
  pub is_approved : Bool

-- the end of `authenticated_screenshot_device`
unfoldable pub approved_sender : Sender → Action Db ⊤
approved_sender device =
    raise_if (not device.is_approved || is_none device.employee_id)
      (http 403 "Device is not approved")

-- `ORDER BY taken_at DESC LIMIT 1`
abbrev pub latest : List Screenshot → Option Screenshot
latest [] = none
latest (s ∷ ss) =
    let rest = latest ss in
    elim rest [ none ↦ some s | some r ↦ if ltb s.taken_at r.taken_at then some r else some s ]

-- a screenshot of the device's monitor with a hash
abbrev pub is_comparable : ℕ → ℕ → Screenshot → Bool
is_comparable device_id monitor s =
    (s.device_id == device_id) && (s.monitor_index == monitor) && is_some s.phash

-- the root of a screenshot that is at most three bits away
abbrev pub near : Text → Screenshot → Result (Option ℕ)
near phash previous = elim (phash_distance phash (or_else previous.phash [])) [
  | err e ↦ err e
  | ok d ↦ if leb d 3 then ok (some (or_else previous.duplicate_of_id previous.id)) else ok none
]

-- `duplicate_of_id`; a hash that is sent is not empty
abbrev pub duplicate_of : Option Text → ℕ → ℕ → List Screenshot → Result (Option ℕ)
duplicate_of none device_id monitor rows = ok none
duplicate_of (some phash) device_id monitor rows =
    elim (latest (select (is_comparable device_id monitor) rows)) [
      | none ↦ ok none
      | some previous ↦ near phash previous
    ]

-- `ORDER BY ts_start DESC LIMIT 1`
abbrev pub newest : List EventSpan → Option EventSpan
newest [] = none
newest (e ∷ es) =
    let rest = newest es in
    elim rest [ none ↦ some e | some r ↦ if ltb e.ts_start r.ts_start then some r else some e ]

abbrev pub span_id : Option EventSpan → Option ℕ
span_id none = none
span_id (some e) = some e.id

-- the event that the screenshot lies in
abbrev pub event_at : ℕ → ℕ → List EventSpan → Option ℕ
event_at device_id t es =
    span_id
      (newest (select (λ e. (e.device_id == device_id) && leb e.ts_start t && leb t e.ts_end) es))

-- the keys of a screenshot that has a file of its own
pub record Keys : Type 0 where
  pub storage_key : Option String
  pub thumb_key : Option String

-- the thumbnail's key; without one it is the image's
abbrev pub thumb_name : Option File → String → String → String
thumb_name none name extension = concat name extension
thumb_name (some f) name extension = concat (concat name ".thumb") extension

-- `put_bytes`, which the storage takes or refuses
abbrev pub put_bytes : String → Text → Bool → Action Db ⊤
put_bytes key content takes = do
  raise_if (not takes) (runtime_error "S3Error")
  modify (λ db. record db { stored = record { key = key; content = content } ∷ db.stored })

-- `if thumb_bytes:`; a thumbnail that was checked is not empty
abbrev pub put_thumbnail : Option File → String → UploadRequest → Action Db ⊤
put_thumbnail none extension req = pure tt
put_thumbnail (some f) extension req =
    put_bytes (thumb_name (some f) req.fresh_name extension) f.content req.takes_thumbnail

-- `if duplicate_of_id is None:`
unfoldable pub store_files : Option ℕ → Upload → String → UploadRequest → Action Db Keys
store_files (some root) u extension req = pure (record { storage_key = none; thumb_key = none })
store_files none u extension req = do
  put_bytes (concat req.fresh_name extension) u.image.content req.takes_image
  put_thumbnail u.thumbnail extension req
  pure (record {
    storage_key = some (concat req.fresh_name extension);
    thumb_key = some (thumb_name u.thumbnail req.fresh_name extension);
  })

-- `phash.lower()`
abbrev pub lower_hex : Text → Text
lower_hex = map (λ x. if leb b'A' x && leb x b'F' then x + 32 else x)

abbrev pub lower_phash : Option Text → Option Text
lower_phash none = none
lower_phash (some p) = some (lower_hex p)

abbrev pub new_screenshot :
    Upload → Sender → UploadRequest → Option ℕ → Keys → Option ℕ → Screenshot
new_screenshot u device req duplicate keys event = record {
  id = req.fresh_id;
  employee_id = device.employee_id;
  device_id = device.id;
  taken_at = u.taken_at.at;
  monitor_index = u.monitor_index;
  storage_key = keys.storage_key;
  thumb_key = keys.thumb_key;
  phash = lower_phash u.phash;
  duplicate_of_id = duplicate;
  activity_event_id = event;
  details = record u.details { size_bytes = length u.image.content };
}

-- `upload_screenshot`; it answers the row
unfoldable pub upload_screenshot : Upload → Sender → UploadRequest → Action Db Screenshot
upload_screenshot u device req = do
  approved_sender device
  extension ← lift (check_upload u)
  rows ← gets (λ db. db.screenshots)
  duplicate ← lift (duplicate_of u.phash device.id u.monitor_index rows)
  event ← gets (λ db. event_at device.id u.taken_at.at db.events)
  keys ← store_files duplicate u extension req
  let row = new_screenshot u device req duplicate keys event
  modify (λ db. record db { screenshots = row ∷ db.screenshots })
  pure row
