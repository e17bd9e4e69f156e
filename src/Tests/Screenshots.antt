-- ===== src/Tests/Screenshots.antt =====
-- The theorems on screenshots at concrete inputs.
use iskan.Prelude.{
  ℕ, ◌≡◌, refl, codes, String, true, false, List, [], ◌∷◌, Option, none, some, Member, arith,
  Member-All, IsKeyed-insert, IsKeyed-nil,
}
use iskan.Http.Errors.{ok}
use iskan.Security.Crypto.{Text}
use iskan.Screenshots.{Details, Screenshot, Object, Db}
use iskan.Screenshots.Form.{Upload}
use iskan.Screenshots.Upload.{UploadRequest, Sender, upload_screenshot}
use iskan.Screenshots.Retention.{is_key_of, purge_screenshots}
use iskan.Screenshots.Response.{media_type_of, view_of, screenshot_response}
use iskan.Screenshots.Linked.{IsLinked, IsBacked, HasOwn}
use iskan.Screenshots.Gallery.{is_stored, IsFiled, IsOwner, IsGallery, purge_screenshots-IsGallery}
use iskan.Screenshots.Files.{upload_screenshot-IsGallery}
use iskan.Screenshots.Shown.{IsSource, own_key, screenshot_response-finds}

abbrev details : Details
details = record {
  width = 1920;
  height = 1080;
  size_bytes = 3;
  is_blurred = false;
  state = none;
  category_id = none;
  app_name = none;
  url_domain = none;
}

abbrev hash : Text
hash = codes "0123456789abcdeF"

abbrev shot : ℕ → Option String → Option ℕ → Screenshot
shot id key duplicate = record {
  id = id;
  employee_id = some 11;
  device_id = 5;
  taken_at = 100;
  monitor_index = 0;
  storage_key = key;
  thumb_key = key;
  phash = some hash;
  duplicate_of_id = duplicate;
  activity_event_id = none;
  details = details;
}

-- a screenshot with a file, and a duplicate of it
abbrev rows : List Screenshot
rows = shot 2 none (some 1) ∷ shot 1 (some "a.webp") none ∷ []

abbrev db : Db
db = record {
  screenshots = rows;
  events = [];
  stored = record { key = "a.webp"; content = 82 ∷ 73 ∷ 70 ∷ 70 ∷ [] } ∷ [];
  views = [];
}

rows-IsLinked : IsLinked rows
rows-IsLinked = record {
  keyed =
      IsKeyed-insert (λ (s : Screenshot). s.id) (shot 2 none (some 1))
        (shot 1 (some "a.webp") none ∷ []) refl
        (IsKeyed-insert (λ (s : Screenshot). s.id) (shot 1 (some "a.webp") none) [] refl
          (IsKeyed-nil (λ (s : Screenshot). s.id)));
  own = λ s m. Member-All HasOwn {xs = rows} ((λ e. absurd (cc e)), ((λ e. (refl, refl)), tt)) m;
  backed = λ s m.
      Member-All (λ (x : Screenshot). IsBacked rows x.duplicate_of_id) {xs = rows}
        ((shot 1 (some "a.webp") none, refl, (refl, (refl, refl))), (tt, tt)) m;
}

-- the only object is that of the keys
rows-IsFiled : IsFiled rows db.stored
rows-IsFiled s key m =
    Member-All (λ (x : Screenshot). is_key_of x key ≡ true → is_stored db.stored key ≡ true)
      {xs = rows} ((λ k. absurd (cc k)), ((λ k. ground (arith, k)), tt)) m

-- only the first screenshot has keys
rows-IsOwner : (a : Screenshot) → Member a rows → IsOwner rows a
rows-IsOwner a m b key n i j =
    Member-All (λ (x : Screenshot). is_key_of x key ≡ true → b.id ≡ x.id) {xs = rows}
      (
        (λ k. absurd (cc k)),
        (
          (λ k.
              Member-All (λ (y : Screenshot). is_key_of y key ≡ true → y.id ≡ 1) {xs = rows}
                ((λ l. absurd (cc l)), ((λ l. refl), tt)) n j),
          tt,
        ),
      )
      m i

db-IsGallery : IsGallery db
db-IsGallery = record { linked = rows-IsLinked; filed = rows-IsFiled; owned = rows-IsOwner }

purge_screenshots-IsGallery_example :
    IsGallery (purge_screenshots (record { policies = []; places = [] }) (λ key. true) 3000000 db).1
purge_screenshots-IsGallery_example =
    purge_screenshots-IsGallery (record { policies = []; places = [] }) (λ key. true) 3000000 db
      db-IsGallery

abbrev upload : Upload
upload = record {
  image = record { content_type = "image/jpeg"; content = 255 ∷ 216 ∷ 255 ∷ [] };
  thumbnail = none;
  taken_at = record { at = 200; has_timezone = true };
  monitor_index = 0;
  phash = some hash;
  details = details;
}

abbrev sender : Sender
sender = record { id = 5; employee_id = some 11; is_approved = true }

abbrev req : UploadRequest
req = record { fresh_id = 3; fresh_name = "b"; takes_image = true; takes_thumbnail = true }

upload_screenshot-IsGallery_example : IsGallery (upload_screenshot upload sender req db).1
upload_screenshot-IsGallery_example =
    upload_screenshot-IsGallery upload sender req db refl refl db-IsGallery

screenshot_response-finds_example :
    (owner : Screenshot) × (o : Object) × Member owner rows
    × IsSource (shot 2 none (some 1)) owner
    × (own_key true owner ≡ some o.key)
    × Member o db.stored
    × (screenshot_response 2 true none 7 false db ≡ (
      ok (record { content = o.content; media_type = media_type_of o.key }),
      record db { views = view_of 7 false (shot 2 none (some 1)) ∷ db.views },
    ))
screenshot_response-finds_example =
    screenshot_response-finds 2 true none 7 false db (shot 2 none (some 1)) db-IsGallery refl refl
