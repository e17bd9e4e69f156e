-- ===== src/Screenshots/Response.antt =====
-- screenshots.py: `screenshot_response`, which reads the file of a screenshot from the storage and
-- records who has seen it.
use iskan.Prelude.{
  ℕ, String, codes, list_eq, Bool, ◌||◌, List, [], ◌∷◌, Option, find?, if◌then◌else◌,
}
use iskan.Http.{Action, pure, modify, or_raise, ◌>>=◌, ◌>>◌}
use iskan.Http.Errors.{runtime_error}
use iskan.Security.Crypto.{Text}
use iskan.Screenshots.{Screenshot, Object, View, Db, has_key, screenshot_object}

-- `StreamingResponse`: the body and its type
pub record Response : Type 0 where
  pub content : Text
  pub media_type : String

-- `text.endswith(suffix)`
abbrev pub ends_with : Text → Text → Bool
ends_with suffix [] = list_eq [] suffix
ends_with suffix (x ∷ xs) = list_eq (x ∷ xs) suffix || ends_with suffix xs

abbrev pub media_type_of : String → String
media_type_of key = if ends_with (codes ".webp") (codes key) then "image/webp" else "image/jpeg"

-- `get_bytes`, which raises for an object that is not there
abbrev pub get_bytes : String → Action Db Object
get_bytes key db = or_raise (find? (has_key key) db.stored) (runtime_error "S3Error") db

abbrev pub view_of : ℕ → Bool → Screenshot → View
view_of user_id download row = record {
  user_id = user_id;
  action = if download then "screenshot_downloaded" else "screenshot_viewed";
  screenshot_id = row.id;
  target_employee_id = row.employee_id;
}

-- `screenshot_response`; the row's id is the one that was asked for
unfoldable pub screenshot_response : ℕ → Bool → Option (List ℕ) → ℕ → Bool → Action Db Response
screenshot_response screenshot_id thumbnail visible user_id download = do
  found ← screenshot_object screenshot_id visible thumbnail
  object ← get_bytes found.1
  modify (λ db. record db { views = view_of user_id download found.0 ∷ db.views })
  pure (record { content = object.content; media_type = media_type_of found.1 })
