-- ===== src/Screenshots/Form.antt =====
-- screenshots.py: the form of `upload_screenshot` and what it is checked for.
use iskan.Prelude.{
  ℕ, ◌*◌, ltb, String, ◌=s◌, one_of, length, Bool, false, not, [], ◌∷◌, Option, none, some, ⊤,
  is_none, if◌then◌else◌,
}
use iskan.Http.Errors.{http, Result, ok, raise_if, or_raise, ◌>>=◌, ◌>>◌}
use iskan.Security.Crypto.{Text}
use iskan.Activity.{Moment}
use iskan.Uploads.{has_valid_signature}
use iskan.Screenshots.{Details, is_phash}

-- a file of the form: its type and its bytes
pub record File : Type 0 where
  pub content_type : String
  pub content : Text

-- the fields of the form; the sizes in `details` but `size_bytes` are checked by the form
pub record Upload : Type 0 where
  pub image : File
  pub thumbnail : Option File
  pub taken_at : Moment
  pub monitor_index : ℕ
  pub phash : Option Text
  pub details : Details

-- `ALLOWED_IMAGE_TYPES`
abbrev pub extension_of : String → Option String
extension_of content_type =
    if content_type =s "image/webp"
    then some ".webp"
    else (if content_type =s "image/jpeg" then some ".jpg" else none)

abbrev pub is_disabled : Option String → Bool
is_disabled none = false
is_disabled (some s) = one_of s ("BREAK" ∷ "LOCKED" ∷ "ABSENCE" ∷ [])

abbrev pub is_invalid_phash : Option Text → Bool
is_invalid_phash none = false
is_invalid_phash (some p) = not (is_phash p)

-- `MAX_SCREENSHOT_BYTES` and `MAX_THUMB_BYTES`
abbrev pub max_screenshot_bytes : ℕ
max_screenshot_bytes = 10 * 1024 * 1024

abbrev pub max_thumb_bytes : ℕ
max_thumb_bytes = 1 * 1024 * 1024

-- `if thumbnail is not None:`
unfoldable pub check_thumbnail : Option File → Result ⊤
check_thumbnail none = ok tt
check_thumbnail (some f) = do
  raise_if (is_none (extension_of f.content_type)) (http 415 "Invalid thumbnail type")
  raise_if (ltb max_thumb_bytes (length f.content)) (http 413 "Thumbnail is too large")
  raise_if (not (has_valid_signature f.content_type f.content))
      (http 415 "Thumbnail signature does not match MIME type")

-- the checks of the form; it answers the image's extension
unfoldable pub check_upload : Upload → Result String
check_upload u = do
  raise_if (not u.taken_at.has_timezone) (http 422 "taken_at must include timezone")
  raise_if (is_disabled u.details.state) (http 422 "Screenshots are disabled for this state")
  extension ← or_raise (extension_of u.image.content_type) (http 415 "Only WebP or JPEG is allowed")
  raise_if (is_invalid_phash u.phash) (http 422 "Invalid pHash")
  raise_if (ltb max_screenshot_bytes (length u.image.content)) (http 413 "Screenshot is too large")
  raise_if (not (has_valid_signature u.image.content_type u.image.content))
      (http 415 "Image signature does not match MIME type")
  check_thumbnail u.thumbnail
  ok extension
