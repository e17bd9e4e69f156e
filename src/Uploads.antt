-- ===== src/Uploads.antt =====
-- upload_validation.py: the signatures of the files that are taken.
use iskan.Prelude.{
  ℕ, zero, suc, ◌==◌, leb, String, ◌=s◌, Bool, true, false, ◌&&◌, [], ◌∷◌, codes, length,
  if◌then◌else◌,
}
use iskan.Security.Crypto.{Text}

-- `content.startswith(prefix)`
abbrev pub starts_with : Text → Text → Bool
starts_with [] content = true
starts_with (x ∷ xs) [] = false
starts_with (x ∷ xs) (y ∷ ys) = (x == y) && starts_with xs ys

-- `content[n:]`
abbrev pub drop : ℕ → Text → Text
drop zero content = content
drop (suc n) [] = []
drop (suc n) (x ∷ xs) = drop n xs

-- `has_valid_signature`; `content[8:12] == b"WEBP"` of at least twelve bytes
unfoldable pub has_valid_signature : String → Text → Bool
has_valid_signature content_type content =
    if content_type =s "application/pdf"
    then starts_with (codes "%PDF-") content
    else (if content_type =s "image/jpeg"
        then starts_with (255 ∷ 216 ∷ 255 ∷ []) content
        else (if content_type =s "image/png"
            then starts_with (137 ∷ 80 ∷ 78 ∷ 71 ∷ 13 ∷ 10 ∷ 26 ∷ 10 ∷ []) content
            else (if content_type =s "image/webp"
                then leb 12 (length content)
                  && starts_with (codes "RIFF") content
                  && starts_with (codes "WEBP") (drop 8 content)
                else (if content_type =s "application/zip"
                    then starts_with (80 ∷ 75 ∷ 3 ∷ 4 ∷ []) content
                    else (if content_type =s "application/x-msi"
                        then starts_with (208 ∷ 207 ∷ 17 ∷ 224 ∷ 161 ∷ 177 ∷ 26 ∷ 225 ∷ []) content
                        else false)))))
