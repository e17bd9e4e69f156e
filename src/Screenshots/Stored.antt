-- ===== src/Screenshots/Stored.antt =====
-- What an upload does to the rows and to the storage.
use Prim.Native.String.{◌++◌ as concat}
use iskan.Prelude.{
  ℕ, ◌≡◌, refl, sym, ap, subst, ◌⊎◌, inl, inr, String, ◌=s◌, =s_iff, true, false, not, ◌||◌, List,
  ◌∷◌, Option, none, some, is_none, arith, Bool-cases, Option-cases,
}
use iskan.Http.Errors.{ok, Result-cases}
use iskan.Screenshots.{Object, Db}
use iskan.Screenshots.Form.{File, Upload, check_upload}
use iskan.Screenshots.Upload.{
  UploadRequest, Sender, approved_sender, Keys, thumb_name, duplicate_of, event_at, store_files,
  new_screenshot, upload_screenshot,
}
use iskan.Screenshots.Gallery.{is_stored}

pub check_upload-extension :
    (u : Upload) (e : String) → check_upload u ≡ ok e → (e ≡ ".webp") ⊎ (e ≡ ".jpg")
unfolding check_upload
check_upload-extension u e h = elim (Bool-cases (u.image.content_type =s "image/webp")) [
  | inl webp ↦ inl (ground (arith, h, webp))
  | inr other ↦ elim (Bool-cases (u.image.content_type =s "image/jpeg")) [
    | inl jpeg ↦ inr (ground (arith, h, other, jpeg))
    | inr neither ↦ absurd (ground (arith, h, other, neither))
  ]
]

abbrev pub no_keys : Keys
no_keys = record { storage_key = none; thumb_key = none }

-- the keys of a screenshot that is stored
abbrev pub image_key : UploadRequest → String → String
image_key req extension = concat req.fresh_name extension

abbrev pub thumbnail_key : Upload → UploadRequest → String → String
thumbnail_key u req extension = thumb_name u.thumbnail req.fresh_name extension

abbrev pub new_keys : Upload → UploadRequest → String → Keys
new_keys u req extension = record {
  storage_key = some (image_key req extension);
  thumb_key = some (thumbnail_key u req extension);
}

=s-refl : (s : String) → (s =s s) ≡ true
=s-refl s = (=s_iff s s).1 refl

-- The storage has what it had.
abbrev pub IsWider : List Object → List Object → Type 0
IsWider before after = (key : String) → is_stored before key ≡ true → is_stored after key ≡ true

-- what an upload does to the rows and to the storage
pub data Step (u : Upload) (device : Sender) (req : UploadRequest) (db : Db) : Db → Type 0 where
  refused :
      {db' : Db}
      → db'.screenshots ≡ db.screenshots
      → IsWider db.stored db'.stored
      → Step u device req db db'
  duplicated :
      {db' : Db} (id : ℕ) (event : Option ℕ)
      → duplicate_of u.phash device.id u.monitor_index db.screenshots ≡ ok (some id)
      → db'.screenshots ≡ new_screenshot u device req (some id) no_keys event ∷ db.screenshots
      → IsWider db.stored db'.stored
      → Step u device req db db'
  stored_new :
      {db' : Db} (e : String) (event : Option ℕ)
      → check_upload u ≡ ok e
      → db'.screenshots ≡ new_screenshot u device req none (new_keys u req e) event ∷ db.screenshots
      → is_stored db'.stored (image_key req e) ≡ true
      → is_stored db'.stored (thumbnail_key u req e) ≡ true
      → IsWider db.stored db'.stored
      → Step u device req db db'

put-IsWider : (o : Object) (os : List Object) → IsWider os (o ∷ os)
put-IsWider o os key h = ground (arith, h)

put_stored :
    (key : String) (o : Object) (os : List Object) → o.key ≡ key → is_stored (o ∷ os) key ≡ true
put_stored key o os e = ground (arith, (=s_iff o.key key).1 e)

same_stored : {before after : List Object} → after ≡ before → IsWider before after
same_stored e key h = subst (λ os. is_stored os key ≡ true) (sym e) h

module _ (u : Upload) (device : Sender) (req : UploadRequest) (db : Db) (e : String)
    (approved : (not device.is_approved || is_none device.employee_id) ≡ false)
    (good : check_upload u ≡ ok e)
    (root : duplicate_of u.phash device.id u.monitor_index db.screenshots ≡ ok none) where
  abbrev image : Object
  image = record { key = image_key req e; content = u.image.content }

  abbrev thumbnail : File → Object
  thumbnail f = record { key = concat (concat req.fresh_name ".thumb") e; content = f.content }

  abbrev result : Db
  result = (upload_screenshot u device req db).1

  abbrev event : Option ℕ
  event = event_at device.id u.taken_at.at db.events

  without_thumbnail :
      req.takes_image ≡ true
      → u.thumbnail ≡ none
      → result.screenshots
        ≡ new_screenshot u device req none (new_keys u req e) event ∷ db.screenshots
      → result.stored ≡ image ∷ db.stored
      → Step u device req db result
  without_thumbnail up alone rows objects =
      stored_new e event good rows
        (subst (λ os. is_stored os (image_key req e) ≡ true) (sym objects)
          (put_stored (image_key req e) image db.stored refl))
        (subst (λ os. is_stored os (thumbnail_key u req e) ≡ true) (sym objects)
          (put_stored (thumbnail_key u req e) image db.stored
            (ap (λ (t : Option File). thumb_name t req.fresh_name e) (sym alone))))
        (λ key h.
          subst (λ os. is_stored os key ≡ true) (sym objects) (put-IsWider image db.stored key h))

  with_thumbnail :
      (f : File)
      → u.thumbnail ≡ some f
      → result.screenshots
        ≡ new_screenshot u device req none (new_keys u req e) event ∷ db.screenshots
      → result.stored ≡ thumbnail f ∷ image ∷ db.stored
      → Step u device req db result
  with_thumbnail f there_is rows objects =
      stored_new e event good rows
        (subst (λ os. is_stored os (image_key req e) ≡ true) (sym objects)
          (put-IsWider (thumbnail f) (image ∷ db.stored) (image_key req e)
            (put_stored (image_key req e) image db.stored refl)))
        (subst (λ os. is_stored os (thumbnail_key u req e) ≡ true) (sym objects)
          (put_stored (thumbnail_key u req e) (thumbnail f) (image ∷ db.stored)
            (ap (λ (t : Option File). thumb_name t req.fresh_name e) (sym there_is))))
        (λ key h.
          subst (λ os. is_stored os key ≡ true) (sym objects)
            (put-IsWider (thumbnail f) (image ∷ db.stored) key (put-IsWider image db.stored key h)))

  root-Step : Step u device req db result
  unfolding upload_screenshot approved_sender store_files
  root-Step = elim (Bool-cases req.takes_image) [
    | inr down ↦
        refused (ground (arith, approved, good, root, down))
          (same_stored (ground (arith, approved, good, root, down)))
    | inl up ↦ elim (Option-cases u.thumbnail) [
      | inl alone ↦
          without_thumbnail up alone (ground (arith, approved, good, root, up, alone))
            (ground (arith, approved, good, root, up, alone))
      | inr (f, there_is) ↦ elim (Bool-cases req.takes_thumbnail) [
        | inl takes ↦
            with_thumbnail f there_is (ground (arith, approved, good, root, up, there_is, takes))
              (ground (arith, approved, good, root, up, there_is, takes))
        | inr down ↦ refused (ground (arith, approved, good, root, up, there_is, down)) (λ key h.
            subst (λ os. is_stored os key ≡ true) {x = image ∷ db.stored}
              (ground (arith, approved, good, root, up, there_is, down))
              (put-IsWider image db.stored key h))
      ]
    ]
  ]

pub upload_screenshot-Step :
    (u : Upload) (device : Sender) (req : UploadRequest) (db : Db)
    → Step u device req db (upload_screenshot u device req db).1
unfolding upload_screenshot approved_sender store_files
upload_screenshot-Step u device req db =
    elim (Bool-cases (not device.is_approved || is_none device.employee_id)) [
      | inl stranger ↦ refused (ground (arith, stranger)) (same_stored (ground (arith, stranger)))
      | inr approved ↦ elim (Result-cases (check_upload u)) [
        | inr (e, bad) ↦
            refused (ground (arith, approved, bad)) (same_stored (ground (arith, approved, bad)))
        | inl (e, good) ↦
            elim (Result-cases (duplicate_of u.phash device.id u.monitor_index db.screenshots)) [
              | inr (x, bad) ↦
                  refused (ground (arith, approved, good, bad))
                    (same_stored (ground (arith, approved, good, bad)))
              | inl (none, root) ↦ root-Step u device req db e approved good root
              | inl (some id, dup) ↦
                  duplicated id (event_at device.id u.taken_at.at db.events) dup
                    (ground (arith, approved, good, dup))
                    (same_stored (ground (arith, approved, good, dup)))
            ]
      ]
    ]
