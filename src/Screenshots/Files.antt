-- ===== src/Screenshots/Files.antt =====
-- An upload keeps that every screenshot has its files in the storage.
use Prim.Native.String.{◌++◌ as concat}
use iskan.Prelude.{
  ℕ, ◌≡◌, refl, sym, ap, subst, ◌⊎◌, inl, inr, ◌==◌, String, ◌=s◌, =s_iff, any, true, false, List,
  [], ◌∷◌, Option, none, some, find?, Member, here, there, Member-cons, any-Member, arith,
  Bool-cases,
}
use iskan.Screenshots.{Screenshot, Db}
use iskan.Screenshots.Form.{File, Upload}
use iskan.Screenshots.Upload.{UploadRequest, Sender, thumb_name, new_screenshot, upload_screenshot}
use iskan.Screenshots.Retention.{is_key_of}
use iskan.Screenshots.Linked.{IsLinked}
use iskan.Screenshots.Gallery.{is_stored, IsGallery}
use iskan.Screenshots.Insert.{duplicate_of-IsBacked, insert-IsLinked}
use iskan.Screenshots.Stored.{
  no_keys, image_key, thumbnail_key, new_keys, IsWider, Step, refused, duplicated, stored_new,
  check_upload-extension, upload_screenshot-Step,
}

-- the keys that can be made of a name
abbrev pub possible_keys : String → List String
possible_keys name =
    concat name ".webp"
    ∷ concat name ".jpg"
    ∷ concat (concat name ".thumb") ".webp"
    ∷ concat (concat name ".thumb") ".jpg"
    ∷ []

-- No row has a key that is made of the name.
abbrev pub IsNewName : String → List Screenshot → Type 0
IsNewName name rows = any (λ s. any (is_key_of s) (possible_keys name)) rows ≡ false

-- a key that is made of the name for an image or a thumbnail
image_key-Member :
    (req : UploadRequest) (e : String)
    → (e ≡ ".webp") ⊎ (e ≡ ".jpg")
    → Member (image_key req e) (possible_keys req.fresh_name)
image_key-Member req e (inl webp) = here (ap (concat req.fresh_name) (sym webp))
image_key-Member req e (inr jpg) = there (here (ap (concat req.fresh_name) (sym jpg)))

thumb_name-Member :
    (f : Option File) (name e : String)
    → (e ≡ ".webp") ⊎ (e ≡ ".jpg")
    → Member (thumb_name f name e) (possible_keys name)
thumb_name-Member none name e (inl webp) = here (ap (concat name) (sym webp))
thumb_name-Member none name e (inr jpg) = there (here (ap (concat name) (sym jpg)))
thumb_name-Member (some f) name e (inl webp) =
    there (there (here (ap (concat (concat name ".thumb")) (sym webp))))
thumb_name-Member (some f) name e (inr jpg) =
    there (there (there (here (ap (concat (concat name ".thumb")) (sym jpg)))))

IsNewName-is_key_of :
    (name : String) (rows : List Screenshot) (b : Screenshot) (key : String)
    → IsNewName name rows
    → Member b rows
    → Member key (possible_keys name)
    → is_key_of b key ≡ false
IsNewName-is_key_of name rows b key new m k = elim (Bool-cases (is_key_of b key)) [
  | inr its_not ↦ its_not
  | inl its ↦ absurd (
      cc (
        any-Member (λ s. any (is_key_of s) (possible_keys name)) rows m
            (any-Member (is_key_of b) (possible_keys name) k its),
        new,
      ))
]

module _ (db db' : Db) (row : Screenshot) where
  -- the row is inserted, with keys that the storage has and no other row
  insert-IsGallery :
      db'.screenshots ≡ row ∷ db.screenshots
      → IsLinked (row ∷ db.screenshots)
      → IsWider db.stored db'.stored
      → ((key : String) → is_key_of row key ≡ true → is_stored db'.stored key ≡ true)
      → ((key : String) (b : Screenshot)
          → Member b db.screenshots
          → is_key_of row key ≡ true
          → is_key_of b key ≡ false)
      → IsGallery db
      → IsGallery db'
  insert-IsGallery rows linked wider stored new h = record {
    linked = subst IsLinked (sym rows) linked;
    filed = λ s key m k. elim (Member-cons (inserted s m)) [
      | inl e ↦ stored key (subst (λ x. is_key_of x key ≡ true) (sym e) k)
      | inr m' ↦ wider key (h.filed s key m' k)
    ];
    owned = λ a m b key n i j. elim (Member-cons (inserted a m)) [
      | inl e ↦ elim (Member-cons (inserted b n)) [
        | inl e' ↦ let same : b ≡ a = cc (e, e') in ap (λ (x : Screenshot). x.id) same
        | inr n' ↦ absurd (cc (new key b n' (subst (λ x. is_key_of x key ≡ true) (sym e) i), j))
      ]
      | inr m' ↦ elim (Member-cons (inserted b n)) [
        | inl e' ↦ absurd (cc (new key a m' (subst (λ x. is_key_of x key ≡ true) (sym e') j), i))
        | inr n' ↦ h.owned a m' b key n' i j
      ]
    ];
  }
    where
      inserted : (s : Screenshot) → Member s db'.screenshots → Member s (row ∷ db.screenshots)
      inserted s m = subst (λ xs. Member s xs) rows m

-- the rows stay, and the storage loses nothing
same-IsGallery :
    (db db' : Db)
    → db'.screenshots ≡ db.screenshots
    → IsWider db.stored db'.stored
    → IsGallery db
    → IsGallery db'
same-IsGallery db db' rows wider h = record {
  linked = subst IsLinked (sym rows) h.linked;
  filed = λ s key m k. wider key (h.filed s key (subst (λ xs. Member s xs) rows m) k);
  owned = λ a m b key n i j.
      h.owned a (subst (λ xs. Member a xs) rows m) b key (subst (λ xs. Member b xs) rows n) i j;
}

-- the keys of a new screenshot
new_keys-is_key_of :
    (u : Upload) (device : Sender) (req : UploadRequest) (e : String) (event : Option ℕ)
    (key : String)
    → is_key_of (new_screenshot u device req none (new_keys u req e) event) key ≡ true
    → (image_key req e ≡ key) ⊎ (thumbnail_key u req e ≡ key)
new_keys-is_key_of u device req e event key k = elim (Bool-cases (image_key req e =s key)) [
  | inl image ↦ inl ((=s_iff (image_key req e) key).0 image)
  | inr other ↦ inr ((=s_iff (thumbnail_key u req e) key).0 (ground (arith, k, other)))
]

-- An upload, whatever it answers and whichever of the two objects the storage takes, keeps that ids
-- are keys, that every screenshot which is no duplicate has the keys of an image and a thumbnail of
-- which the storage has the objects, that every duplicate names one that is none, and that no two
-- have a key in common; if the id that it draws is new, and no screenshot has a key made of the name.
pub upload_screenshot-IsGallery :
    (u : Upload) (device : Sender) (req : UploadRequest) (db : Db)
    → find? (λ x. x.id == req.fresh_id) db.screenshots ≡ none
    → IsNewName req.fresh_name db.screenshots
    → IsGallery db
    → IsGallery (upload_screenshot u device req db).1
upload_screenshot-IsGallery u device req db fresh new h =
    go (upload_screenshot-Step u device req db)
  where
    go : {db' : Db} → Step u device req db db' → IsGallery db'
    go {db' = db'} (refused rows wider) = same-IsGallery db db' rows wider h
    go {db' = db'} (duplicated id event dup rows wider) =
        let row = new_screenshot u device req (some id) no_keys event in
        insert-IsGallery db db' row rows
          (insert-IsLinked row db.screenshots fresh (λ k. absurd (cc k))
            (duplicate_of-IsBacked u.phash device.id u.monitor_index (some id) db.screenshots
              h.linked dup)
            h.linked)
          wider (λ key k. absurd (cc k)) (λ key b m k. absurd (cc k)) h
    go {db' = db'} (stored_new e event good rows image thumbnail wider) =
        let row = new_screenshot u device req none (new_keys u req e) event in
        let extension = check_upload-extension u e good in
        insert-IsGallery db db' row rows
          (insert-IsLinked row db.screenshots fresh (λ _. (refl, refl)) tt h.linked) wider
          (λ key k. elim (new_keys-is_key_of u device req e event key k) [
            | inl its ↦ subst (λ x. is_stored db'.stored x ≡ true) its image
            | inr its ↦ subst (λ x. is_stored db'.stored x ≡ true) its thumbnail
          ])
          (λ key b m k.
            IsNewName-is_key_of req.fresh_name db.screenshots b key new m
              (elim (new_keys-is_key_of u device req e event key k) [
                | inl its ↦
                    subst (λ x. Member x (possible_keys req.fresh_name)) its
                      (image_key-Member req e extension)
                | inr its ↦
                    subst (λ x. Member x (possible_keys req.fresh_name)) its
                      (thumb_name-Member u.thumbnail req.fresh_name e extension)
              ]))
          h
