-- ===== src/Screenshots/Shown.antt =====
-- What a screenshot shows is in the storage.
use iskan.Prelude.{
  ℕ, ◌≡◌, refl, ap, sym, subst, ◌⊎◌, inl, inr, ◌==◌, ==_iff, find?_holds, String, ◌=s◌, =s_iff,
  Bool, true, false, List, [], ◌∷◌, Option, none, some, find?, find?-Member, Member, is_some, arith,
  Bool-cases, Option-cases, if◌then◌else◌,
}
use iskan.Auth.Scope.{sees}
use iskan.Http.Errors.{ok}
use iskan.Screenshots.{
  Screenshot, Object, Db, has_key, resolved_storage_key, resolved_thumb_key, screenshot_object,
}
use iskan.Screenshots.Retention.{is_key_of}
use iskan.Screenshots.Linked.{HasKeys, IsBacked, HasOwn, IsLinked}
use iskan.Screenshots.Gallery.{is_stored, IsGallery}
use iskan.Screenshots.Response.{media_type_of, view_of, screenshot_response}

present : (o : Option String) → is_some o ≡ true → (key : String) × (o ≡ some key)
present none h = absurd (cc h)
present (some key) h = (key, refl)

-- `resolved_thumb_key` or `resolved_storage_key`
abbrev resolved_key : Bool → Screenshot → List Screenshot → Option String
resolved_key thumbnail s rows =
    if thumbnail then resolved_thumb_key s rows else resolved_storage_key s rows

=s-refl : (s : String) → (s =s s) ≡ true
=s-refl s = (=s_iff s s).1 refl

storage_key-is_key_of :
    (s : Screenshot) (key : String) → s.storage_key ≡ some key → is_key_of s key ≡ true
storage_key-is_key_of s key h = ground (arith, h, =s-refl key)

thumb_key-is_key_of :
    (s : Screenshot) (key : String) → s.thumb_key ≡ some key → is_key_of s key ≡ true
thumb_key-is_key_of s key h = elim (Option-cases s.storage_key) [
  | inl missing ↦ ground (arith, h, missing, =s-refl key)
  | inr (k, own) ↦ ground (arith, h, own, =s-refl key)
]

-- the key that a row has itself
abbrev pub own_key : Bool → Screenshot → Option String
own_key thumbnail s = if thumbnail then s.thumb_key else s.storage_key

own_key-is_key_of :
    (b : Bool) (s : Screenshot) (key : String) → own_key b s ≡ some key → is_key_of s key ≡ true
own_key-is_key_of true s key h = thumb_key-is_key_of s key h
own_key-is_key_of false s key h = storage_key-is_key_of s key h

own_key-HasKeys : (b : Bool) (s : Screenshot) → HasKeys s → is_some (own_key b s) ≡ true
own_key-HasKeys true s h = h.1
own_key-HasKeys false s h = h.0

resolved_own :
    (b : Bool) (s : Screenshot) (rows : List Screenshot) (key : String)
    → own_key b s ≡ some key
    → resolved_key b s rows ≡ some key
resolved_own true s rows key h = ground (arith, h)
resolved_own false s rows key h = ground (arith, h)

resolved_source :
    (b : Bool) (s root : Screenshot) (rows : List Screenshot) (id : ℕ) (key : String)
    → own_key b s ≡ none
    → s.duplicate_of_id ≡ some id
    → find? (λ x. x.id == id) rows ≡ some root
    → own_key b root ≡ some key
    → resolved_key b s rows ≡ some key
resolved_source true s root rows id key missing dup found has =
    ground (arith, missing, dup, found, has)
resolved_source false s root rows id key missing dup found has =
    ground (arith, missing, dup, found, has)

-- The row is the screenshot's, or that of the one it is a duplicate of.
abbrev pub IsSource : Screenshot → Screenshot → Type 0
IsSource s owner = (owner ≡ s) ⊎ (s.duplicate_of_id ≡ some owner.id)

abbrev Owner : Bool → Screenshot → List Screenshot → Type 0
Owner b s rows =
    (owner : Screenshot) × (key : String) × Member owner rows
    × IsSource s owner
    × (own_key b owner ≡ some key)
    × (resolved_key b s rows ≡ some key)

sourced :
    (b : Bool) (s : Screenshot) (rows : List Screenshot) (d : Option ℕ)
    → s.duplicate_of_id ≡ d
    → own_key b s ≡ none
    → HasOwn s
    → IsBacked rows d
    → Owner b s rows
sourced b s rows none root missing own backed =
    absurd (cc (own_key-HasKeys b s (own root), ap (λ (o : Option String). is_some o) missing))
sourced b s rows (some id) dup missing own (root, found, is) =
    let (key, has) = present (own_key b root) (own_key-HasKeys b root is.1) in
    let same : root.id ≡ id =
      (==_iff root.id id).0 (find?_holds (λ x. x.id == id) rows root found) in
    (
      root,
      key,
      find?-Member (λ x. x.id == id) rows root found,
      inr (cc (dup, same)),
      has,
      resolved_source b s root rows id key missing dup found has,
    )

found_for :
    (b : Bool) (s : Screenshot) (rows : List Screenshot)
    → IsLinked rows
    → Member s rows
    → Owner b s rows
found_for b s rows h m = elim (Option-cases (own_key b s)) [
  | inr (key, own) ↦ (s, key, m, inl refl, own, resolved_own b s rows key own)
  | inl missing ↦ sourced b s rows s.duplicate_of_id refl missing (h.own s m) (h.backed s m)
]

-- no employee, or one that is seen
abbrev pub is_visible : Option (List ℕ) → Option ℕ → Bool
is_visible visible none = true
is_visible visible (some e) = sees visible e

opened :
    (id : ℕ) (b : Bool) (visible : Option (List ℕ)) (db : Db) (s : Screenshot) (key : String)
    → find? (λ x. x.id == id) db.screenshots ≡ some s
    → is_visible visible s.employee_id ≡ true
    → resolved_key b s db.screenshots ≡ some key
    → screenshot_object id visible b db ≡ (ok (s, key), db)
unfolding screenshot_object
opened id b visible db s key found seen has = elim (Option-cases s.employee_id) [
  | inl nobody ↦ ground (arith, found, has, nobody)
  | inr (e, some_one) ↦ ground (arith, found, has, some_one, seen)
]

stored_object :
    (key : String) (objects : List Object)
    → is_stored objects key ≡ true
    → (o : Object) × (find? (has_key key) objects ≡ some o) × (o.key ≡ key)
stored_object key [] h = absurd (cc h)
stored_object key (o ∷ os) h = elim (Bool-cases (o.key =s key)) [
  | inl hit ↦ (o, ground (arith, hit), (=s_iff o.key key).0 hit)
  | inr miss ↦
      let (p, found, e) = stored_object key os (ground (arith, h, miss)) in
      (p, ground (arith, miss, found), e)
]

answered :
    (id : ℕ) (b : Bool) (visible : Option (List ℕ)) (user : ℕ) (download : Bool) (db : Db)
    (s : Screenshot) (key : String) (o : Object)
    → screenshot_object id visible b db ≡ (ok (s, key), db)
    → find? (has_key key) db.stored ≡ some o
    → screenshot_response id b visible user download db ≡ (
      ok (record { content = o.content; media_type = media_type_of key }),
      record db { views = view_of user download s ∷ db.views },
    )
unfolding screenshot_response
answered id b visible user download db s key o opens found = ground (arith, opens, found)

-- In a table and a storage as the uploads and the retention leave them, a request for the image or
-- the thumbnail of a screenshot, of an employee who is seen or of none, is always answered with the
-- content of an object of the storage: that under the screenshot's own key, or under the key of the
-- screenshot that it is a duplicate of. The viewing is recorded, and nothing else changes.
pub screenshot_response-finds :
    (id : ℕ) (thumbnail : Bool) (visible : Option (List ℕ)) (user : ℕ) (download : Bool) (db : Db)
    (s : Screenshot)
    → IsGallery db
    → find? (λ x. x.id == id) db.screenshots ≡ some s
    → is_visible visible s.employee_id ≡ true
    → (owner : Screenshot) × (o : Object) × Member owner db.screenshots
      × IsSource s owner
      × (own_key thumbnail owner ≡ some o.key)
      × Member o db.stored
      × (screenshot_response id thumbnail visible user download db ≡ (
        ok (record { content = o.content; media_type = media_type_of o.key }),
        record db { views = view_of user download s ∷ db.views },
      ))
screenshot_response-finds id thumbnail visible user download db s h found seen =
    let (owner, key, m, source, own, resolves) =
      found_for thumbnail s db.screenshots h.linked
        (find?-Member (λ x. x.id == id) db.screenshots s found) in
    let (o, there_is, e) =
      stored_object key db.stored
        (h.filed owner key m (own_key-is_key_of thumbnail owner key own)) in
    let opens = opened id thumbnail visible db s o.key found seen (cc (resolves, e)) in
    (
      owner,
      o,
      m,
      source,
      cc (own, e),
      find?-Member (has_key key) db.stored o there_is,
      answered id thumbnail visible user download db s o.key o opens
          (subst (λ k. find? (has_key k) db.stored ≡ some o) (sym e) there_is),
    )
