-- ===== src/Screenshots/Gallery.antt =====
-- The screenshots of the table have files in the storage: their own, or those of the row they are
-- duplicates of.
use iskan.Prelude.{
  ℕ, ◌≡◌, refl, subst, inl, inr, ◌==◌, String, =s_iff, Bool, true, false, not, ◌&&◌, List, [], ◌∷◌,
  any, select, Member, here, there, Member-delete_where, Member-select, any-delete_where, arith,
  Bool-cases,
}
use iskan.Screenshots.{Screenshot, Object, Db, has_key}
use iskan.Screenshots.Retention.{
  Policies, expired, is_duplicate, refers_to, is_key_of, delete_duplicates, purge_root, purge_roots,
  purge_screenshots,
}
use iskan.Screenshots.Linked.{
  IsLinked, expired-Member, delete_duplicates-IsLinked, purge_root-IsLinked,
}

abbrev pub is_stored : List Object → String → Bool
is_stored objects key = any (has_key key) objects

-- Every key of a row is that of an object of the storage.
abbrev pub IsFiled : List Screenshot → List Object → Type 0
IsFiled rows objects =
    (s : Screenshot) (key : String)
    → Member s rows
    → is_key_of s key ≡ true
    → is_stored objects key ≡ true

-- No other row has a key of the row.
abbrev pub IsOwner : List Screenshot → Screenshot → Type 0
IsOwner rows a =
    (b : Screenshot) (key : String)
    → Member b rows
    → is_key_of a key ≡ true
    → is_key_of b key ≡ true
    → b.id ≡ a.id

-- The ids are keys of the table; a row is a duplicate of a row that is none, or has the keys of an
-- image and a thumbnail; the storage has the objects of all keys; no two rows have a key in common.
pub record IsGallery (db : Db) : Type 0 where
  pub linked : IsLinked db.screenshots
  pub filed : IsFiled db.screenshots db.stored
  pub owned : (a : Screenshot) → Member a db.screenshots → IsOwner db.screenshots a

-- a table of which all rows are rows of another
abbrev pub IsWithin : List Screenshot → List Screenshot → Type 0
IsWithin part whole = (s : Screenshot) → Member s part → Member s whole

-- the batch's rows that are still to be deleted: no row of the table has their keys
abbrev pub IsOwned : List Screenshot → List Screenshot → Type 0
IsOwned rows batch = (a : Screenshot) → Member a batch → IsOwner rows a

purge_root-IsWithin :
    (removes : String → Bool) (row : Screenshot) (db : Db)
    → IsWithin (purge_root removes row db).1.screenshots db.screenshots
unfolding purge_root
purge_root-IsWithin removes row db s m = elim (Bool-cases (any (refers_to row.id) db.screenshots)) [
  | inl used ↦ rw used at m
  | inr free ↦ (Member-delete_where (λ x. x.id == row.id) db.screenshots (rw free at m)).0
]

purge_root-IsFiled :
    (removes : String → Bool) (row : Screenshot) (db : Db)
    → IsOwner db.screenshots row
    → IsFiled db.screenshots db.stored
    → IsFiled (purge_root removes row db).1.screenshots (purge_root removes row db).1.stored
unfolding purge_root
purge_root-IsFiled removes row db own h s key m k =
    elim (Bool-cases (any (refers_to row.id) db.screenshots)) [
      | inl used ↦ rw used (h s key (rw used at m) k)
      | inr free ↦
          let (m', other) =
            Member-delete_where (λ x. x.id == row.id) db.screenshots (rw free at m) in
          rw free (
            any-delete_where (λ o. is_key_of row o.key && removes o.key) (has_key key) db.stored
              (λ o fits. spared other m' o ((=s_iff o.key key).0 fits)) (h s key m' k))
    ]
  where
    spared :
        (s.id == row.id) ≡ false
        → Member s db.screenshots
        → (o : Object) → o.key ≡ key
        → (is_key_of row o.key && removes o.key) ≡ false
    spared other m' o e = elim (Bool-cases (is_key_of row o.key)) [
      | inr no_key ↦ ground (arith, no_key)
      | inl its ↦
          absurd (ground (arith, other, own s key m' (subst (λ x. is_key_of row x ≡ true) e its) k))
    ]

purge_root-IsGallery :
    (removes : String → Bool) (row : Screenshot) (db : Db)
    → IsOwner db.screenshots row
    → IsGallery db
    → IsGallery (purge_root removes row db).1
purge_root-IsGallery removes row db own h = record {
  linked = purge_root-IsLinked removes row db h.linked;
  filed = purge_root-IsFiled removes row db own h.filed;
  owned = λ a m b key n i j.
      h.owned a (purge_root-IsWithin removes row db a m) b key
        (purge_root-IsWithin removes row db b n) i j;
}

purge_roots-IsGallery :
    (removes : String → Bool) (rows : List Screenshot) (db : Db)
    → IsOwned db.screenshots rows
    → IsGallery db
    → IsGallery (purge_roots removes rows db).1
unfolding purge_roots
purge_roots-IsGallery removes [] db own h = h
purge_roots-IsGallery removes (row ∷ rows) db own h =
    purge_roots-IsGallery removes rows (purge_root removes row db).1
      (λ a m b key n i j. own a (there m) b key (purge_root-IsWithin removes row db b n) i j)
      (purge_root-IsGallery removes row db (own row (here refl)) h)

delete_duplicates-IsWithin :
    (batch rows : List Screenshot) → IsWithin (delete_duplicates batch rows) rows
unfolding delete_duplicates
delete_duplicates-IsWithin batch rows s m = (Member-delete_where _ rows m).0

-- If ids are keys, every screenshot that is no duplicate has the keys of an image and a thumbnail
-- of which the storage has the objects, every duplicate names one that is none, and no two have a
-- key in common, a pass of the retention leaves that so, whatever it deletes and whichever removals
-- the storage refuses.
pub purge_screenshots-IsGallery :
    (policies : Policies) (removes : String → Bool) (now : ℕ) (db : Db)
    → IsGallery db
    → IsGallery (purge_screenshots policies removes now db).1
unfolding purge_screenshots
purge_screenshots-IsGallery policies removes now db h =
    let batch = expired policies now db.screenshots in
    let rest = delete_duplicates batch db.screenshots in
    let sub : IsWithin batch db.screenshots = λ b m. expired-Member policies now db.screenshots m in
    purge_roots-IsGallery removes (select (λ s. not (is_duplicate s)) batch)
      (record db { screenshots = rest })
      (λ a m b key n i j.
        h.owned a (sub a (Member-select (λ s. not (is_duplicate s)) batch m).0) b key
          (delete_duplicates-IsWithin batch db.screenshots b n) i j)
      (record {
        linked = delete_duplicates-IsLinked batch db.screenshots sub h.linked;
        filed = λ s key m k. h.filed s key (delete_duplicates-IsWithin batch db.screenshots s m) k;
        owned = λ a m b key n i j.
            h.owned a (delete_duplicates-IsWithin batch db.screenshots a m) b key
              (delete_duplicates-IsWithin batch db.screenshots b n) i j;
      })
