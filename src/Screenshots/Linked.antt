-- ===== src/Screenshots/Linked.antt =====
-- The rows of screenshots have the keys of files: their own, or those of the row they are
-- duplicates of.
use iskan.Prelude.{
  ℕ, zero, suc, ◌≡◌, refl, subst, ◌⊎◌, inl, inr, ◌==◌, ==_iff, String, Bool, true, false, List, [],
  ◌∷◌, any, Option, none, some, find?, find?-Member, find?_holds, select, delete_where, Member,
  here, there, Member-cons, Member-delete_where, Member-select, any-Member, find?-delete_where,
  IsKeyed, IsKeyed-find?, IsKeyed-delete_where, is_some, arith, Bool-cases,
}
use iskan.Auth.Scope.{is_in}
use iskan.Screenshots.{Screenshot, Db}
use iskan.Screenshots.Retention.{
  is_before, insert_by, in_order, limit, expired, is_expired, Policies, is_duplicate, ids,
  delete_duplicates, refers_to, purge_root,
}

-- A row has the keys of an image and of a thumbnail.
abbrev pub HasKeys : Screenshot → Type 0
HasKeys s = (is_some s.storage_key ≡ true) × (is_some s.thumb_key ≡ true)

-- A row is no duplicate, and has them.
abbrev pub IsRoot : Screenshot → Type 0
IsRoot s = (s.duplicate_of_id ≡ none) × HasKeys s

-- A row that names a root that is there.
abbrev pub IsBacked : List Screenshot → Option ℕ → Type 0
IsBacked rows none = Unit
IsBacked rows (some id) =
    (root : Screenshot) × (find? (λ x. x.id == id) rows ≡ some root) × IsRoot root

abbrev pub HasOwn : Screenshot → Type 0
HasOwn s = s.duplicate_of_id ≡ none → HasKeys s

pub record IsLinked (rows : List Screenshot) : Type 0 where
  pub keyed : IsKeyed (λ s. s.id) rows
  pub own : (s : Screenshot) → Member s rows → HasOwn s
  pub backed : (s : Screenshot) → Member s rows → IsBacked rows s.duplicate_of_id

-- no row that stays is a duplicate of a row that the test deletes
abbrev pub IsSafe : (Screenshot → Bool) → List Screenshot → Type 0
IsSafe q rows =
    (s : Screenshot) (id : ℕ)
    → Member s rows
    → s.duplicate_of_id ≡ some id
    → (root : Screenshot) → find? (λ x. x.id == id) rows ≡ some root
    → IsRoot root
    → q root ≡ false

IsBacked-delete_where :
    (q : Screenshot → Bool) (rows : List Screenshot) (d : Option ℕ)
    → IsBacked rows d
    → ((id : ℕ)
        → d ≡ some id
        → (root : Screenshot) → find? (λ x. x.id == id) rows ≡ some root
        → IsRoot root
        → q root ≡ false)
    → IsBacked (delete_where q rows) d
IsBacked-delete_where q rows none b safe = tt
IsBacked-delete_where q rows (some id) (root, found, is) safe =
    (root, find?-delete_where q (λ x. x.id == id) rows found (safe id refl root found is), is)

delete_where-IsLinked :
    (q : Screenshot → Bool) (rows : List Screenshot)
    → IsSafe q rows
    → IsLinked rows
    → IsLinked (delete_where q rows)
delete_where-IsLinked q rows safe h = record {
  keyed = IsKeyed-delete_where (λ s. s.id) q rows h.keyed;
  own = λ s m. h.own s (Member-delete_where q rows m).0;
  backed = λ s m.
      let (m', stays) = Member-delete_where q rows m in
      IsBacked-delete_where q rows s.duplicate_of_id (h.backed s m')
        (λ id e root found is. safe s id m' e root found is);
}

-- where ids are keys, rows of one id are one row
IsKeyed-same :
    (rows : List Screenshot) (a b : Screenshot)
    → IsKeyed (λ s. s.id) rows
    → Member a rows
    → Member b rows
    → a.id ≡ b.id
    → a ≡ b
IsKeyed-same rows a b keyed ma mb same = cc (
  IsKeyed-find? (λ s. s.id) rows b keyed mb,
  subst (λ n. find? (λ x. x.id == n) rows ≡ some a) same
      (IsKeyed-find? (λ s. s.id) rows a keyed ma),
)

insert_by-Member :
    (s : Screenshot) {a : Screenshot} (rs : List Screenshot)
    → Member a (insert_by s rs)
    → (s ≡ a) ⊎ Member a rs
unfolding insert_by
insert_by-Member s [] m = Member-cons m
insert_by-Member s (r ∷ rs) m = elim (Bool-cases (is_before s r)) [
  | inl first ↦ Member-cons (rw first at m)
  | inr later ↦ elim (Member-cons (rw later at m)) [
    | inl e ↦ inr (here e)
    | inr k ↦ elim (insert_by-Member s rs k) [ inl e ↦ inl e | inr k' ↦ inr (there k') ]
  ]
]

in_order-Member : {a : Screenshot} (rs : List Screenshot) → Member a (in_order rs) → Member a rs
unfolding in_order
in_order-Member [] m = m
in_order-Member (r ∷ rs) m = elim (insert_by-Member r (in_order rs) m) [
  | inl e ↦ here e
  | inr k ↦ there (in_order-Member rs k)
]

limit-Member : (n : ℕ) {a : Screenshot} (rs : List Screenshot) → Member a (limit n rs) → Member a rs
unfolding limit
limit-Member zero rs m = elim m [ ]
limit-Member (suc n) [] m = m
limit-Member (suc n) (r ∷ rs) m = elim (Member-cons m) [
  | inl e ↦ here e
  | inr k ↦ there (limit-Member n rs k)
]

pub expired-Member :
    (p : Policies) (now : ℕ) {a : Screenshot} (rows : List Screenshot)
    → Member a (expired p now rows)
    → Member a rows
unfolding expired
expired-Member p now rows m = in_order-Member rows (
    limit-Member 2000 (in_order rows)
      (Member-select (is_expired p now) (limit 2000 (in_order rows)) m).0)

-- an id among those of rows
is_in-Member :
    (n : ℕ) (bs : List Screenshot)
    → is_in n (ids bs) ≡ true
    → (b : Screenshot) × Member b bs × (b.id ≡ n)
is_in-Member n [] h = cc h
is_in-Member n (b ∷ bs) h = elim (Bool-cases (b.id == n)) [
  | inl hit ↦ (b, here refl, (==_iff b.id n).0 hit)
  | inr miss ↦ let (c, m, e) = is_in-Member n bs (ground (arith, h, miss)) in (c, there m, e)
]

pub delete_duplicates-IsLinked :
    (batch rows : List Screenshot)
    → ((b : Screenshot) → Member b batch → Member b rows)
    → IsLinked rows
    → IsLinked (delete_duplicates batch rows)
unfolding delete_duplicates
delete_duplicates-IsLinked batch rows sub h =
    delete_where-IsLinked (λ s. is_in s.id (ids (select is_duplicate batch))) rows
      (λ s id m e root found is.
        elim (Bool-cases (is_in root.id (ids (select is_duplicate batch)))) [
          | inr out ↦ out
          | inl within ↦
              let (b, mb, same) = is_in-Member root.id (select is_duplicate batch) within in
              let (mb', dup) = Member-select is_duplicate batch mb in
              let equal =
                IsKeyed-same rows b root h.keyed (sub b mb')
                  (find?-Member (λ x. x.id == id) rows root found) same in
              absurd (ground (arith, subst (λ x. is_some x.duplicate_of_id ≡ true) equal dup, is.0))
        ])
      h

pub purge_root-IsLinked :
    (removes : String → Bool) (row : Screenshot) (db : Db)
    → IsLinked db.screenshots
    → IsLinked (purge_root removes row db).1.screenshots
unfolding purge_root
purge_root-IsLinked removes row db h = elim (Bool-cases (any (refers_to row.id) db.screenshots)) [
  | inl used ↦ rw used h
  | inr free ↦ rw free (
      delete_where-IsLinked (λ s. s.id == row.id) db.screenshots
        (λ s id m e root found is. elim (Bool-cases (root.id == row.id)) [
          | inr other ↦ other
          | inl same ↦
              let key = find?_holds (λ x. x.id == id) db.screenshots root found in
              let refers : refers_to row.id s ≡ true = ground (arith, e, key, same) in
              absurd (cc (any-Member (refers_to row.id) db.screenshots m refers, free))
        ])
        h)
]
