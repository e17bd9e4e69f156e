-- ===== src/Catalog/Effects.antt =====
-- What a request to the catalogue does to its tables, and that it leaves the rules usable.
use iskan.Prelude.{
  ℕ, ◌≡◌, subst, sym, ◌⊎◌, inl, inr, ◌==◌, ◌=s◌, any, Bool, true, false, List, [], ◌∷◌, none, some,
  find?, update_where, update_where-All, delete_where, delete_where-All, All, All-map, Member-All,
  find?-Member, arith, Bool-cases,
}
use iskan.Catalog.{PatternOps, Category, Rule, Db}
use iskan.Catalog.Requests.{CategoryChanges}
use iskan.Catalog.Categories.{write_category, rules_count}
use iskan.Catalog.Rules.{is_category}

-- A pattern is not empty, and compiles if it is a regular expression.
abbrev pub IsPattern : PatternOps → Rule → Type 0
IsPattern t r =
    (elim r.pattern [ [] ↦ false | x ∷ xs ↦ true ] ≡ true)
    × ((r.match_type =s "regex") ≡ true → t.compile_error r.pattern ≡ none)

-- The rule's category exists.
abbrev pub HasCategory : List Category → Rule → Type 0
HasCategory cs r = any (is_category r.category_id) cs ≡ true

pub record IsConsistent (t : PatternOps) (db : Db) : Type 0 where
  pub patterns : All (IsPattern t) db.rules
  pub categories : All (HasCategory db.categories) db.rules

-- what a route does to the rules, of which it adds at most one
pub data Step (t : PatternOps) (db : Db) : Db → Type 0 where
  none_changed : {db' : Db} → db'.rules ≡ db.rules → db'.categories ≡ db.categories → Step t db db'
  rule_added :
      {db' : Db} (r : Rule)
      → IsPattern t r
      → HasCategory db.categories r
      → db'.rules ≡ r ∷ db.rules
      → db'.categories ≡ db.categories
      → Step t db db'
  rule_written :
      {db' : Db} (r : Rule) (id : ℕ)
      → IsPattern t r
      → ((current : Rule) × (find? (λ x. x.id == id) db.rules ≡ some current)
          × (r.category_id ≡ current.category_id))
        ⊎ HasCategory db.categories r
      → db'.rules ≡ update_where (λ x. x.id == id) (λ x. r) db.rules
      → db'.categories ≡ db.categories
      → Step t db db'
  rule_removed :
      {db' : Db} (id : ℕ)
      → db'.rules ≡ delete_where (λ x. x.id == id) db.rules
      → db'.categories ≡ db.categories
      → Step t db db'
  category_added :
      {db' : Db} (c : Category)
      → db'.rules ≡ db.rules
      → db'.categories ≡ c ∷ db.categories
      → Step t db db'
  category_written :
      {db' : Db} (id : ℕ) (changes : CategoryChanges)
      → db'.rules ≡ db.rules
      → db'.categories ≡ update_where (λ c. c.id == id) (write_category changes) db.categories
      → Step t db db'
  category_removed :
      {db' : Db} (id : ℕ)
      → rules_count id db.rules ≡ 0
      → db'.rules ≡ db.rules
      → db'.categories ≡ delete_where (λ c. c.id == id) db.categories
      → Step t db db'

any_added :
    (p : Category → Bool) (c : Category) (cs : List Category)
    → any p cs ≡ true
    → any p (c ∷ cs) ≡ true
any_added p c cs h = ground (arith, h)

any_written :
    (id n : ℕ) (changes : CategoryChanges) (cs : List Category)
    → any (is_category id) cs ≡ true
    → any (is_category id) (update_where (λ c. c.id == n) (write_category changes) cs) ≡ true
any_written id n changes [] h = h
any_written id n changes (c ∷ cs) h = elim (Bool-cases (is_category id c)) [
  | inl hit ↦ ground (arith, hit)
  | inr miss ↦ ground (arith, miss, any_written id n changes cs (rw miss at h))
]

any_left :
    (id n : ℕ) (cs : List Category)
    → (id == n) ≡ false
    → any (is_category id) cs ≡ true
    → any (is_category id) (delete_where (λ c. c.id == n) cs) ≡ true
any_left id n [] other h = h
any_left id n (c ∷ cs) other h = elim (Bool-cases (is_category id c)) [
  | inl hit ↦ ground (arith, hit, other)
  | inr miss ↦ ground (arith, miss, any_left id n cs other (rw miss at h))
]

unused :
    (id : ℕ) (rs : List Rule) → rules_count id rs ≡ 0 → All (λ r. (r.category_id == id) ≡ false) rs
unused id [] h = tt
unused id (r ∷ rs) h = (ground (arith, h), unused id rs (ground (arith, h)))

All-left :
    (id : ℕ) (cs : List Category) (rs : List Rule)
    → All (λ r. (r.category_id == id) ≡ false) rs
    → All (HasCategory cs) rs
    → All (HasCategory (delete_where (λ c. c.id == id) cs)) rs
All-left id cs [] out h = tt
All-left id cs (r ∷ rs) out h =
    (any_left r.category_id id cs out.0 h.0, All-left id cs rs out.1 h.1)

find?-HasCategory :
    (id : ℕ) (cs : List Category) (rs : List Rule) (current : Rule)
    → find? (λ x. x.id == id) rs ≡ some current
    → All (HasCategory cs) rs
    → HasCategory cs current
find?-HasCategory id cs rs current found h =
    Member-All (HasCategory cs) h (find?-Member (λ x. x.id == id) rs current found)

moved :
    {rs' rs : List Rule} {cs' cs : List Category}
    → rs' ≡ rs
    → cs' ≡ cs
    → All (HasCategory cs) rs
    → All (HasCategory cs') rs'
moved {rs = rs} {cs' = cs'} er ec h =
    subst (λ xs. All (HasCategory cs') xs) (sym er)
      (subst (λ cs. All (HasCategory cs) rs) (sym ec) h)

pub Step-IsConsistent :
    (t : PatternOps) (db : Db) {db' : Db} → Step t db db' → IsConsistent t db → IsConsistent t db'
Step-IsConsistent t db (none_changed rs cs) h = record {
  patterns = rw rs h.patterns;
  categories = moved rs cs h.categories;
}
Step-IsConsistent t db (rule_added r p c rs cs) h = record {
  patterns = rw rs (p, h.patterns);
  categories = moved rs cs (c, h.categories);
}
Step-IsConsistent t db (rule_written r id p c rs cs) h = record {
  patterns =
      rw rs (
        update_where-All (IsPattern t) (λ x. x.id == id) (λ x. r) db.rules (λ x _ _. p) h.patterns);
  categories = moved rs cs (
      update_where-All (HasCategory db.categories) (λ x. x.id == id) (λ x. r) db.rules
        (λ x _ _. known c) h.categories);
}
  where
    known :
        ((current : Rule) × (find? (λ x. x.id == id) db.rules ≡ some current)
            × (r.category_id ≡ current.category_id))
          ⊎ HasCategory db.categories r
        → HasCategory db.categories r
    known (inr has) = has
    known (inl (current, found, same)) =
        rw same (find?-HasCategory id db.categories db.rules current found h.categories)
Step-IsConsistent t db (rule_removed id rs cs) h = record {
  patterns = rw rs (delete_where-All (IsPattern t) (λ x. x.id == id) db.rules h.patterns);
  categories =
      moved rs cs
        (delete_where-All (HasCategory db.categories) (λ x. x.id == id) db.rules h.categories);
}
Step-IsConsistent t db (category_added c rs cs) h = record {
  patterns = rw rs h.patterns;
  categories = moved rs cs (
      All-map (HasCategory db.categories) (HasCategory (c ∷ db.categories)) db.rules
        (λ r k. any_added (is_category r.category_id) c db.categories k) h.categories);
}
Step-IsConsistent t db (category_written id changes rs cs) h = record {
  patterns = rw rs h.patterns;
  categories = moved rs cs (
      All-map (HasCategory db.categories)
        (HasCategory (update_where (λ c. c.id == id) (write_category changes) db.categories))
        db.rules (λ r k. any_written r.category_id id changes db.categories k) h.categories);
}
Step-IsConsistent t db (category_removed id free rs cs) h = record {
  patterns = rw rs h.patterns;
  categories =
      moved rs cs (All-left id db.categories db.rules (unused id db.rules free) h.categories);
}
