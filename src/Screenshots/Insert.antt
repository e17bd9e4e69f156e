-- ===== src/Screenshots/Insert.antt =====
-- The row that an upload inserts is a duplicate of a row that is none, if it is one.
use iskan.Prelude.{
  ℕ, ◌≡◌, subst, inl, inr, ◌==◌, ==_iff, ltb, List, [], ◌∷◌, Option, none, some, find?, select,
  Member, here, there, Member-cons, Member-select, IsKeyed-find?, IsKeyed-insert, arith, Bool-cases,
  Option-cases,
}
use iskan.Http.Errors.{ok}
use iskan.Security.Crypto.{Text}
use iskan.Screenshots.{Screenshot}
use iskan.Screenshots.Upload.{latest, is_comparable, near, duplicate_of}
use iskan.Screenshots.Linked.{IsBacked, HasOwn, IsLinked}

latest-Member : {a : Screenshot} (rows : List Screenshot) → latest rows ≡ some a → Member a rows
latest-Member [] h = cc h
latest-Member {a = a} (s ∷ ss) h = elim (Option-cases (latest ss)) [
  | inl alone ↦ here (ground (arith, h, alone))
  | inr (r, found) ↦ elim (Bool-cases (ltb s.taken_at r.taken_at)) [
    | inl later ↦ there (latest-Member ss (ground (arith, h, found, later)))
    | inr first ↦ here (ground (arith, h, found, first))
  ]
]

near-IsBacked :
    (phash : Text) (previous : Screenshot) (d : Option ℕ) (rows : List Screenshot)
    → IsLinked rows
    → Member previous rows
    → near phash previous ≡ ok d
    → IsBacked rows d
near-IsBacked phash previous none rows h m e = tt
near-IsBacked phash previous (some id) rows h m e = elim (Option-cases previous.duplicate_of_id) [
  | inl root ↦ (
    previous,
    subst (λ n. find? (λ x. x.id == n) rows ≡ some previous) (ground (arith, e, root))
        (IsKeyed-find? (λ s. s.id) rows previous h.keyed m),
    (root, h.own previous m root),
  )
  | inr (r, dup) ↦
      let same : r ≡ id = ground (arith, e, dup) in
      subst (λ n. IsBacked rows (some n)) same
        (subst (λ o. IsBacked rows o) dup (h.backed previous m))
]

pub duplicate_of-IsBacked :
    (phash : Option Text) (device monitor : ℕ) (d : Option ℕ) (rows : List Screenshot)
    → IsLinked rows
    → duplicate_of phash device monitor rows ≡ ok d
    → IsBacked rows d
duplicate_of-IsBacked none device monitor none rows h e = tt
duplicate_of-IsBacked none device monitor (some id) rows h e = absurd (ground (arith, e))
duplicate_of-IsBacked (some phash) device monitor d rows h e =
    elim (Option-cases (latest (select (is_comparable device monitor) rows))) [
      | inl missing ↦ subst (λ o. IsBacked rows o) {x = none} (ground (arith, e, missing)) tt
      | inr (previous, found) ↦
          near-IsBacked phash previous d rows h
            (Member-select (is_comparable device monitor) rows
              (latest-Member (select (is_comparable device monitor) rows) found)).0
            (ground (arith, e, found))
    ]

pub insert-IsLinked :
    (row : Screenshot) (rows : List Screenshot)
    → find? (λ x. x.id == row.id) rows ≡ none
    → HasOwn row
    → IsBacked rows row.duplicate_of_id
    → IsLinked rows
    → IsLinked (row ∷ rows)
insert-IsLinked row rows fresh own backed h = record {
  keyed = IsKeyed-insert (λ s. s.id) row rows fresh h.keyed;
  own = λ s m. elim (Member-cons m) [ inl e ↦ subst HasOwn e own | inr k ↦ h.own s k ];
  backed = λ s m. wider s.duplicate_of_id (elim (Member-cons m) [
    | inl e ↦ subst (λ x. IsBacked rows x.duplicate_of_id) e backed
    | inr k ↦ h.backed s k
  ]);
}
  where
    wider : (d : Option ℕ) → IsBacked rows d → IsBacked (row ∷ rows) d
    wider none b = tt
    wider (some id) (root, found, is) = (
      root,
      elim (Bool-cases (row.id == id)) [
        | inr other ↦ ground (arith, other, found)
        | inl same ↦ absurd (
            cc (
              subst (λ n. find? (λ x. x.id == n) rows ≡ none) ((==_iff row.id id).0 same) fresh,
              found,
            ))
      ],
      is,
    )
