-- ===== src/Reclassification/Batches.antt =====
-- The loop over the batches does what one pass over all events would do.
use iskan.Prelude.{
  ℕ, zero, suc, ◌≡◌, refl, sym, ap, ◌∙◌, subst, inl, inr, ◌+◌, ◌<◌, ◌≤◌, ◌==◌, ==_refl, leb, ltb,
  Bool, true, false, ◌&&◌, List, [], ◌∷◌, All, All-map, select, update_where, count_where, length,
  Bool-cases, arith,
}
use iskan.Rules.{TextOps, ClassificationRule, ClassificationResult, classify_result}
use iskan.Reclassification.{Event, limit, last_id, with_result, classified, write_rows}

abbrev pub Above : ℕ → List Event → Type 0
Above n es = All (λ e. n < e.id) es

-- The ids ascend.
abbrev pub Ascending : List Event → Type 0
Ascending [] = Unit
Ascending (e ∷ es) = Above e.id es × Ascending es

module _ (n m : ℕ) where
  pub Above-le : (es : List Event) → n ≤ m → Above m es → Above n es
  Above-le es le h = All-map (λ e. m < e.id) (λ e. n < e.id) es (λ e k. omega (arith, k, le)) h

module _ (test : Event → Bool) where
  -- the events that the next batch is taken from
  abbrev pub is_left : ℕ → Event → Bool
  is_left last e = test e && ltb last e.id

  pub select-Above :
      (last : ℕ) (es : List Event) → Above last es → select (is_left last) es ≡ select test es
  select-Above last [] h = refl
  select-Above last (e ∷ es) h = ground (arith, h.0, select-Above last es h.1)

  pub count_where-Above :
      (last : ℕ) (es : List Event)
      → Above last es
      → count_where (is_left last) es ≡ count_where test es
  count_where-Above last [] h = refl
  count_where-Above last (e ∷ es) h = ground (arith, h.0, count_where-Above last es h.1)

  pub limit-Above : (n k : ℕ) (es : List Event) → Above n es → Above n (limit k (select test es))
  unfolding limit
  limit-Above n zero es h = tt
  limit-Above n (suc k) [] h = tt
  limit-Above n (suc k) (e ∷ es) h = elim (Bool-cases (test e)) [
    | inl hit ↦ rw hit (h.0, limit-Above n k es h.1)
    | inr miss ↦ rw miss (limit-Above n (suc k) es h.1)
  ]

  pub last_id-le :
      (last k : ℕ) (es : List Event)
      → Above last es
      → Ascending es
      → last ≤ last_id last (limit k (select test es))
  unfolding limit
  last_id-le last zero es h up = omega arith
  last_id-le last (suc k) [] h up = omega arith
  last_id-le last (suc k) (e ∷ es) h up = elim (Bool-cases (test e)) [
    | inl hit ↦ rw hit (omega (arith, h.0, last_id-le e.id k es up.0 up.1))
    | inr miss ↦ rw miss (last_id-le last (suc k) es h.1 up.1)
  ]

  -- what a batch leaves of those above the last id
  pub count_where-batch :
      (last k : ℕ) (es : List Event)
      → Above last es
      → Ascending es
      → count_where (is_left (last_id last (limit k (select test es)))) es
          + length (limit k (select test es))
        ≡ count_where test es
  unfolding limit
  count_where-batch last zero es h up = omega (arith, count_where-Above last es h)
  count_where-batch last (suc k) [] h up = refl
  count_where-batch last (suc k) (e ∷ es) h up = elim (Bool-cases (test e)) [
    | inl hit ↦
        ground
          (arith, hit, h.0, count_where-batch e.id k es up.0 up.1, last_id-le e.id k es up.0 up.1)
    | inr miss ↦ ground (arith, miss, count_where-batch last (suc k) es h.1 up.1)
  ]

module _ (t : TextOps) (rules : List ClassificationRule) where
  -- an event classified again
  abbrev pub again : Event → Event
  again e = classified t rules e e

  -- a row of another id is not seen by a write
  pub write_rows-cons :
      (x : Event) (rows es : List Event)
      → Above x.id rows
      → write_rows t rules rows (x ∷ es) ≡ x ∷ write_rows t rules rows es
  unfolding write_rows
  write_rows-cons x [] es h = refl
  write_rows-cons x (r ∷ rows) es h = elim (Bool-cases (x.id == r.id)) [
    | inl same ↦ absurd (ground (arith, same, h.0))
    | inr other ↦
        rw other
          (write_rows-cons x rows (update_where (λ e. e.id == r.id) (classified t rules r) es) h.1)
  ]

  update_where-Above :
      (row : Event) (es : List Event)
      → Above row.id es
      → update_where (λ e. e.id == row.id) (classified t rules row) es ≡ es
  update_where-Above row [] h = refl
  update_where-Above row (e ∷ es) h = elim (Bool-cases (e.id == row.id)) [
    | inl same ↦ absurd (ground (arith, same, h.0))
    | inr other ↦ rw other (ap (λ (xs : List Event). e ∷ xs) (update_where-Above row es h.1))
  ]

module _ (t : TextOps) (rules : List ClassificationRule) (test : Event → Bool) where
  -- the events up to an id classified again
  abbrev pub upto : ℕ → List Event → List Event
  upto last es = update_where (λ e. test e && leb e.id last) (again t rules) es

  pub upto-Above : (last : ℕ) (es : List Event) → Above last es → upto last es ≡ es
  upto-Above last [] h = refl
  upto-Above last (e ∷ es) h = ground (arith, h.0, upto-Above last es h.1)

  pub select-upto :
      ((r : ClassificationResult) (e : Event) → test (with_result r e) ≡ test e)
      → (last : ℕ) (es : List Event)
      → select (is_left test last) (upto last es) ≡ select (is_left test last) es
  select-upto keeps last [] = refl
  select-upto keeps last (e ∷ es) =
      ground (arith, keeps (classify_result t e.content rules) e, select-upto keeps last es)

  pub upto-end :
      (last : ℕ) (es : List Event)
      → select (is_left test last) es ≡ []
      → upto last es ≡ update_where test (again t rules) es
  upto-end last [] h = refl
  upto-end last (e ∷ es) h = ground (arith, h, upto-end last es)

  pub upto-miss :
      (last : ℕ) (e : Event) (es : List Event)
      → test e ≡ false
      → upto last (e ∷ es) ≡ e ∷ upto last es
  upto-miss last e es h = ground (arith, h)

  pub upto-hit :
      (last : ℕ) (e : Event) (es : List Event)
      → test e ≡ true
      → e.id ≤ last
      → upto last (e ∷ es) ≡ again t rules e ∷ upto last es
  upto-hit last e es h le = ground (arith, h, le)

  select-hit :
      (e : Event) (es : List Event) → test e ≡ true → select test (e ∷ es) ≡ e ∷ select test es
  select-hit e es h = ground (arith, h)

  select-miss :
      (e : Event) (es : List Event) → test e ≡ false → select test (e ∷ es) ≡ select test es
  select-miss e es h = ground (arith, h)

  -- the first row of a batch
  write_rows-first :
      (e : Event) (rows es : List Event)
      → Above e.id es
      → Above e.id rows
      → write_rows t rules (e ∷ rows) (e ∷ es) ≡ again t rules e ∷ write_rows t rules rows es
  unfolding write_rows
  write_rows-first e rows es h above =
      rw (==_refl e.id) (
        ap (λ (xs : List Event). write_rows t rules rows (again t rules e ∷ xs))
          (update_where-Above t rules e es h))
      ∙ write_rows-cons t rules (again t rules e) rows es above

  -- what a batch of the selected rows is to write
  abbrev pub IsBatch : ℕ → List Event → List Event → Type 0
  IsBatch last rows es = write_rows t rules rows es ≡ upto (last_id last rows) es

  pub write_rows-above :
      (last k : ℕ) (es : List Event)
      → Above last es
      → Ascending es
      → IsBatch last (limit k (select test es)) es
  unfolding limit
  write_rows-above last zero es h up = unfold write_rows in sym (upto-Above last es h)
  write_rows-above last (suc k) [] h up = unfold write_rows in refl
  write_rows-above last (suc k) (e ∷ es) h up = elim (Bool-cases (test e)) [
    | inr miss ↦
        let rows = limit (suc k) (select test es) in
        subst (λ sel. IsBatch last (limit (suc k) sel) (e ∷ es)) (sym (select-miss e es miss))
          (write_rows-cons t rules e rows es (limit-Above test e.id (suc k) es up.0)
            ∙ ap (λ (xs : List Event). e ∷ xs) (write_rows-above last (suc k) es h.1 up.1)
            ∙ sym (upto-miss (last_id last rows) e es miss))
    | inl hit ↦
        let rows = limit k (select test es) in
        subst (λ sel. IsBatch last (limit (suc k) sel) (e ∷ es)) (sym (select-hit e es hit))
          (write_rows-first e rows es up.0 (limit-Above test e.id k es up.0)
            ∙ ap (λ (xs : List Event). again t rules e ∷ xs) (write_rows-above e.id k es up.0 up.1)
            ∙ sym (upto-hit (last_id e.id rows) e es hit (last_id-le test e.id k es up.0 up.1)))
  ]
