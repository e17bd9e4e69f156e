-- ===== src/Reclassification/Loop.antt =====
-- The loop over the batches ends, and its result is that of one pass over all events.
use iskan.Prelude.{
  ℕ, zero, suc, ◌≡◌, refl, sym, ap, ◌∙◌, subst, inl, inr, ◌+◌, ◌<◌, ◌≤◌, ltb, ltb→lt, Bool, true,
  false, List, [], ◌∷◌, Option, some, select, update_where, count_where, length, Bool-cases, arith,
}
use iskan.Rules.{TextOps, ClassificationRule, ClassificationResult}
use iskan.Reclassification.{Event, limit, last_id, with_result, write_rows, run_batches}
use iskan.Reclassification.Batches.{
  Above, Above-le, Ascending, is_left, select-Above, count_where-Above, limit-Above, last_id-le,
  count_where-batch, again, write_rows-cons, upto, upto-Above, select-upto, upto-end, upto-miss,
  upto-hit, write_rows-above,
}

module _ (test : Event → Bool) where
  -- the rows of a batch
  abbrev batch : ℕ → ℕ → List Event → List Event
  batch last k es = limit k (select (is_left test last) es)

  later :
      (last : ℕ) (e : Event) (es : List Event)
      → ltb last e.id ≡ true
      → Above e.id es
      → Above last (e ∷ es)
  later last e es h above =
      let lt = ltb→lt last e.id h in (lt, Above-le last e.id es (omega (arith, lt)) above)

  batch-earlier :
      (last k : ℕ) (e : Event) (es : List Event)
      → ltb last e.id ≡ false
      → batch last k (e ∷ es) ≡ batch last k es
  batch-earlier last k e es h = ap (limit k) (left h)
    where
      left :
          ltb last e.id ≡ false
          → select (is_left test last) (e ∷ es) ≡ select (is_left test last) es
      left h = ground (arith, h)

  batch-later :
      (last k : ℕ) (es : List Event) → Above last es → batch last k es ≡ limit k (select test es)
  batch-later last k es h = ap (limit k) (select-Above test last es h)

  batch-le : (last k : ℕ) (es : List Event) → Ascending es → last ≤ last_id last (batch last k es)
  unfolding limit
  batch-le last zero [] up = omega arith
  batch-le last (suc k) [] up = omega arith
  batch-le last k (e ∷ es) up = elim (Bool-cases (ltb last e.id)) [
    | inr h ↦
        subst (λ rows. last ≤ last_id last rows) (sym (batch-earlier last k e es h))
          (batch-le last k es up.1)
    | inl h ↦
        let above = later last e es h up.0 in
        subst (λ rows. last ≤ last_id last rows) (sym (batch-later last k (e ∷ es) above))
          (last_id-le test last k (e ∷ es) above up)
  ]

  -- what the next batches are taken from, with this one, is what this one was taken from
  abbrev IsCounted : ℕ → List Event → List Event → Type 0
  IsCounted last rows es =
      count_where (is_left test (last_id last rows)) es + length rows
      ≡ count_where (is_left test last) es

  batch-IsCounted :
      (last k : ℕ) (es : List Event) → Ascending es → IsCounted last (batch last k es) es
  unfolding limit
  batch-IsCounted last zero [] up = refl
  batch-IsCounted last (suc k) [] up = refl
  batch-IsCounted last k (e ∷ es) up = elim (Bool-cases (ltb last e.id)) [
    | inr h ↦
        subst (λ rows. IsCounted last rows (e ∷ es)) (sym (batch-earlier last k e es h))
          (passed h (last_id last (batch last k es)) (batch-le last k es up.1)
            (length (batch last k es)) (batch-IsCounted last k es up.1))
    | inl h ↦
        let above = later last e es h up.0 in
        subst (λ rows. IsCounted last rows (e ∷ es)) (sym (batch-later last k (e ∷ es) above))
          (count_where-batch test last k (e ∷ es) above up
            ∙ sym (count_where-Above test last (e ∷ es) above))
  ]
    where
      passed :
          ltb last e.id ≡ false
          → (l : ℕ) → last ≤ l
          → (n : ℕ) → count_where (is_left test l) es + n ≡ count_where (is_left test last) es
          → count_where (is_left test l) (e ∷ es) + n ≡ count_where (is_left test last) (e ∷ es)
      passed h l le eq = ground (arith, h, le, eq)

module _ (t : TextOps) (rules : List ClassificationRule) (test : Event → Bool) where
  abbrev IsWritten : ℕ → List Event → List Event → Type 0
  IsWritten last rows es =
      write_rows t rules rows (upto t rules test last es) ≡ upto t rules test (last_id last rows) es

  batch-IsWritten :
      (last k : ℕ) (es : List Event) → Ascending es → IsWritten last (batch test last k es) es
  unfolding limit
  batch-IsWritten last zero [] up = unfold write_rows in refl
  batch-IsWritten last (suc k) [] up = unfold write_rows in refl
  batch-IsWritten last k (e ∷ es) up = elim (Bool-cases (ltb last e.id)) [
    | inl h ↦
        let above = later test last e es h up.0 in
        subst (λ rows. IsWritten last rows (e ∷ es)) (sym (batch-later test last k (e ∷ es) above))
          (ap (write_rows t rules (limit k (select test (e ∷ es))))
              (upto-Above t rules test last (e ∷ es) above)
            ∙ write_rows-above t rules test last k (e ∷ es) above up)
    | inr h ↦
        subst (λ rows. IsWritten last rows (e ∷ es)) (sym (batch-earlier test last k e es h))
          (elim (Bool-cases (test e)) [
            | inr miss ↦
                ap (write_rows t rules (batch test last k es))
                  (upto-miss t rules test last e es miss)
                ∙ write_rows-cons t rules e (batch test last k es) (upto t rules test last es)
                    (limit-Above (is_left test last) e.id k es up.0)
                ∙ ap (λ (xs : List Event). e ∷ xs) (batch-IsWritten last k es up.1)
                ∙ sym (upto-miss t rules test (last_id last (batch test last k es)) e es miss)
            | inl hit ↦
                let le : e.id ≤ last = ground (arith, h) in
                ap (write_rows t rules (batch test last k es))
                  (upto-hit t rules test last e es hit le)
                ∙ write_rows-cons t rules (again t rules e) (batch test last k es)
                    (upto t rules test last es) (limit-Above (is_left test last) e.id k es up.0)
                ∙ ap (λ (xs : List Event). again t rules e ∷ xs) (batch-IsWritten last k es up.1)
                ∙ sym (
                    upto-hit t rules test (last_id last (batch test last k es)) e es hit
                      (omega (arith, le, batch-le test last k es up.1)))
          ])
  ]

limit-empty : (k : ℕ) (es : List Event) → limit (suc k) es ≡ [] → es ≡ []
unfolding limit
limit-empty k [] h = refl
limit-empty k (e ∷ es) h = absurd (cc h)

count_where-empty : (p : Event → Bool) (es : List Event) → select p es ≡ [] → count_where p es ≡ 0
count_where-empty p [] h = refl
count_where-empty p (e ∷ es) h = ground (arith, h, count_where-empty p es)

module _ (t : TextOps) (rules : List ClassificationRule) (test : Event → Bool) (k : ℕ) where
  -- what follows a batch
  abbrev next : ℕ → ℕ → ℕ → List Event → List Event → Option (List Event × ℕ)
  next rounds last processed es [] = some (es, processed)
  next rounds last processed es (r ∷ rs) =
      run_batches t rules rounds (suc k) test (last_id last (r ∷ rs)) (processed + length (r ∷ rs))
        (write_rows t rules (r ∷ rs) es)

  run_batches-next :
      (rounds last processed : ℕ) (es rows : List Event)
      → limit (suc k) (select (is_left test last) es) ≡ rows
      → run_batches t rules (suc rounds) (suc k) test last processed es
        ≡ next rounds last processed es rows
  unfolding run_batches
  run_batches-next rounds last processed es [] h = ground (arith, h)
  run_batches-next rounds last processed es (r ∷ rs) h = ground (arith, h)

  -- the events and the number of them after the loop
  abbrev IsDone : ℕ → ℕ → List Event → Option (List Event × ℕ) → Type 0
  IsDone last processed es result =
      result
      ≡ some (update_where test (again t rules) es, processed + count_where (is_left test last) es)

  -- the loop from a batch on, if what follows it is done
  ends :
      (rounds last processed : ℕ) (es rows : List Event)
      → Ascending es
      → batch test last (suc k) es ≡ rows
      → count_where (is_left test last) es < suc rounds
      → ((l n : ℕ)
          → count_where (is_left test l) es < rounds
          → IsDone l n es (run_batches t rules rounds (suc k) test l n (upto t rules test l es)))
      → IsDone last processed es (next rounds last processed (upto t rules test last es) rows)
  ends rounds last processed es [] up h enough done =
      let nothing = limit-empty k (select (is_left test last) es) h in
      let counted : processed ≡ processed + count_where (is_left test last) es =
        omega (arith, count_where-empty (is_left test last) es nothing) in
      cc (upto-end t rules test last es nothing, counted)
  ends rounds last processed es (r ∷ rs) up h enough done =
      let l = last_id last (r ∷ rs) in
      let wrote =
        subst (λ rows. IsWritten t rules test last rows es) h
          (batch-IsWritten t rules test last (suc k) es up) in
      let counted =
        subst (λ rows. IsCounted test last rows es) h (batch-IsCounted test last (suc k) es up) in
      ap (run_batches t rules rounds (suc k) test l (processed + length (r ∷ rs))) wrote
      ∙ done l (processed + length (r ∷ rs)) (omega (arith, counted, enough))
      ∙ ap (λ (n : ℕ). some (update_where test (again t rules) es, n)) (omega (arith, counted))

  module _ (keeps : (r : ClassificationResult) (e : Event) → test (with_result r e) ≡ test e) where
    pub run_batches-IsDone :
        (rounds last processed : ℕ) (es : List Event)
        → Ascending es
        → count_where (is_left test last) es < rounds
        → IsDone last processed es
            (run_batches t rules rounds (suc k) test last processed (upto t rules test last es))
    run_batches-IsDone zero last processed es up enough = absurd (omega (arith, enough))
    run_batches-IsDone (suc rounds) last processed es up enough =
        run_batches-next rounds last processed (upto t rules test last es)
          (batch test last (suc k) es) (ap (limit (suc k)) (select-upto t rules test keeps last es))
        ∙ ends rounds last processed es (batch test last (suc k) es) up refl enough
            (λ l n. run_batches-IsDone rounds l n es up)
