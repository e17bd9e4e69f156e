-- ===== src/Streams/Delivery.antt =====
-- A command is delivered once.
use iskan.Prelude.{
  ℕ, zero, suc, ◌≡◌, refl, leb, Bool, true, false, List, [], ◌∷◌, inl, inr, select, update_where,
  All, All-map, Bool-cases, arith,
}
use iskan.Http.Errors.{ok}
use iskan.Auth.Scope.{is_in}
use iskan.Streams.{delivered, Command, Db, is_pending}
use iskan.Streams.Handlers.{
  is_due, insert_ordered, by_requested_at, take, due, ids_of, agent_commands,
}

module _ (P : Command → Type 0) where
  select-All :
      (p : Command → Bool) (cs : List Command)
      → All P cs
      → All (λ c. P c × (p c ≡ true)) (select p cs)
  select-All p [] h = tt
  select-All p (c ∷ cs) h = elim (Bool-cases (p c)) [
    | inl hit ↦ rw hit ((h.0, hit), select-All p cs h.1)
    | inr miss ↦ rw miss (select-All p cs h.1)
  ]

  insert_ordered-All :
      (c : Command) (cs : List Command) → P c → All P cs → All P (insert_ordered c cs)
  insert_ordered-All c [] p h = (p, tt)
  insert_ordered-All c (d ∷ ds) p h = elim (Bool-cases (leb c.requested_at d.requested_at)) [
    | inl first ↦ rw first (p, h)
    | inr later ↦ rw later (h.0, insert_ordered-All c ds p h.1)
  ]

  by_requested_at-All : (cs : List Command) → All P cs → All P (by_requested_at cs)
  by_requested_at-All [] h = tt
  by_requested_at-All (c ∷ cs) h =
      insert_ordered-All c (by_requested_at cs) h.0 (by_requested_at-All cs h.1)

  take-All : (n : ℕ) (cs : List Command) → All P cs → All P (take n cs)
  take-All zero cs h = tt
  take-All (suc n) [] h = tt
  take-All (suc n) (c ∷ cs) h = (h.0, take-All n cs h.1)

-- what the rows of the table have, the commands that are due have, and they are pending
due-All :
    (P : Command → Type 0) (device_id now : ℕ) (db : Db)
    → All P db.commands
    → All (λ c. P c × (is_due device_id now c ≡ true)) (due device_id now db)
due-All P device_id now db h =
    let Q = λ (c : Command). P c × (is_due device_id now c ≡ true) in
    take-All Q 20 _ (by_requested_at-All Q _ (select-All P (is_due device_id now) db.commands h))

agent_commands-answer :
    (device_id now : ℕ) (db : Db) → (agent_commands device_id now db).0 ≡ ok (due device_id now db)
unfolding agent_commands
agent_commands-answer device_id now db = refl

module _ (device_id now : ℕ) (db : Db) where
  -- the ids that a fetch answers
  abbrev pub fetched : List ℕ
  fetched = ids_of (due device_id now db)

  agent_commands-commands :
      (agent_commands device_id now db).1.commands
      ≡ update_where (λ c. is_in c.id fetched) (λ c. record c { status = delivered }) db.commands
  unfolding agent_commands
  agent_commands-commands = refl

  settled :
      (cs : List Command)
      → All
          (λ c. is_pending c.status ≡ true → is_in c.id fetched ≡ false)
          (update_where (λ c. is_in c.id fetched) (λ c. record c { status = delivered }) cs)
  settled [] = tt
  settled (c ∷ cs) = elim (Bool-cases (is_in c.id fetched)) [
    | inl hit ↦ rw hit ((λ k. absurd (ground (arith, k))), settled cs)
    | inr miss ↦ rw miss ((λ _. miss), settled cs)
  ]

  due-fresh :
      (other later : ℕ)
      → All (λ c. is_in c.id fetched ≡ false) (due other later (agent_commands device_id now db).1)
  due-fresh other later =
      All-map _ (λ c. is_in c.id fetched ≡ false)
        (due other later (agent_commands device_id now db).1) (λ c h. h.0 (ground (arith, h.1)))
        (due-All (λ c. is_pending c.status ≡ true → is_in c.id fetched ≡ false) other later
          (agent_commands device_id now db).1 (rw agent_commands-commands (settled db.commands)))

  -- A fetch always answers; and no command that one fetch answers is answered by the next one, of
  -- whichever device and at whatever time.
  pub agent_commands-once :
      (other later : ℕ)
      → (first : List Command) × (second : List Command) × ((agent_commands device_id now db).0
          ≡ ok first)
        × ((agent_commands other later (agent_commands device_id now db).1).0 ≡ ok second)
        × All (λ c. is_in c.id (ids_of first) ≡ false) second
  agent_commands-once other later = (
    due device_id now db,
    due other later (agent_commands device_id now db).1,
    agent_commands-answer device_id now db,
    agent_commands-answer other later (agent_commands device_id now db).1,
    due-fresh other later,
  )
