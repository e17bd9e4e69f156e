-- ===== src/Rules.antt =====
-- rules_engine.py: how an event is classified. What it calls of Python's texts and patterns is a
-- parameter.
pub mod Best
use Prim.Native.String.{◌++◌ as concat, count}
use iskan.Prelude.{
  ℕ, leb, ltb, String, ◌=s◌, one_of, Bool, true, false, ◌&&◌, List, [], ◌∷◌, Option, none, some,
  find?, or_else, if◌then◌else◌,
}

-- `upper`, `strip`, `casefold`, `in`, `fnmatch.fnmatchcase` and `re.search` with
-- IGNORECASE, which is `none` where it raises `re.error`
pub record TextOps : Type 0 where
  pub upper : String → String
  pub strip : String → String
  pub casefold : String → String
  pub contains : String → String → Bool
  pub fnmatchcase : String → String → Bool
  pub search : String → String → Option Bool

-- `ClassifiableEvent`
pub record Classifiable : Type 0 where
  pub state : String
  pub process_name : Option String
  pub window_title : Option String
  pub url_domain : Option String
  pub url_path : Option String

pub record ClassificationRule : Type 0 where
  pub priority : ℕ
  pub match_field : String
  pub match_type : String
  pub pattern : String
  pub productivity : String
  pub category_id : Option ℕ

pub record ClassificationResult : Type 0 where
  pub state : String
  pub category_id : Option ℕ

-- `PRESERVED_STATES`
abbrev pub is_preserved : String → Bool
is_preserved s = one_of s ("IDLE" ∷ "LOCKED" ∷ "BREAK" ∷ [])

-- `sorted(rules, key=lambda item: item.priority)`, which is stable
unfoldable pub insert_rule : ClassificationRule → List ClassificationRule → List ClassificationRule
insert_rule r [] = r ∷ []
insert_rule r (s ∷ ss) = if leb r.priority s.priority then r ∷ s ∷ ss else s ∷ insert_rule r ss

unfoldable pub sorted : List ClassificationRule → List ClassificationRule
sorted [] = []
sorted (r ∷ rs) = insert_rule r (sorted rs)

module _ (t : TextOps) where
  unfoldable pub event_field : Classifiable → String → String
  event_field e field =
      if field =s "process_name"
      then or_else e.process_name ""
      else (if field =s "window_title"
          then or_else e.window_title ""
          else (if field =s "url_domain"
              then or_else e.url_domain ""
              else (if field =s "url_full"
                  then concat (or_else e.url_domain "") (or_else e.url_path "")
                  else "")))

  unfoldable pub matches : String → String → String → Bool
  matches value match_type pattern =
      if match_type =s "exact"
      then t.casefold value =s t.casefold pattern
      else (if match_type =s "contains"
          then t.contains (t.casefold pattern) (t.casefold value)
          else (if match_type =s "wildcard"
              then t.fnmatchcase (t.casefold value) (t.casefold pattern)
              else (if match_type =s "regex"
                  then (if ltb 500 (count pattern)
                      then false
                      else or_else (t.search pattern value) false)
                  else false)))

  -- the test of the loop
  unfoldable pub applies : Classifiable → ClassificationRule → Bool
  applies e r = matches (event_field e r.match_field) r.match_type r.pattern

  abbrev pub result_of : Option ClassificationRule → ClassificationResult
  result_of none = record { state = "NEUTRAL"; category_id = none }
  result_of (some r) = record { state = r.productivity; category_id = r.category_id }

  -- `classify_result`
  unfoldable pub classify_result : Classifiable → List ClassificationRule → ClassificationResult
  classify_result e rules =
      if is_preserved (t.upper e.state)
      then record { state = t.upper e.state; category_id = none }
      else result_of (find? (applies e) (sorted rules))

  -- `classify`
  unfoldable pub classify : Classifiable → List ClassificationRule → String
  classify e rules = (classify_result e rules).state
