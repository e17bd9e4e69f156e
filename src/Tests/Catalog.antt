-- ===== src/Tests/Catalog.antt =====
-- The theorem on the catalogue at a concrete input.
use iskan.Prelude.{◌≡◌, refl, codes, true, false, [], ◌∷◌, none, some, arith}
use iskan.Http.Errors.{http, err}
use iskan.Absences.Change.{unset, value}
use iskan.Catalog.{PatternOps, Db, validate_rule_pattern}
use iskan.Catalog.Requests.{RulePatch, checked_rule_patch}
use iskan.Catalog.Rules.{update_rule}
use iskan.Catalog.Effects.{IsConsistent}
use iskan.Catalog.Consistency.{patch_rule, run, run-IsConsistent}

-- an operation of patterns in which a single bracket does not compile
abbrev pattern_ops : PatternOps
pattern_ops = record {
  lower = λ s. s;
  upper = λ s. s;
  compile_error = λ p. elim p [ b ∷ [] ↦ some "missing )" | other ↦ none ];
}

abbrev db : Db
db = record {
  categories =
      record {
        id = 1;
        code = codes "games";
        name = codes "Games";
        productivity = "UNPRODUCTIVE";
        color = codes "#FF0000";
        is_system = false;
      }
      ∷ [];
  rules =
      record {
        id = 4;
        priority = 1;
        match_field = "url_domain";
        match_type = "contains";
        pattern = codes "(";
        category_id = 1;
        enabled = true;
      }
      ∷ [];
  audit_log = [];
}

abbrev as_regex : RulePatch
as_regex = record {
  priority = unset;
  match_field = unset;
  match_type = value "regex";
  pattern = unset;
  category_id = unset;
  enabled = unset;
}

-- the pattern that the row has is checked for the type that is sent
as_regex_refused : update_rule pattern_ops 4 as_regex db ≡ (err (http 422 "missing )"), db)
unfolding update_rule checked_rule_patch validate_rule_pattern
as_regex_refused = refl

run-IsConsistent_example : IsConsistent pattern_ops (run pattern_ops (patch_rule 4 as_regex) db)
run-IsConsistent_example =
    run-IsConsistent pattern_ops (patch_rule 4 as_regex) db
      (record { patterns = ((refl, λ k. absurd (ground (arith, k))), tt); categories = (refl, tt) })
