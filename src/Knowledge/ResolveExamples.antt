-- ===== src/Knowledge/ResolveExamples.antt =====
-- A small pack resolved to a version.
use multi_agent_system_turbo.Base.{
  ℕ, ◌≡◌, refl, true, ◌||◌, none, some, List, [], ◌∷◌, Str, bytes, any, str_eq,
}
use multi_agent_system_turbo.Knowledge.Version.{version_run}
use multi_agent_system_turbo.Knowledge.Resolve.{Rule, ScopedStep, no_notes, resolve_rules}
use multi_agent_system_turbo.Knowledge.Refs.{refs_in}
use multi_agent_system_turbo.Knowledge.Follows.{noted}
use multi_agent_system_turbo.Knowledge.Accounted.{resolve_rules-accounts}

abbrev used : Rule
used = record { id = bytes "used"; version_range = bytes ">=7" }

abbrev used_before : Rule
used_before = record { id = bytes "used"; version_range = bytes "<5" }

abbrev rules : List Rule
rules = used_before ∷ used ∷ []

abbrev rule_id : Rule → Str
rule_id r = r.id

abbrev rule_range : Rule → Str
rule_range r = r.version_range

abbrev as_listed : List Str → List Str
as_listed ids = ids

-- Neither range covers version 6: the id has a gap.
hole_test :
    (resolve_rules rule_id rule_range as_listed rules (bytes "6") (bytes "signal") no_notes).1.gaps
    ≡ (bytes "MAS-5017", bytes "signal used") ∷ []
unfolding resolve_rules version_run
hole_test = refl

listed : any (λ r. str_eq (rule_id r) (bytes "used")) rules ≡ true
unfolding str_eq
listed = refl

resolve_rules-accounts_example :
    (any
        (λ r. str_eq (rule_id r) (bytes "used"))
        (resolve_rules rule_id rule_range as_listed rules (bytes "6") (bytes "signal") no_notes).0
      || noted
          (bytes "signal")
          (bytes "used")
          (resolve_rules rule_id rule_range as_listed rules
            (bytes "6")
            (bytes "signal")
            no_notes).1)
    ≡ true
resolve_rules-accounts_example =
    resolve_rules-accounts rule_id rule_range as_listed rules (bytes "6") (bytes "signal") no_notes
      (bytes "used") (λ j ids m. m) listed

abbrev collects : Str → Str → ScopedStep ℕ
collects range slot = record {
  version_range = range;
  step = record {
    id = slot;
    collect = some (record { tool = bytes "promql"; args = []; slot = slot });
    evaluate = [];
    on_true = none;
    on_false = none;
    conclude = none;
  };
}

abbrev evaluates : Str → ScopedStep ℕ
evaluates expr = record {
  version_range = [];
  step = record {
    id = expr;
    collect = none;
    evaluate = expr;
    on_true = none;
    on_false = none;
    conclude = none;
  };
}

abbrev steps : List (ScopedStep ℕ)
steps =
    collects (bytes ">=7") (bytes "lag")
    ∷ collects [] (bytes "disk")
    ∷ evaluates (bytes "lag > 1")
    ∷ evaluates (bytes "disk > 1")
    ∷ []

refs_test : refs_in (bytes "rate({{signal:a.b}}) / {{signal:}} {{signal:c}") ≡ bytes "a.b" ∷ []
unfolding refs_in version_run
refs_test = refl
