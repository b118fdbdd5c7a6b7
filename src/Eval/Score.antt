-- ===== src/Eval/Score.antt =====
-- internal/eval/score.go and baseline.go: Score, Outcome.Hit, Outcome.Class and ByTopology. Of an
-- error is kept that there is one; `failed` is Err or ErrText, of which the code sets ErrText only
-- where Err is set.
use multi_agent_system_turbo.Base.{
  ℕ, ◌+◌, Bool, false, not, ◌&&◌, List, [], ◌∷◌, Str, if◌then◌else◌, is_empty, member, keep, map,
  str_eq, str_lt,
}
use multi_agent_system_turbo.Base.Sort.{sort}
use multi_agent_system_turbo.Core.Cost.{Usage, zero_usage, add_usage}
use multi_agent_system_turbo.Core.Model.{Gap}

pub record Outcome : Type 0 where
  pub case_id : Str
  pub topology : Str
  pub model : Str
  pub concluded : List Str
  pub missing : List Str
  pub false_conclusions : List Str
  pub missing_gaps : List Str
  pub usage : Usage
  pub failed : Bool

-- What a case expects, and what a report says.
pub record Expect : Type 0 where
  pub failure_modes : List Str
  pub not_failure_modes : List Str
  pub gaps : List Str

pub record Report : Type 0 where
  pub conclusions : List Str
  pub gaps : List Gap
  pub usage : Usage

unfoldable pub declared_codes : List Gap → List Str
declared_codes gaps = keep (λ code. not (is_empty code)) (map (λ g. g.code) gaps)

unfoldable pub score : Str → Expect → Report → Outcome
unfolding declared_codes
score case_id expect report = record {
  case_id = case_id;
  topology = [];
  model = [];
  concluded = sort str_lt report.conclusions;
  missing = sort str_lt (keep (λ want. not (member want report.conclusions)) expect.failure_modes);
  false_conclusions =
      sort str_lt (keep (λ ruled. member ruled report.conclusions) expect.not_failure_modes);
  missing_gaps =
      sort str_lt (keep (λ want. not (member want (declared_codes report.gaps))) expect.gaps);
  usage = report.usage;
  failed = false;
}

unfoldable pub hit : Outcome → Bool
hit o =
    not o.failed
    && (is_empty o.missing && (is_empty o.false_conclusions && is_empty o.missing_gaps))

pub data OutcomeClass : Type 0 where
  hit_class miss_class wrong_class gap_missed_class error_class : OutcomeClass

unfoldable pub class_of : Outcome → OutcomeClass
class_of o =
    if o.failed
    then error_class
    else if not (is_empty o.false_conclusions)
    then wrong_class
    else if not (is_empty o.missing)
    then miss_class
    else if not (is_empty o.missing_gaps)
    then gap_missed_class
    else hit_class

pub record Totals : Type 0 where
  pub topology : Str
  pub cases : ℕ
  pub hits : ℕ
  pub misses : ℕ
  pub wrong : ℕ
  pub gaps_missed : ℕ
  pub errors : ℕ
  pub usage : Usage

abbrev pub new_totals : Str → Totals
new_totals topology = record {
  topology = topology;
  cases = 0;
  hits = 0;
  misses = 0;
  wrong = 0;
  gaps_missed = 0;
  errors = 0;
  usage = zero_usage;
}

abbrev pub plus_if : Bool → ℕ → ℕ
plus_if b n = if b then n + 1 else n

unfoldable pub count_outcome : Outcome → Totals → Totals
unfolding hit
count_outcome o t = record t {
  cases = t.cases + 1;
  errors = plus_if o.failed t.errors;
  hits = plus_if (not o.failed && hit o) t.hits;
  misses = plus_if (not (is_empty o.missing)) t.misses;
  wrong = plus_if (not (is_empty o.false_conclusions)) t.wrong;
  gaps_missed = plus_if (not (is_empty o.missing_gaps)) t.gaps_missed;
  usage = add_usage t.usage o.usage;
}

-- The map by topology is a list with one entry for each.
unfoldable pub count_in : Outcome → List Totals → List Totals
unfolding count_outcome
count_in o [] = count_outcome o (new_totals o.topology) ∷ []
count_in o (t ∷ ts) =
    if str_eq t.topology o.topology then count_outcome o t ∷ ts else t ∷ count_in o ts

unfoldable pub count_all : List Outcome → List Totals → List Totals
unfolding count_in
count_all [] ts = ts
count_all (o ∷ os) ts = count_all os (count_in o ts)

unfoldable pub by_topology : List Outcome → List Totals
unfolding count_all
by_topology os = sort (λ a b. str_lt a.topology b.topology) (count_all os [])
