-- ===== src/Eval/Compare.antt =====
-- internal/eval/compare.go and baseline.go: Compare, Gate and the cells of a baseline. A map is a
-- list with one entry for a key, the later value in its place; the changes are sorted, so the
-- order of a map does not show. The details and caveats are prose and left out.
use multi_agent_system_turbo.Base.{
  ℕ, Bool, true, false, ◌&&◌, Option, none, some, List, [], ◌∷◌, ◌++◌, Str, if◌then◌else◌, ◌==◌,
  ltb, is_empty, length, keep, map, str_eq, str_lt,
}
use multi_agent_system_turbo.Base.Sort.{sort}
use multi_agent_system_turbo.Eval.Score.{
  Outcome, OutcomeClass, hit_class, miss_class, wrong_class, gap_missed_class, error_class,
  class_of,
}

pub record Cell : Type 0 where
  pub case_id : Str
  pub topology : Str
  pub model : Str
  pub class : OutcomeClass
  pub missing : List Str
  pub false_conclusions : List Str
  pub gaps_missed : List Str

unfoldable pub key_of : Cell → Str
key_of c = c.case_id ++ b'|' ∷ (c.topology ++ b'|' ∷ c.model)

unfoldable pub cell_of : Outcome → Cell
unfolding class_of
cell_of o = record {
  case_id = o.case_id;
  topology = o.topology;
  model = o.model;
  class = class_of o;
  missing = o.missing;
  false_conclusions = o.false_conclusions;
  gaps_missed = o.missing_gaps;
}

unfoldable pub put : Str → Cell → List (Str × Cell) → List (Str × Cell)
put key cell [] = (key, cell) ∷ []
put key cell ((k, c) ∷ m) = if str_eq k key then (k, cell) ∷ m else (k, c) ∷ put key cell m

unfoldable pub index_from : List Cell → List (Str × Cell) → List (Str × Cell)
unfolding put key_of
index_from [] m = m
index_from (c ∷ cs) m = index_from cs (put (key_of c) c m)

unfoldable pub index : List Cell → List (Str × Cell)
unfolding index_from
index cells = index_from cells []

unfoldable pub find_cell : Str → List (Str × Cell) → Option Cell
find_cell key [] = none
find_cell key ((k, c) ∷ m) = if str_eq k key then some c else find_cell key m

unfoldable pub equal_ids : List Str → List Str → Bool
equal_ids [] [] = true
equal_ids (x ∷ xs) (y ∷ ys) = str_eq x y && equal_ids xs ys
equal_ids [] (y ∷ ys) = false
equal_ids (x ∷ xs) [] = false

abbrev pub class_rank : OutcomeClass → ℕ
class_rank hit_class = 0
class_rank miss_class = 1
class_rank wrong_class = 2
class_rank gap_missed_class = 3
class_rank error_class = 4

abbrev pub is_hit : OutcomeClass → Bool
is_hit c = class_rank c == 0

unfoldable pub same_failure : Cell → Cell → Bool
unfolding equal_ids
same_failure c d =
    (class_rank c.class == class_rank d.class)
    && (equal_ids c.missing d.missing
        && (equal_ids c.false_conclusions d.false_conclusions
            && equal_ids c.gaps_missed d.gaps_missed))

pub data Transition : Type 0 where
  regressed improved known_bad changed_failure new not_run : Transition

pub record Change : Type 0 where
  pub key : Str
  pub cell : Cell
  pub transition : Transition

-- What became of a cell that ran; an unchanged pass is not news.
unfoldable pub transition_of : Option Cell → Cell → Option Transition
unfolding same_failure
transition_of none cell = some new
transition_of (some prior) cell =
    if is_hit prior.class && is_hit cell.class
    then none
    else if is_hit prior.class
    then some regressed
    else if is_hit cell.class
    then some improved
    else if same_failure cell prior
    then some known_bad
    else some changed_failure

unfoldable pub changes_now : List (Str × Cell) → List (Str × Cell) → List Change
unfolding transition_of find_cell
changes_now was [] = []
changes_now was ((key, cell) ∷ now) =
    let rest = changes_now was now in
    elim (transition_of (find_cell key was) cell) [
      | none ↦ rest
      | some t ↦ record { key = key; cell = cell; transition = t } ∷ rest
    ]

unfoldable pub changes_gone : List (Str × Cell) → List (Str × Cell) → List Change
unfolding find_cell
changes_gone now [] = []
changes_gone now ((key, cell) ∷ was) =
    let rest = changes_gone now was in
    elim (find_cell key now) [
      | none ↦ record { key = key; cell = cell; transition = not_run } ∷ rest
      | some c ↦ rest
    ]

abbrev pub transition_rank : Transition → ℕ
transition_rank regressed = 0
transition_rank changed_failure = 1
transition_rank improved = 2
transition_rank known_bad = 3
transition_rank new = 4
transition_rank not_run = 5

abbrev pub shown_before : Change → Change → Bool
shown_before a b =
    if transition_rank a.transition == transition_rank b.transition
    then str_lt a.key b.key
    else ltb (transition_rank a.transition) (transition_rank b.transition)

unfoldable pub compare : List Cell → List Outcome → List Change
unfolding index changes_now changes_gone cell_of
compare base outcomes =
    let was = index base in
    let now = index (map cell_of outcomes) in
    sort shown_before (changes_now was now ++ changes_gone now was)

abbrev pub is_regressed : Change → Bool
is_regressed c = transition_rank c.transition == 0

-- The error MAS-9105 names how many cells regressed.
unfoldable pub gate : List Change → Option ℕ
gate changes =
    let regressions = keep is_regressed changes in
    if is_empty regressions then none else some (length regressions)
