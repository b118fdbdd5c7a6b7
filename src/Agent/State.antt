-- ===== src/Agent/State.antt =====
-- internal/agent/state.go: State and the accessors that change it. Each but AddHypothesis holds the
-- lock throughout, so each is one step; what it reads of the clock is the argument `now`.
-- AddHypothesis takes the lock anew in each knownRefs, in AddGap and for the append: `add_hypothesis`
-- is what it does where no other agent comes between these parts, Agent/Interleaved has the parts.
-- An amount that the budget leaves at 0 or below is 0, no limit. Findings are known by their ids.
use multi_agent_system_turbo.Base.{
  ℕ, ◌+◌, ◌-◌, Bool, true, false, not, ◌&&◌, ◌||◌, List, [], ◌∷◌, ◌++◌, Str, bytes, if◌then◌else◌,
  ltb, leb, length, any, is_empty, member, keep, map, str_eq, trim_space, starts_with,
}
use multi_agent_system_turbo.Base.Int.{ℤ, pos, int_ltb}
use multi_agent_system_turbo.Base.Sort.{sort}
use multi_agent_system_turbo.Base.Decimal.{numbered}
use multi_agent_system_turbo.Core.Cost.{Usage, zero_usage, add_usage}
use multi_agent_system_turbo.Core.Model.{
  unit, Evidence, unavailable, Gap, Finding, HypothesisStatus, unset, proposed, Hypothesis,
  Recommendation,
}

pub record Budget : Type 0 where
  pub max_steps : ℕ
  pub max_tool_calls : ℕ
  pub max_tokens : ℕ
  pub max_wall : ℕ

-- What the run was cut short by, with the amount that the message names.
pub data TruncReason : Type 0 where
  no_reason : TruncReason
  wall_spent steps_spent tokens_spent : ℕ → TruncReason
  stated : Str → TruncReason

pub record State : Type 0 where
  pub prior : List Finding
  pub budget : Budget
  pub evidence : List Evidence
  pub gaps : List Gap
  pub hypotheses : List Hypothesis
  pub recommendations : List Recommendation
  pub notes : List Str
  pub summary : Str
  pub usage : Usage
  pub truncated : Bool
  pub trunc_reason : TruncReason
  pub steps : ℕ
  pub started_at : ℕ
  pub hyp_seq : ℕ

unfoldable pub new_state : List Finding → Budget → ℕ → State
new_state prior budget now = record {
  prior = prior;
  budget = budget;
  evidence = [];
  gaps = [];
  hypotheses = [];
  recommendations = [];
  notes = [];
  summary = [];
  usage = zero_usage;
  truncated = false;
  trunc_reason = no_reason;
  steps = 0;
  started_at = now;
  hyp_seq = 0;
}

abbrev pub is_duplicate : Evidence → Evidence → Bool
is_duplicate ev existing = not (is_empty existing.digest) && str_eq existing.digest ev.digest

unfoldable pub add_evidence : Evidence → State → State
add_evidence ev s =
    if is_empty ev.id || any (is_duplicate ev) s.evidence
    then s
    else record s { evidence = s.evidence ++ ev ∷ [] }

abbrev pub or_numbered : Str → Str → ℕ → Str
or_numbered id prefix n = if is_empty id then numbered prefix n else id

unfoldable pub add_gap : Gap → State → State
add_gap g s = record s {
  gaps = s.gaps ++ record g { id = or_numbered g.id (bytes "gap-a") (length s.gaps + 1) } ∷ [];
}

abbrev pub has_text : Str → Bool
has_text t = not (is_empty t)

unfoldable pub known_refs : List Evidence → List Finding → List Str
known_refs evidence prior =
    keep has_text (map (λ e. e.id) evidence) ++ keep has_text (map (λ f. f.id) prior)

abbrev pub knows : State → Str → Bool
knows s r = member r (known_refs s.evidence s.prior)

-- The references that are kept, and those that name nothing; blank ones are in neither.
unfoldable pub kept_refs : State → List Str → List Str
kept_refs s [] = []
kept_refs s (r ∷ refs) =
    let id = trim_space r in
    let rest = kept_refs s refs in
    if is_empty id then rest else if knows s id then id ∷ rest else rest

unfoldable pub unresolved_refs : State → List Str → List Str
unresolved_refs s [] = []
unresolved_refs s (r ∷ refs) =
    let id = trim_space r in
    let rest = unresolved_refs s refs in
    if is_empty id then rest else if knows s id then rest else id ∷ rest

abbrev pub citation_gap : Gap
citation_gap = record {
  id = [];
  intent = bytes "hypothesis citations";
  reason = unavailable;
  code = bytes "MAS-2010";
}

abbrev pub or_proposed : HypothesisStatus → HypothesisStatus
or_proposed unset = proposed
or_proposed st = st

-- The state with the gap for the references that name nothing.
unfoldable pub note_unresolved : List Str → State → State
note_unresolved [] s = s
note_unresolved (r ∷ refs) s = add_gap citation_gap s

-- The hypothesis as it is recorded.
unfoldable pub resolved : State → Hypothesis → Hypothesis
resolved s h = record h {
  id = or_numbered h.id (bytes "h-") (s.hyp_seq + 1);
  status = or_proposed h.status;
  supporting = kept_refs s h.supporting;
  contradicting = kept_refs s h.contradicting;
}

unfoldable pub add_hypothesis : Hypothesis → State → State × Str
unfolding note_unresolved resolved
add_hypothesis h s =
    let noted =
      note_unresolved (unresolved_refs s h.supporting ++ unresolved_refs s h.contradicting) s in
    let h' = resolved s h in
    (record noted { hypotheses = s.hypotheses ++ h' ∷ []; hyp_seq = s.hyp_seq + 1 }, h'.id)

abbrev pub in_unit : ℤ → Bool
in_unit c = not (int_ltb c (pos 0)) && not (int_ltb unit c)

abbrev pub or_status : HypothesisStatus → HypothesisStatus → HypothesisStatus
or_status unset old = old
or_status new old = new

unfoldable pub assess : HypothesisStatus → ℤ → Str → Hypothesis → Hypothesis
assess st confidence rationale h = record h {
  status = or_status st h.status;
  confidence = if in_unit confidence then confidence else h.confidence;
  rationale = if is_empty rationale then h.rationale else rationale;
}

-- The first hypothesis of that id is changed.
unfoldable pub update_first : Str → (Hypothesis → Hypothesis) → List Hypothesis → List Hypothesis
update_first id f [] = []
update_first id f (h ∷ hs) = if str_eq h.id id then f h ∷ hs else h ∷ update_first id f hs

abbrev pub has_id : Str → Hypothesis → Bool
has_id id h = str_eq h.id id

unfoldable pub update_hypothesis : Str → HypothesisStatus → ℤ → Str → State → State × Bool
unfolding assess
update_hypothesis id st confidence rationale s = (
  record s { hypotheses = update_first id (assess st confidence rationale) s.hypotheses },
  any (has_id id) s.hypotheses,
)

unfoldable pub add_recommendation : Recommendation → State → State
add_recommendation r s = record s {
  recommendations = s.recommendations ++ record r { advisory = true } ∷ [];
}

unfoldable pub add_note : Str → State → State
add_note note s = if is_empty note then s else record s { notes = s.notes ++ note ∷ [] }

-- The place of the first prefix that the note has, their number where it has none. The code reads
-- the prefixes from a map, in any order: of prefixes that no two of one note share.
unfoldable pub rank_of : List Str → Str → ℕ
rank_of [] note = 0
rank_of (p ∷ ps) note = let rest = rank_of ps note in if starts_with note p then 0 else rest + 1

abbrev pub ranked_before : List Str → Str → Str → Bool
ranked_before prefixes a b = ltb (rank_of prefixes a) (rank_of prefixes b)

unfoldable pub sort_notes : List Str → State → State
unfolding sort rank_of
sort_notes prefixes s = record s { notes = sort (ranked_before prefixes) s.notes }

unfoldable pub set_summary : Str → State → State
set_summary v s = record s { summary = v }

unfoldable pub spend : Usage → State → State
spend u s = record s { usage = add_usage s.usage u }

abbrev pub first_reason : TruncReason → TruncReason → TruncReason
first_reason no_reason new = new
first_reason old new = old

abbrev pub stated_reason : Str → TruncReason
stated_reason [] = no_reason
stated_reason (c ∷ reason) = stated (c ∷ reason)

unfoldable pub cut_short : TruncReason → State → State
cut_short r s = record s { truncated = true; trunc_reason = first_reason s.trunc_reason r }

unfoldable pub truncate : Str → State → State
unfolding cut_short
truncate reason s = cut_short (stated_reason reason) s

-- `startedAt` is always set: NewState starts the clock.
unfoldable pub consume_step : ℕ → State → State × Bool
unfolding cut_short
consume_step now s =
    if ltb 0 s.budget.max_wall && ltb s.budget.max_wall (now - s.started_at)
    then (cut_short (wall_spent s.budget.max_wall) s, false)
    else if ltb 0 s.budget.max_steps && leb s.budget.max_steps s.steps
    then (cut_short (steps_spent s.budget.max_steps) s, false)
    else if ltb 0 s.budget.max_tokens
        && leb s.budget.max_tokens (s.usage.prompt_tokens + s.usage.completion_tokens)
    then (cut_short (tokens_spent s.budget.max_tokens) s, false)
    else (record s { steps = s.steps + 1 }, true)
