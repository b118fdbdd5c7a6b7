-- ===== src/Orchestrator/Agents.antt =====
-- internal/orchestrator: what a topology calls. A step of an agent changes the state or comes back
-- with the code of an error.
use multi_agent_system_turbo.Base.{
  ◌-◌, Bool, true, false, ◌&&◌, List, [], ◌∷◌, ◌++◌, Str, bytes, if◌then◌else◌, is_empty, keep, not,
  ◌⊎◌, inl, inr, leb,
}
use multi_agent_system_turbo.Core.Model.{Evidence, HypothesisStatus, proposed}
use multi_agent_system_turbo.Agent.State.{State}
use multi_agent_system_turbo.Tool.Registry.{Tool, in_domains}

pub record Objective : Type 0 where
  pub domain : Str
  pub statement : Str

pub data Role : Type 0 where
  planner correlator critic reporter : Role
  investigator : Str → Role
  executor : Objective → Role

abbrev pub Step : Type 0
Step = State → Str ⊎ State

abbrev pub investigation_domains : List Str
investigation_domains =
    bytes "metrics" ∷ bytes "logs" ∷ bytes "cluster" ∷ bytes "host" ∷ bytes "source" ∷ []

-- The domains with a tool, in a fixed order.
unfoldable pub active_domains : {V : Type 0} → List (Tool V) → List Str
unfolding in_domains
active_domains registry =
    keep (λ d. not (is_empty (in_domains (d ∷ []) registry))) investigation_domains

-- One step after another; the first error ends them.
unfoldable pub each_step : List Step → Step
each_step [] s = inr s
each_step (f ∷ fs) s = elim (f s) [ inl e ↦ inl e | inr s' ↦ each_step fs s' ]

abbrev pub evidence_line : Evidence → Str
evidence_line e =
    bytes "- "
    ++ (e.id
        ++ (bytes " ["
            ++ (e.kind
                ++ (bytes " from " ++ (e.source ++ (bytes "] " ++ (e.summary ++ bytes "\n")))))))

unfoldable pub evidence_lines : List Evidence → Str
evidence_lines [] = []
evidence_lines (e ∷ es) = evidence_line e ++ evidence_lines es

unfoldable pub evidence_digest : State → Str
unfolding evidence_lines
evidence_digest s =
    if is_empty s.evidence then bytes "(no evidence collected yet)" else evidence_lines s.evidence

abbrev pub is_proposed : HypothesisStatus → Bool
is_proposed proposed = true
is_proposed st = false

abbrev pub title : Str → Str
title [] = []
title (c ∷ s) = (if leb 97 c && leb c 122 then c - 32 else c) ∷ s

-- The prefixes that the notes are sorted by.
abbrev pub note_order : List Str → List Str
note_order domains = bytes "Investigation plan" ∷ titles domains
  where
    titles : List Str → List Str
    titles [] = []
    titles (d ∷ ds) = title d ∷ titles ds
