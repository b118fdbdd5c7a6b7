-- ===== src/Knowledge/Resolve.antt =====
-- internal/knowledge/resolve.go: a pack as it applies to one version. Of a rule only its id and
-- its range are read, and of a step also what it collects, reads and concludes. The order in which
-- Go iterates a map is the parameter `map_order`.
use multi_agent_system_turbo.Base.{
  ℕ, ◌+◌, Bool, true, false, not, ◌&&◌, Option, none, some, List, [], ◌∷◌, ◌++◌, Str, bytes,
  if◌then◌else◌, ltb, ◌==◌, is_empty, any, keep, map, member, str_eq, str_lt, is_blank,
}
use multi_agent_system_turbo.Base.Sort.{sort}
use multi_agent_system_turbo.Core.Identifiers.{identifiers, is_expr_builtin}
use multi_agent_system_turbo.Rules.Playbook.{Collect, Conclude, Step}
use multi_agent_system_turbo.Knowledge.Version.{applies_to_version}
use multi_agent_system_turbo.Knowledge.Refs.{refs_resolve}

pub record Rule : Type 0 where
  pub id : Str
  pub version_range : Str

-- A step with the range that the rules engine does not read.
pub record ScopedStep (V : Type 0) : Type 0 where
  pub version_range : Str
  pub step : Step V

pub record ScopedPlaybook (V : Type 0) : Type 0 where
  pub id : Str
  pub version_range : Str
  pub steps : List (ScopedStep V)

pub record Pack (V : Type 0) : Type 0 where
  pub id : Str
  pub signals : List Rule
  pub log_patterns : List Rule
  pub failure_modes : List Rule
  pub inspect : List Rule
  pub playbooks : List (ScopedPlaybook V)
  pub resolved_for : Str

-- What was dropped, by kind and id; and the gaps, by code and intent.
pub record Notes : Type 0 where
  pub gaps : List (Str × Str)
  pub skipped : List Str

abbrev pub no_notes : Notes
no_notes = record { gaps = []; skipped = [] }

abbrev pub named : Str → Str → Str
named kind id = kind ++ (bytes " " ++ id)

abbrev pub note : Str → Str → Notes → Notes
note kind id n = record n { skipped = n.skipped ++ named kind id ∷ [] }

abbrev pub gap : Str → Str → Notes → Notes
gap code intent n = record n { gaps = n.gaps ++ (code, intent) ∷ [] }

module _ {ℓ} {T : Type ℓ} (id range : T → Str) where
  unfoldable pub count_id : Str → List T → ℕ
  count_id i [] = 0
  count_id i (r ∷ rs) = let rest = count_id i rs in if str_eq (id r) i then rest + 1 else rest

  -- The loop over the rules, with the ids placed; `rules` are all of them.
  unfoldable pub place_rules :
      List T → Str → Str → List T → List Str → Notes → List T × (List Str × Notes)
  unfolding count_id applies_to_version
  place_rules rules version kind [] placed n = ([], (placed, n))
  place_rules rules version kind (r ∷ rs) placed n =
      let skip = place_rules rules version kind rs placed n in
      let noted = place_rules rules version kind rs placed (note kind (id r) n) in
      let kept = place_rules rules version kind rs placed n in
      let unchosen =
        place_rules rules version kind rs (id r ∷ placed)
          (gap (bytes "MAS-5018") (named kind (id r)) n) in
      let chosen = place_rules rules version kind rs (id r ∷ placed) n in
      if count_id (id r) rules == 1
      then if applies_to_version (range r) version then (r ∷ kept.0, kept.1) else noted
      else if is_blank version
      then if member (id r) placed then skip else unchosen
      else if applies_to_version (range r) version && not (member (id r) placed)
      then (r ∷ chosen.0, chosen.1)
      else skip

  -- The ids, each once.
  unfoldable pub distinct_ids : List Str → List T → List Str
  distinct_ids seen [] = []
  distinct_ids seen (r ∷ rs) =
      let skip = distinct_ids seen rs in
      let more = id r ∷ distinct_ids (id r ∷ seen) rs in if member (id r) seen then skip else more

  -- A gap for each id of several rules of which none was placed.
  unfoldable pub note_holes : List T → Str → Str → List Str → List Str → Notes → Notes
  unfolding count_id
  note_holes rules version kind placed [] n = n
  note_holes rules version kind placed (i ∷ ids) n =
      let skip = note_holes rules version kind placed ids n in
      let noted =
        note_holes rules version kind placed ids (gap (bytes "MAS-5017") (named kind i) n) in
      if ltb 1 (count_id i rules) && (not (member i placed) && not (is_blank version))
      then noted
      else skip

  unfoldable pub resolve_rules : (List Str → List Str) → List T → Str → Str → Notes → List T × Notes
  unfolding place_rules distinct_ids note_holes
  resolve_rules map_order rules version kind n =
      let placed = place_rules rules version kind rules [] n in
      (
        placed.0,
        note_holes rules version kind placed.1.0 (map_order (distinct_ids [] rules)) placed.1.1,
      )

abbrev pub concludes_known : Option Conclude → List Str → Bool
concludes_known none modes = true
concludes_known (some c) modes = member c.failure_mode modes

abbrev pub condition_of : Option Conclude → List Str
condition_of none = []
condition_of (some c) = c.condition ∷ []

abbrev pub reads_any : List Str → List Str → Bool
reads_any unbound =
    any (λ e. any (λ ident. member ident unbound && not (is_expr_builtin ident)) (identifiers e))

abbrev pub concludes : Option Conclude → Bool
concludes none = false
concludes (some c) = true

unfoldable pub note_steps : Str → List Str → Notes → Notes
note_steps playbook [] n = n
note_steps playbook (id ∷ ids) n =
    note_steps playbook ids (note (bytes "step") (playbook ++ (bytes "/" ++ id)) n)

abbrev pub rule_ids : List Rule → List Str
rule_ids = map (λ r. r.id)

module _ {V : Type 0} where
  abbrev pub collects_known : Option (Collect V) → List Str → Bool
  collects_known none signals = true
  collects_known (some c) signals = refs_resolve c.args signals

  -- Whether a step stays in the first pass.
  unfoldable pub stays : Str → List Str → List Str → ScopedStep V → Bool
  unfolding refs_resolve
  stays version signals modes st =
      applies_to_version st.version_range version
      && (collects_known st.step.collect signals && concludes_known st.step.conclude modes)

  abbrev pub slot_of : Option (Collect V) → List Str
  slot_of none = []
  slot_of (some c) = if is_empty c.slot then [] else c.slot ∷ []

  unfoldable pub slots_of : List (ScopedStep V) → List Str
  slots_of [] = []
  slots_of (st ∷ sts) = slot_of st.step.collect ++ slots_of sts

  unfoldable pub reads_unbound : List Str → ScopedStep V → Bool
  reads_unbound unbound st = reads_any unbound (st.step.evaluate ∷ condition_of st.step.conclude)

  -- The steps that stay, and the ids of the others.
  unfoldable pub resolve_steps :
      List (ScopedStep V) → Str → List Str → List Str → List (ScopedStep V) × List Str
  unfolding stays slots_of reads_unbound
  resolve_steps steps version signals modes =
      let kept = keep (stays version signals modes) steps in
      let gone = keep (λ st. not (stays version signals modes st)) steps in
      let unbound = slots_of gone in
      let dropped = map (λ st. st.step.id) gone in
      if is_empty unbound then (kept, dropped) else (
        keep (λ st. not (reads_unbound unbound st)) kept,
        dropped ++ map (λ st. st.step.id) (keep (reads_unbound unbound) kept),
      )

  unfoldable pub can_conclude : List (ScopedStep V) → Bool
  can_conclude steps = any (λ st. concludes st.step.conclude) steps

  unfoldable pub resolve_playbooks :
      Str → List Str → List Str → List (ScopedPlaybook V) → Notes → List (ScopedPlaybook V) × Notes
  unfolding resolve_steps can_conclude note_steps
  resolve_playbooks version signals modes [] n = ([], n)
  resolve_playbooks version signals modes (pb ∷ pbs) n =
      let resolved = resolve_steps pb.steps version signals modes in
      let noted = note_steps pb.id resolved.1 n in
      let without =
        resolve_playbooks version signals modes pbs (note (bytes "playbook") pb.id noted) in
      let rest = resolve_playbooks version signals modes pbs noted in
      if not (can_conclude resolved.0)
      then without
      else (record pb { steps = resolved.0 } ∷ rest.0, rest.1)

  -- The skipped ids are listed in order in one gap.
  abbrev pub account : Pack V → Notes → Notes
  account p n =
      if is_empty n.skipped
      then n
      else gap (bytes "MAS-5019") (bytes "version scoping for " ++ p.id)
          (record n { skipped = sort str_lt n.skipped })

  unfoldable pub resolve : (List Str → List Str) → Pack V → Str → Pack V × Notes
  unfolding resolve_rules resolve_playbooks sort str_lt
  resolve map_order p version =
      let key = λ (r : Rule). r.id in
      let range = λ (r : Rule). r.version_range in
      let signals = resolve_rules key range map_order p.signals version (bytes "signal") no_notes in
      let patterns =
        resolve_rules key range map_order p.log_patterns version (bytes "logPattern") signals.1 in
      let modes =
        resolve_rules key range map_order p.failure_modes version (bytes "failureMode")
          patterns.1 in
      let inspect = resolve_rules key range map_order p.inspect version (bytes "inspect") modes.1 in
      let playbooks =
        resolve_rules (λ (pb : ScopedPlaybook V). pb.id)
          (λ (pb : ScopedPlaybook V). pb.version_range) map_order p.playbooks version
          (bytes "playbook") inspect.1 in
      let steps =
        resolve_playbooks version (rule_ids signals.0) (rule_ids modes.0) playbooks.0 playbooks.1 in
      (
        record p {
          signals = signals.0;
          log_patterns = patterns.0;
          failure_modes = modes.0;
          inspect = inspect.0;
          playbooks = steps.0;
          resolved_for = version;
        },
        account p steps.1,
      )
