-- ===== src/Knowledge/Examples.antt =====
-- Version ranges at concrete versions.
use multi_agent_system_turbo.Base.{◌≡◌, refl, true, false, ◌&&◌, List, [], ◌∷◌, Str, bytes}
use multi_agent_system_turbo.Base.Int.{ℤ, pos}
use multi_agent_system_turbo.Knowledge.Version.{
  ge, gt, le, lt, satisfies, applies_to_version, version_run,
}
use multi_agent_system_turbo.Knowledge.Overlap.{ranges_overlap}
use multi_agent_system_turbo.Knowledge.Disjoint.{
  IsCovered, ranges_overlap_complete, applies_to_version-disjoint,
}

abbrev early : Str
early = bytes ">=5.0 <7"

abbrev late : Str
late = bytes ">=7.0"

abbrev middle : Str
middle = bytes ">6 <=8.1"

abbrev six_two : List ℤ
six_two = pos 6 ∷ pos 2 ∷ []

six_two-early : IsCovered early six_two
unfolding version_run satisfies
six_two-early = (
  record { op = ge; version = pos 5 ∷ pos 0 ∷ [] } ∷ record { op = lt; version = pos 7 ∷ [] } ∷ [],
  refl,
  refl,
)

six_two-middle : IsCovered middle six_two
unfolding version_run satisfies
six_two-middle = (
  record { op = gt; version = pos 6 ∷ [] } ∷ record { op = le; version = pos 8 ∷ pos 1 ∷ [] } ∷ [],
  refl,
  refl,
)

ranges_overlap_complete_example : ranges_overlap early middle ≡ true
ranges_overlap_complete_example =
    ranges_overlap_complete early middle six_two six_two-early six_two-middle

applies_to_version-disjoint_example :
    (applies_to_version early (bytes "7.0.1") && applies_to_version late (bytes "7.0.1")) ≡ false
unfolding version_run ranges_overlap
applies_to_version-disjoint_example =
    applies_to_version-disjoint early late (bytes "7.0.1") (pos 7 ∷ pos 0 ∷ pos 1 ∷ []) refl refl
      refl

-- A version that is given and does not parse is covered by both ranges, disjoint as they are.
unparsed_test :
    (applies_to_version early (bytes "latest") && applies_to_version late (bytes "latest")) ≡ true
unfolding version_run
unparsed_test = refl
