-- ===== src/Knowledge/Overlap.antt =====
-- internal/knowledge/overlap.go: a range reduced to an interval, and whether two of them overlap.
use multi_agent_system_turbo.Base.{
  Bool, true, false, not, ◌&&◌, ◌||◌, Option, none, some, List, [], ◌∷◌, Str, if◌then◌else◌,
}
use multi_agent_system_turbo.Base.Int.{ℤ}
use multi_agent_system_turbo.Knowledge.Version.{
  ge, le, ne, eq, gt, lt, VersionCheck, below, level, above, parse_version_range, compare_versions,
}

pub record Interval : Type 0 where
  pub lo : Option (List ℤ)
  pub hi : Option (List ℤ)
  pub lo_open : Bool
  pub hi_open : Bool
  pub unbounded : Bool

abbrev pub everything : Bool → Interval
everything unbounded = record {
  lo = none;
  hi = none;
  lo_open = false;
  hi_open = false;
  unbounded = unbounded;
}

unfoldable pub raise_lo : List ℤ → Bool → Interval → Interval
raise_lo v strict iv = elim iv.lo [
  | none ↦ record iv { lo = some v; lo_open = strict }
  | some lo ↦ elim (compare_versions v lo) [
    | above ↦ record iv { lo = some v; lo_open = strict }
    | level ↦ record iv { lo_open = strict || iv.lo_open }
    | below ↦ iv
  ]
]

unfoldable pub lower_hi : List ℤ → Bool → Interval → Interval
lower_hi v strict iv = elim iv.hi [
  | none ↦ record iv { hi = some v; hi_open = strict }
  | some hi ↦ elim (compare_versions v hi) [
    | below ↦ record iv { hi = some v; hi_open = strict }
    | level ↦ record iv { hi_open = strict || iv.hi_open }
    | above ↦ iv
  ]
]

unfoldable pub narrow : VersionCheck → Interval → Interval
unfolding raise_lo lower_hi
narrow c iv = elim c.op [
  | ge ↦ raise_lo c.version false iv
  | gt ↦ raise_lo c.version true iv
  | le ↦ lower_hi c.version false iv
  | lt ↦ lower_hi c.version true iv
  | eq ↦ lower_hi c.version false (raise_lo c.version false iv)
  | ne ↦ iv
]

unfoldable pub narrow_all : List VersionCheck → Interval → Interval
unfolding narrow
narrow_all [] iv = iv
narrow_all (c ∷ cs) iv = narrow_all cs (narrow c iv)

abbrev pub mark_unbounded : Interval → Interval
mark_unbounded iv = elim iv.lo [
  | none ↦ elim iv.hi [ none ↦ record iv { unbounded = true } | some hi ↦ iv ]
  | some lo ↦ iv
]

unfoldable pub checks_interval : List VersionCheck → Interval
unfolding narrow_all
checks_interval [] = everything true
checks_interval (c ∷ cs) = mark_unbounded (narrow_all (c ∷ cs) (everything false))

unfoldable pub to_interval : Str → Interval
unfolding checks_interval
to_interval raw = elim (parse_version_range raw) [
  | none ↦ everything true
  | some checks ↦ checks_interval checks
]

unfoldable pub separated : Interval → Interval → Bool
separated x y = elim x.hi [
  | none ↦ false
  | some hi ↦ elim y.lo [
    | none ↦ false
    | some lo ↦ elim (compare_versions hi lo) [
      | below ↦ true
      | level ↦ x.hi_open || y.lo_open
      | above ↦ false
    ]
  ]
]

unfoldable pub ranges_overlap : Str → Str → Bool
unfolding to_interval separated
ranges_overlap a b =
    let x = to_interval a in
    let y = to_interval b in
    if x.unbounded || y.unbounded then true else not (separated x y) && not (separated y x)
