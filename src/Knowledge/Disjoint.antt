-- ===== src/Knowledge/Disjoint.antt =====
-- Ranges that do not overlap share no version: what the load-time check on variants rests on.
use multi_agent_system_turbo.Base.{
  ◌≡◌, refl, sym, ap, subst, ◌∙◌, ◌⊎◌, inl, inr, Bool, true, false, not, ◌&&◌, Option, none, some,
  List, [], ◌∷◌, Str, arith, if◌then◌else◌, is_empty, Bool-cases, Option-cases, trim_space,
}
use multi_agent_system_turbo.Base.Int.{ℤ}
use multi_agent_system_turbo.Knowledge.Version.{
  Op, ge, le, ne, eq, gt, lt, VersionCheck, below, level, above, accepts, parse_version,
  parse_version_range, compare_versions, satisfies, applies, applies_to_version,
}
use multi_agent_system_turbo.Knowledge.Order.{compare_versions-flipped, at_most_trans}
use multi_agent_system_turbo.Knowledge.Overlap.{
  Interval, everything, raise_lo, lower_hi, narrow, narrow_all, mark_unbounded, checks_interval,
  to_interval, separated, ranges_overlap,
}

-- The version lies above the lower end, and below the upper one.
abbrev above_lo : Interval → List ℤ → Bool
above_lo iv v = elim iv.lo [
  | none ↦ true
  | some lo ↦ elim (compare_versions v lo) [ above ↦ true | level ↦ not iv.lo_open | below ↦ false ]
]

abbrev below_hi : Interval → List ℤ → Bool
below_hi iv v = elim iv.hi [
  | none ↦ true
  | some hi ↦ elim (compare_versions v hi) [ below ↦ true | level ↦ not iv.hi_open | above ↦ false ]
]

abbrev lower_op : Bool → Op
lower_op strict = if strict then gt else ge

abbrev upper_op : Bool → Op
upper_op strict = if strict then lt else le

-- What is level with a version compares as it does.
level-right :
    (v c d : List ℤ) → compare_versions c d ≡ level → compare_versions v c ≡ compare_versions v d
level-right v c d e = ground (
  arith,
  at_most_trans v c d,
  at_most_trans v d c,
  at_most_trans c v d,
  at_most_trans d v c,
  at_most_trans c d v,
  at_most_trans d c v,
  compare_versions-flipped v c,
  compare_versions-flipped v d,
  compare_versions-flipped c d,
)

raise_lo-above :
    (v c : List ℤ) (strict : Bool) (iv : Interval)
    → accepts (lower_op strict) (compare_versions v c) ≡ true
    → above_lo iv v ≡ true
    → (above_lo (raise_lo c strict iv) v ≡ true)
      × (below_hi (raise_lo c strict iv) v ≡ below_hi iv v)
unfolding raise_lo
raise_lo-above v c strict iv a h = elim (Option-cases iv.lo) [
  | inl e ↦ rw e (ground arith)
  | inr (lo, e) ↦ rw e (ground (arith, level-right v c lo))
]

lower_hi-below :
    (v c : List ℤ) (strict : Bool) (iv : Interval)
    → accepts (upper_op strict) (compare_versions v c) ≡ true
    → below_hi iv v ≡ true
    → (below_hi (lower_hi c strict iv) v ≡ true)
      × (above_lo (lower_hi c strict iv) v ≡ above_lo iv v)
unfolding lower_hi
lower_hi-below v c strict iv a h = elim (Option-cases iv.hi) [
  | inl e ↦ rw e (ground arith)
  | inr (hi, e) ↦ rw e (ground (arith, level-right v c hi))
]

-- The version lies in the interval.
abbrev inside : Interval → List ℤ → Bool
inside iv v = above_lo iv v && below_hi iv v

narrow-inside :
    (v : List ℤ) (c : VersionCheck) (iv : Interval)
    → accepts c.op (compare_versions v c.version) ≡ true
    → inside iv v ≡ true
    → inside (narrow c iv) v ≡ true
unfolding narrow
narrow-inside v c iv a h = inside-op c.op a
  where
    inside-op :
        (op : Op)
        → accepts op (compare_versions v c.version) ≡ true
        → inside (narrow (record c { op = op }) iv) v ≡ true
    inside-op ge a = ground (arith, raise_lo-above v c.version false iv a)
    inside-op gt a = ground (arith, raise_lo-above v c.version true iv a)
    inside-op le a = ground (arith, lower_hi-below v c.version false iv a)
    inside-op lt a = ground (arith, lower_hi-below v c.version true iv a)
    inside-op eq a =
        let (lo, hi) = raise_lo-above v c.version false iv (ground arith) (ground arith) in
        let (hi', lo') =
          lower_hi-below v c.version false (raise_lo c.version false iv) (ground arith)
            (ground arith) in
        ground arith
    inside-op ne a = h

narrow_all-inside :
    (v : List ℤ) (cs : List VersionCheck) (iv : Interval)
    → satisfies v cs ≡ true
    → inside iv v ≡ true
    → inside (narrow_all cs iv) v ≡ true
unfolding narrow_all satisfies
narrow_all-inside v [] iv s h = h
narrow_all-inside v (c ∷ cs) iv s h =
    narrow_all-inside v cs (narrow c iv) (ground arith) (narrow-inside v c iv (ground arith) h)

mark_unbounded-inside :
    (v : List ℤ) (iv : Interval) → inside iv v ≡ true → inside (mark_unbounded iv) v ≡ true
mark_unbounded-inside v iv h = ends iv.lo iv.hi iv.lo_open iv.hi_open iv.unbounded h
  where
    ends :
        (lo hi : Option (List ℤ)) (lo_open hi_open unbounded : Bool)
        → let i : Interval = record {
          lo = lo;
          hi = hi;
          lo_open = lo_open;
          hi_open = hi_open;
          unbounded = unbounded;
        } in
          inside i v ≡ true → inside (mark_unbounded i) v ≡ true
    ends none none p q u h = refl
    ends none (some hi) p q u h = h
    ends (some lo) hi p q u h = h

checks_interval-inside :
    (v : List ℤ) (cs : List VersionCheck)
    → satisfies v cs ≡ true
    → inside (checks_interval cs) v ≡ true
unfolding checks_interval
checks_interval-inside v [] s = refl
checks_interval-inside v (c ∷ cs) s =
    mark_unbounded-inside v (narrow_all (c ∷ cs) (everything false))
      (narrow_all-inside v (c ∷ cs) (everything false) s refl)

-- A version in both intervals keeps either from lying below the other.
separated-inside :
    (v : List ℤ) (x y : Interval) → inside x v ≡ true → inside y v ≡ true → separated x y ≡ false
unfolding separated
separated-inside v x y h k = elim (Option-cases x.hi) [
  | inl e ↦ rw e
  | inr (hi, e) ↦ elim (Option-cases y.lo) [
    | inl f ↦ rw (e, f)
    | inr (lo, f) ↦
        rw (e, f)
          (ground (
            arith,
            rw e at h,
            rw f at k,
            level-right v hi lo,
            at_most_trans lo v hi,
            compare_versions-flipped v hi,
            compare_versions-flipped v lo,
            compare_versions-flipped hi lo,
          ))
  ]
]

-- The version parses, and every constraint of the range, which parses, accepts it.
abbrev pub IsCovered : Str → List ℤ → Type 0
IsCovered raw v =
    (cs : List VersionCheck) × (parse_version_range raw ≡ some cs) × (satisfies v cs ≡ true)

abbrev interval_of : Option (List VersionCheck) → Interval
interval_of none = everything true
interval_of (some checks) = checks_interval checks

to_interval-parsed :
    (raw : Str) (cs : List VersionCheck)
    → parse_version_range raw ≡ some cs
    → to_interval raw ≡ checks_interval cs
unfolding to_interval
to_interval-parsed raw cs p = ap interval_of p

to_interval-unparsed :
    (raw : Str) → parse_version_range raw ≡ none → (to_interval raw).unbounded ≡ true
unfolding to_interval
to_interval-unparsed raw p = ap (λ o. (interval_of o).unbounded) p

to_interval-inside : (raw : Str) (v : List ℤ) → IsCovered raw v → inside (to_interval raw) v ≡ true
to_interval-inside raw v (cs, p, s) =
    subst (λ i. inside i v ≡ true) (sym (to_interval-parsed raw cs p))
      (checks_interval-inside v cs s)

-- If some version satisfies every constraint of two ranges, the load-time check sees that they
-- overlap; so ranges that it takes for disjoint share no version.
pub ranges_overlap_complete :
    (a b : Str) (v : List ℤ) → IsCovered a v → IsCovered b v → ranges_overlap a b ≡ true
unfolding ranges_overlap
ranges_overlap_complete a b v h k =
    let i = to_interval-inside a v h in
    let j = to_interval-inside b v k in
    ground (
      arith,
      separated-inside v (to_interval a) (to_interval b) i j,
      separated-inside v (to_interval b) (to_interval a) j i,
    )

applies-satisfies :
    (cs : List VersionCheck) (version : Str) (v : List ℤ)
    → is_empty (trim_space version) ≡ false
    → parse_version version ≡ some v
    → applies cs version ≡ satisfies v cs
unfolding applies satisfies
applies-satisfies [] version v t p = refl
applies-satisfies (c ∷ cs) version v t p =
    rw t (ap (λ o. elim o [ none ↦ true | some w ↦ satisfies w (c ∷ cs) ]) p)

-- A range that applies to a version that parses does not parse, or covers it.
applies-IsCovered :
    (raw version : Str) (v : List ℤ)
    → is_empty (trim_space version) ≡ false
    → parse_version version ≡ some v
    → applies_to_version raw version ≡ true
    → ((to_interval raw).unbounded ≡ true) ⊎ IsCovered raw v
unfolding applies_to_version
applies-IsCovered raw version v t p h = elim (Option-cases (parse_version_range raw)) [
  | inl e ↦ inl (to_interval-unparsed raw e)
  | inr (cs, e) ↦
      let holds : applies cs version ≡ true =
        sym (ap (λ o. elim o [ none ↦ true | some checks ↦ applies checks version ]) e) ∙ h in
      inr (cs, e, sym (applies-satisfies cs version v t p) ∙ holds)
]

ranges_overlap-unbounded :
    (a b : Str)
    → ((to_interval a).unbounded ≡ true) ⊎ ((to_interval b).unbounded ≡ true)
    → ranges_overlap a b ≡ true
unfolding ranges_overlap
ranges_overlap-unbounded a b u = ground arith

-- Of two ranges that the load-time check takes for disjoint, at most one applies to a deployed
-- version that is given and parses: one of the two variants of a rule is chosen, never both.
pub applies_to_version-disjoint :
    (a b version : Str) (v : List ℤ)
    → ranges_overlap a b ≡ false
    → is_empty (trim_space version) ≡ false
    → parse_version version ≡ some v
    → (applies_to_version a version && applies_to_version b version) ≡ false
applies_to_version-disjoint a b version v d t p =
    elim (Bool-cases (applies_to_version a version && applies_to_version b version)) [
      | inr n ↦ n
      | inl both ↦ elim (applies-IsCovered a version v t p (ground arith)) [
        | inl u ↦ ground (arith, ranges_overlap-unbounded a b (inl u))
        | inr h ↦ elim (applies-IsCovered b version v t p (ground arith)) [
          | inl u ↦ ground (arith, ranges_overlap-unbounded a b (inr u))
          | inr k ↦ ground (arith, ranges_overlap_complete a b v h k)
        ]
      ]
    ]
