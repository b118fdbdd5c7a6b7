-- ===== src/Safety/Sequences.antt =====
-- containsSequence finds a run of consecutive positionals that reads like the sequence.
use multi_agent_system_turbo.Base.{
  ◌≤◌, ◌≡◌, ◌≢◌, refl, ap, ◌↔◌, inl, inr, true, List, [], ◌∷◌, ◌++◌, Str, arith, Bool-cases,
  and-true_left, and-true_right, length, length-append, equal_fold,
}
use multi_agent_system_turbo.Safety.Args.{at_head, occurs, contains_sequence}

-- The two lists are equal, word by word, up to the case of letters.
pub data ReadsLike : List Str → List Str → Type 0 where
  both_end : ReadsLike [] []
  word :
      {p w : Str} {ps ws : List Str}
      → equal_fold p w ≡ true
      → ReadsLike ps ws
      → ReadsLike (p ∷ ps) (w ∷ ws)

-- The run stands among the positionals, between `before` and `after`.
pub record Occurs (positionals sequence : List Str) : Type 0 where
  pub before : List Str
  pub run : List Str
  pub after : List Str
  pub whole : positionals ≡ before ++ (run ++ after)
  pub reads : ReadsLike run sequence

at_head_sound :
    (ps ws : List Str)
    → at_head ps ws ≡ true
    → (run : List Str) × (after : List Str) × (ps ≡ run ++ after) × ReadsLike run ws
unfolding at_head
at_head_sound ps [] h = ([], ps, refl, both_end)
at_head_sound [] (w ∷ ws) h = absurd (cc)
at_head_sound (p ∷ ps) (w ∷ ws) h =
    let (run, after, e, r) = at_head_sound ps ws (and-true_right (equal_fold p w) _ h) in
    (p ∷ run, after, ap (λ t. p ∷ t) e, word (and-true_left _ (at_head ps ws) h) r)

at_head_complete :
    {run ws : List Str} (after : List Str) → ReadsLike run ws → at_head (run ++ after) ws ≡ true
unfolding at_head
at_head_complete after both_end = elim after as (λ a. at_head a [] ≡ true) [
  | [] ↦ refl
  | x ∷ xs ↦ refl
]
at_head_complete after (word e r) = rw e (at_head_complete after r)

occurs_sound : (ps ws : List Str) → occurs ps ws ≡ true → Occurs ps ws
unfolding occurs
occurs_sound [] ws h =
    let (run, after, e, r) = at_head_sound [] ws h in
    record { before = []; run = run; after = after; whole = e; reads = r }
occurs_sound (p ∷ ps) ws h = elim (Bool-cases (at_head (p ∷ ps) ws)) [
  | inl here ↦
      let (run, after, e, r) = at_head_sound (p ∷ ps) ws here in
      record { before = []; run = run; after = after; whole = e; reads = r }
  | inr later ↦
      let o = occurs_sound ps ws (rw later at h) in
      record {
        before = p ∷ o.before;
        run = o.run;
        after = o.after;
        whole = ap (λ t. p ∷ t) o.whole;
        reads = o.reads;
      }
]

occurs-at_head : (ps ws : List Str) → at_head ps ws ≡ true → occurs ps ws ≡ true
unfolding occurs
occurs-at_head [] ws h = h
occurs-at_head (p ∷ ps) ws h = rw h

occurs_complete :
    (before : List Str) {run ws : List Str} (after : List Str)
    → ReadsLike run ws
    → occurs (before ++ (run ++ after)) ws ≡ true
unfolding occurs
occurs_complete [] after r = occurs-at_head _ _ (at_head_complete after r)
occurs_complete (p ∷ before) after r = ground (arith, occurs_complete before after r)

length-ReadsLike : {run ws : List Str} → ReadsLike run ws → length run ≡ length ws
length-ReadsLike both_end = refl
length-ReadsLike (word e r) = omega (arith, length-ReadsLike r)

-- The code finds a denied sequence exactly when it is not empty and a run of the positionals
-- reads like it, anywhere in the argument vector and in any case of the ASCII letters.
pub contains_sequence_iff :
    (ps ws : List Str) → (contains_sequence ps ws ≡ true) ↔ ((ws ≢ []) × Occurs ps ws)
unfolding contains_sequence
contains_sequence_iff ps [] = (λ h. absurd (cc), λ (n, o). absurd (n refl))
contains_sequence_iff ps (w ∷ ws) = (
  λ h. (λ e. cc, occurs_sound ps (w ∷ ws) (ground arith)),
  λ (n, o).
      let long : length (w ∷ ws) ≤ length ps = rw (o.whole) (
        omega (
          arith,
          length-append o.before (o.run ++ o.after),
          length-append o.run o.after,
          length-ReadsLike o.reads,
        )) in
      let found : occurs ps (w ∷ ws) ≡ true =
        rw (o.whole) (occurs_complete o.before o.after o.reads) in
      ground arith,
)
