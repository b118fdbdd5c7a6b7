-- ===== src/Core/Selectors.antt =====
-- A field behind a bracket: what the scanner makes of `rows[0].name`.
use mathlib.Core.List.{append_assoc, append-nil}
use multi_agent_system_turbo.Base.{
  ℕ, ◌≡◌, refl, sym, ap, subst, ◌∙◌, ◌⊎◌, Bool, true, false, not, ◌||◌, ◌==◌, List, [], ◌∷◌, ◌++◌,
  Str, bytes, arith, Bool-cases, inl, inr, is_empty, All,
}
use multi_agent_system_turbo.Core.Identifiers.{
  Mode, code, quoted, escaped, Scan, is_letter, flush, push, scan_code, scan_byte, scan, start,
  identifiers,
}
use multi_agent_system_turbo.Core.Scanner.{scan-append, is_word_byte, IsWord}

cur-flush : (s : Scan) → (flush s).cur ≡ []
unfolding flush
cur-flush s = elim (Bool-cases (is_empty s.cur)) [
  | inl e ↦ rw e (empty_text s.cur e)
  | inr n ↦ rw n
]
  where
    empty_text : (t : Str) → is_empty t ≡ true → t ≡ []
    empty_text [] e = refl
    empty_text (c ∷ t) e = absurd (cc)

flush-empty : (s : Scan) → s.cur ≡ [] → flush s ≡ s
unfolding flush
flush-empty s e = ground arith

-- Past a bracket, and past a dot behind it, the scanner stands as at the start of a word.
after_bracket : Scan → Scan
after_bracket s = record (flush s) { prev_was_dot = false }

scan_bracket : (s : Scan) → scan_byte code b']' s ≡ after_bracket s
unfolding scan_byte scan_code after_bracket
scan_bracket s = refl

scan_dot : (s : Scan) → scan_byte code b'.' (after_bracket s) ≡ after_bracket s
unfolding scan_byte scan_code after_bracket
scan_dot s =
    ground (arith, cur-flush s, flush-empty (after_bracket s) (unfold after_bracket in cur-flush s))

-- A byte of a word goes on with it; only a digit does not begin one.
scan_word_byte :
    (s : Scan) (c : ℕ)
    → s.mode ≡ code
    → is_word_byte c ≡ true
    → (((c == b'_') || is_letter c) || not (is_empty s.cur)) ≡ true
    → scan_byte s.mode c s ≡ push c s
unfolding scan_byte scan_code
scan_word_byte s c m h g = subst (λ x. scan_byte x c s ≡ push c s) (sym m) (ground arith)

is_empty-snoc : (t : Str) (c : ℕ) → is_empty (t ++ c ∷ []) ≡ false
is_empty-snoc [] c = refl
is_empty-snoc (d ∷ t) c = refl

scan_word :
    (s : Scan) (name : Str)
    → s.mode ≡ code
    → is_empty s.cur ≡ false
    → All (λ c. is_word_byte c ≡ true) name
    → scan s name ≡ record s { cur = s.cur ++ name }
unfolding scan
scan_word s [] m n h = ap (λ t. record s { cur = t }) (sym (append-nil s.cur))
scan_word s (c ∷ name) m n (p, h) = rw (scan_word_byte s c m p (ground arith)) (
    scan_word (push c s) name m (is_empty-snoc s.cur c) h
    ∙ ap (λ t. record s { cur = t }) (append_assoc s.cur (c ∷ []) name))

scan-IsWord :
    (s : Scan) (name : Str)
    → s.mode ≡ code
    → s.cur ≡ []
    → IsWord name
    → scan s name ≡ record s { cur = name }
unfolding scan
scan-IsWord s [] m e h = absurd h
scan-IsWord s (c ∷ name) m e (p, h) = rw (scan_word_byte s c m (ground arith) (ground arith)) (
    scan_word (push c s) name m (is_empty-snoc s.cur c) h
    ∙ ap (λ t. record s { cur = (t ++ c ∷ []) ++ name }) e)

-- What was found stays, in front.
abbrev Extends : List Str → List Str → Type 0
Extends xs ys = (more : List Str) × (ys ≡ xs ++ more)

Extends-same : (xs : List Str) → Extends xs xs
Extends-same xs = ([], sym (append-nil xs))

Extends-trans : (xs ys zs : List Str) → Extends xs ys → Extends ys zs → Extends xs zs
Extends-trans xs ys zs (m, e) (n, f) = (m ++ n, f ∙ ap (λ t. t ++ n) e ∙ append_assoc xs m n)

flush-Extends : (s : Scan) → Extends s.out (flush s).out
unfolding flush
flush-Extends s = elim (Bool-cases (is_empty s.cur)) [
  | inl e ↦ rw e (Extends-same s.out)
  | inr n ↦ elim (Bool-cases s.prev_was_dot) [
    | inl dot ↦ rw (n, dot) (Extends-same s.out)
    | inr no_dot ↦ rw (n, no_dot) (s.cur ∷ [], refl)
  ]
]

-- A byte leaves what was found, or finds the word before it.
scan_code-out :
    (c : ℕ) (s : Scan) → ((scan_code c s).out ≡ s.out) ⊎ ((scan_code c s).out ≡ (flush s).out)
unfolding scan_code
scan_code-out c s = ground arith

scan_code-Extends : (c : ℕ) (s : Scan) → Extends s.out (scan_code c s).out
scan_code-Extends c s = elim (scan_code-out c s) [
  | inl same ↦ subst (Extends s.out) (sym same) (Extends-same s.out)
  | inr flushed ↦ subst (Extends s.out) (sym flushed) (flush-Extends s)
]

scan_literal-out : (c q : ℕ) (s : Scan) → (scan_byte (quoted q) c s).out ≡ s.out
unfolding scan_byte
scan_literal-out c q s = ground arith

scan_byte-Extends : (c : ℕ) (m : Mode) (s : Scan) → Extends s.out (scan_byte m c s).out
unfolding scan_byte
scan_byte-Extends c code s = scan_code-Extends c s
scan_byte-Extends c (quoted q) s =
    subst (Extends s.out) (sym (scan_literal-out c q s)) (Extends-same s.out)
scan_byte-Extends c (escaped q) s = Extends-same s.out

scan-Extends : (s : Scan) (text : Str) → Extends s.out (flush (scan s text)).out
unfolding scan
scan-Extends s [] = flush-Extends s
scan-Extends s (c ∷ text) =
    let next = scan_byte s.mode c s in
    Extends-trans s.out next.out (flush (scan next text)).out (scan_byte-Extends c s.mode s)
      (scan-Extends next text)

-- The text is at its end, or goes on with a byte that is none of a word.
abbrev pub ends_word : Str → Bool
ends_word [] = true
ends_word (c ∷ text) = not (is_word_byte c)

scan_end-out :
    (s : Scan) (c : ℕ) → is_word_byte c ≡ false → (scan_byte code c s).out ≡ (flush s).out
unfolding scan_byte scan_code
scan_end-out s c h = ground arith

scan-ends_word :
    (s : Scan) (text : Str)
    → s.mode ≡ code
    → ends_word text ≡ true
    → Extends (flush s).out (flush (scan s text)).out
unfolding scan
scan-ends_word s [] m h = Extends-same (flush s).out
scan-ends_word s (c ∷ text) m h =
    let found : (scan_byte s.mode c s).out ≡ (flush s).out =
      subst (λ x. (scan_byte x c s).out ≡ (flush s).out) (sym m)
        (scan_end-out s c (ground arith)) in
    subst (λ xs. Extends xs (flush (scan (scan_byte s.mode c s) text)).out) found
      (scan-Extends (scan_byte s.mode c s) text)

mode-flush : (s : Scan) → (flush s).mode ≡ s.mode
unfolding flush
mode-flush s = ground arith

mode-after_bracket : (s : Scan) → s.mode ≡ code → (after_bracket s).mode ≡ code
unfolding after_bracket
mode-after_bracket s m = mode-flush s ∙ m

scan-bracket : (s : Scan) → s.mode ≡ code → scan s (bytes "]") ≡ after_bracket s
unfolding scan
scan-bracket s m = subst (λ x. scan_byte x b']' s ≡ after_bracket s) (sym m) (scan_bracket s)

scan-bracket_dot : (s : Scan) → s.mode ≡ code → scan s (bytes "].") ≡ after_bracket s
unfolding scan
scan-bracket_dot s m =
    ap (λ t. scan_byte t.mode b'.' t) (scan-bracket s m)
    ∙ subst (λ x. scan_byte x b'.' (after_bracket s) ≡ after_bracket s)
        (sym (mode-after_bracket s m)) (scan_dot s)

flush_word :
    (s : Scan) (name : Str)
    → IsWord name
    → (flush (record (after_bracket s) { cur = name })).out ≡ (after_bracket s).out ++ name ∷ []
unfolding flush after_bracket
flush_word s [] h = absurd h
flush_word s (c ∷ name) h = refl

-- Behind a bracket, outside a literal, the scanner reads the field of a selector as an identifier of
-- its own, where the field is a letter or `_` and then letters, digits and `_`, as far as the end of
-- the text or a byte that is none of these: it is the next identifier found after those before the
-- bracket, whatever comes before and whatever follows.
pub identifiers-bracket :
    (before name after : Str)
    → (scan start before).mode ≡ code
    → IsWord name
    → ends_word after ≡ true
    → (more : List Str) × (identifiers (before ++ (bytes "]." ++ (name ++ after)))
        ≡ identifiers (before ++ bytes "]") ++ name ∷ more)
unfolding identifiers
identifiers-bracket before name after m h ends =
    let b = scan start before in
    let here = record (after_bracket b) { cur = name } in
    let empty : (after_bracket b).cur ≡ [] = unfold after_bracket in cur-flush b in
    let closed = scan-append start before (bytes "]") ∙ scan-bracket b m in
    let dotted =
      scan-append start before (bytes "]." ++ (name ++ after))
      ∙ scan-append b (bytes "].") (name ++ after)
      ∙ ap (λ t. scan t (name ++ after)) (scan-bracket_dot b m)
      ∙ scan-append (after_bracket b) name after
      ∙ ap (λ t. scan t after)
          (scan-IsWord (after_bracket b) name (mode-after_bracket b m) empty h) in
    let (more, found) = scan-ends_word here after (mode-after_bracket b m) ends in
    let bracket : (flush (scan start (before ++ bytes "]"))).out ≡ (after_bracket b).out =
      ap (λ t. t.out) (ap flush closed ∙ flush-empty (after_bracket b) empty) in
    (
      more,
      ap (λ t. (flush t).out) dotted
          ∙ found
          ∙ ap (λ t. t ++ more) (flush_word b name h)
          ∙ append_assoc (after_bracket b).out (name ∷ []) more
          ∙ ap (λ t. t ++ name ∷ more) (sym bracket),
    )
