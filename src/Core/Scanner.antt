-- ===== src/Core/Scanner.antt =====
-- What the scanner of expressions returns.
use multi_agent_system_turbo.Base.{
  ℕ, ◌≡◌, refl, sym, ap, subst, ◌∙◌, ◌⊎◌, inl, inr, Bool, true, false, not, ◌&&◌, ◌||◌, [], ◌∷◌,
  ◌++◌, Str, arith, ◌==◌, Bool-cases, is_empty, All, All-append,
}
use multi_agent_system_turbo.Core.Identifiers.{
  Mode, code, quoted, escaped, Scan, is_quote, is_letter, is_digit, flush, push, scan_code,
  scan_byte, scan, start, identifiers,
}

pub scan-append : (s : Scan) (t u : Str) → scan s (t ++ u) ≡ scan (scan s t) u
unfolding scan
scan-append s [] u = refl
scan-append s (c ∷ t) u = scan-append (scan_byte s.mode c s) t u

-- The content of a literal in the quotes `q`: outside backquotes a backslash takes the next byte with
-- it, whatever that is; no other byte is the closing quote, and no backslash is left over. `after` is
-- whether a backslash came before.
unfoldable pub is_content : ℕ → Bool → Str → Bool
is_content q after [] = not after
is_content q true (c ∷ body) = is_content q false body
is_content q false (c ∷ body) = not (c == q) && is_content q ((c == 92) && not (q == 96)) body

abbrev in_literal : ℕ → Bool → Mode
in_literal q true = escaped q
in_literal q false = quoted q

after_backslash :
    (q : ℕ) (s : Scan) (c : ℕ) → scan_byte (escaped q) c s ≡ record s { mode = quoted q }
unfolding scan_byte
after_backslash q s c = refl

inside_literal :
    (q : ℕ) (s : Scan) (c : ℕ)
    → s.mode ≡ quoted q
    → (c == q) ≡ false
    → scan_byte (quoted q) c s ≡ record s { mode = in_literal q ((c == 92) && not (q == 96)) }
unfolding scan_byte
inside_literal q s c m n = elim (Bool-cases ((c == 92) && not (q == 96))) [
  | inl escapes ↦ rw (n, escapes)
  | inr plain ↦ rw (n, plain) (ap (λ x. record s { mode = x }) m)
]

scan-content :
    (q : ℕ) (after : Bool) (s : Scan) (body : Str)
    → s.mode ≡ in_literal q after
    → is_content q after body ≡ true
    → scan s body ≡ record s { mode = quoted q }
unfolding scan is_content
scan-content q true s [] m h = absurd (cc)
scan-content q false s [] m h = ap (λ x. record s { mode = x }) m
scan-content q true s (c ∷ body) m h =
    ap (λ x. scan (scan_byte x c s) body) m
    ∙ ap (λ t. scan t body) (after_backslash q s c)
    ∙ scan-content q false (record s { mode = quoted q }) body refl h
scan-content q false s (c ∷ body) m h =
    let next = (c == 92) && not (q == 96) in
    ap (λ x. scan (scan_byte x c s) body) m
    ∙ ap (λ t. scan t body) (inside_literal q s c m (ground arith))
    ∙ scan-content q next (record s { mode = in_literal q next }) body refl (ground arith)

opens : (s : Scan) (q : ℕ) → is_quote q ≡ true → (scan_byte code q s).mode ≡ quoted q
unfolding scan_byte scan_code
opens s q o = rw o

literal_skipped :
    (s : Scan) (body after : Str) (q : ℕ)
    → s.mode ≡ code
    → is_quote q ≡ true
    → is_content q false body ≡ true
    → scan s (q ∷ (body ++ q ∷ after)) ≡ scan s (q ∷ q ∷ after)
unfolding scan
literal_skipped s body after q m o h =
    let opened : (scan_byte s.mode q s).mode ≡ quoted q =
      subst (λ x. (scan_byte x q s).mode ≡ quoted q) (sym m) (opens s q o) in
    scan-append (scan_byte s.mode q s) body (q ∷ after)
    ∙ ap (λ t. scan t (q ∷ after))
        (scan-content q false (scan_byte s.mode q s) body opened h
          ∙ ap (λ x. record (scan_byte s.mode q s) { mode = x }) (sym opened))

-- Where a literal opens outside any other, its content as far as the quote that closes it does not
-- change the identifiers found, whatever the content is, escaped quotes and backslashes included.
pub identifiers-literal :
    (before body after : Str) (q : ℕ)
    → (scan start before).mode ≡ code
    → is_quote q ≡ true
    → is_content q false body ≡ true
    → identifiers (before ++ q ∷ (body ++ q ∷ after)) ≡ identifiers (before ++ q ∷ q ∷ after)
unfolding identifiers
identifiers-literal before body after q m o h =
    ap (λ t. (flush t).out)
      (scan-append start before (q ∷ (body ++ q ∷ after))
        ∙ literal_skipped (scan start before) body after q m o h
        ∙ sym (scan-append start before (q ∷ q ∷ after)))

abbrev pub is_word_byte : ℕ → Bool
is_word_byte c = (c == b'_') || (is_letter c || is_digit c)

-- A letter or `_`, and then letters, digits and `_`.
abbrev pub IsWord : Str → Type 0
IsWord [] = ⊥
IsWord (c ∷ s) = (((c == b'_') || is_letter c) ≡ true) × All (λ d. is_word_byte d ≡ true) s

record IsSound (s : Scan) : Type 0 where
  words : All IsWord s.out
  current : (s.cur ≡ []) ⊎ IsWord s.cur

IsWord-snoc : (w : Str) (c : ℕ) → IsWord w → is_word_byte c ≡ true → IsWord (w ++ c ∷ [])
IsWord-snoc [] c h b = absurd h
IsWord-snoc (d ∷ w) c (f, h) b = (f, All-append _ w (c ∷ []) h (b, tt))

push-IsSound :
    (c : ℕ) (s : Scan) → ((c == b'_') || is_letter c) ≡ true → IsSound s → IsSound (push c s)
push-IsSound c s b h = record {
  words = h.words;
  current = inr (elim h.current [
    | inl none_yet ↦ rw none_yet (b, tt)
    | inr w ↦ IsWord-snoc s.cur c w (ground arith)
  ]);
}

push_digit-IsSound :
    (c : ℕ) (s : Scan) → is_digit c ≡ true → is_empty s.cur ≡ false → IsSound s → IsSound (push c s)
push_digit-IsSound c s b n h = record {
  words = h.words;
  current = elim h.current [
    | inl none_yet ↦ absurd (cc (ap is_empty none_yet))
    | inr w ↦ inr (IsWord-snoc s.cur c w (ground arith))
  ];
}

flush-IsSound : (s : Scan) → IsSound s → IsSound (flush s)
unfolding flush
flush-IsSound s h = elim h.current [
  | inl none_yet ↦ rw none_yet (record { words = h.words; current = inl refl })
  | inr w ↦ flush_word w
]
  where
    flush_word : IsWord s.cur → IsSound (flush s)
    flush_word w = elim (Bool-cases (is_empty s.cur)) [
      | inl e ↦ rw e h
      | inr n ↦ rw n (record {
        words = elim (Bool-cases s.prev_was_dot) [
          | inl dot ↦ rw dot h.words
          | inr no_dot ↦ rw no_dot (All-append IsWord s.out (s.cur ∷ []) h.words (w, tt))
        ];
        current = inl refl;
      })
    ]

scan_code-IsSound : (c : ℕ) (s : Scan) → IsSound s → IsSound (scan_code c s)
unfolding scan_code
scan_code-IsSound c s h =
    let f = flush-IsSound s h in
    elim (Bool-cases (is_quote c)) [
      | inl a ↦ rw a (record { words = f.words; current = f.current })
      | inr a' ↦ rw a' (elim (Bool-cases (c == b'_')) [
        | inl b ↦ rw b (push-IsSound c s (rw b) h)
        | inr b' ↦ rw b' (elim (Bool-cases ((c == b'.') && not (is_empty s.cur))) [
          | inl d ↦ rw d (record { words = f.words; current = f.current })
          | inr d' ↦ rw d' (elim (Bool-cases (is_letter c)) [
            | inl e ↦ rw e (push-IsSound c s (ground arith) h)
            | inr e' ↦ rw e' (elim (Bool-cases (is_digit c)) [
              | inl g ↦ rw g (elim (Bool-cases (is_empty s.cur)) [
                | inl n ↦ rw n h
                | inr n' ↦ rw n' (push_digit-IsSound c s g n' h)
              ])
              | inr g' ↦ rw g' (record { words = f.words; current = f.current })
            ])
          ])
        ])
      ])
    ]

scan_byte-IsSound : (c : ℕ) (m : Mode) (s : Scan) → IsSound s → IsSound (scan_byte m c s)
unfolding scan_byte
scan_byte-IsSound c code s h = scan_code-IsSound c s h
scan_byte-IsSound c (quoted q) s h = elim (Bool-cases (c == q)) [
  | inl a ↦ rw a (record { words = h.words; current = h.current })
  | inr a' ↦ rw a' (elim (Bool-cases ((c == 92) && not (q == 96))) [
    | inl b ↦ rw b (record { words = h.words; current = h.current })
    | inr b' ↦ rw b' h
  ])
]
scan_byte-IsSound c (escaped q) s h = record { words = h.words; current = h.current }

scan-IsSound : (s : Scan) (text : Str) → IsSound s → IsSound (scan s text)
unfolding scan
scan-IsSound s [] h = h
scan-IsSound s (c ∷ text) h =
    scan-IsSound (scan_byte s.mode c s) text (scan_byte-IsSound c s.mode s h)

-- Every identifier is a word: a letter or `_` followed by letters, digits and `_`.
pub identifiers-IsWord : (text : Str) → All IsWord (identifiers text)
unfolding identifiers
identifiers-IsWord text =
    (flush-IsSound (scan start text)
      (scan-IsSound start text (record { words = tt; current = inl refl }))).words
