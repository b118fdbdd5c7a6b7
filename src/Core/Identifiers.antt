-- ===== src/Core/Identifiers.antt =====
-- internal/core/expr.go: Identifiers and IsExprBuiltin.
-- The inner loop over a quoted literal is the modes `quoted` and `escaped` of the scanner.
use multi_agent_system_turbo.Base.{
  ℕ, Bool, true, false, not, ◌&&◌, ◌||◌, List, [], ◌∷◌, ◌++◌, map, Str, bytes, if◌then◌else◌, leb,
  ◌==◌, is_empty, member,
}

pub data Mode : Type 0 where
  code : Mode
  quoted : ℕ → Mode
  escaped : ℕ → Mode

pub record Scan : Type 0 where
  pub out : List Str
  pub cur : Str
  pub prev_was_dot : Bool
  pub mode : Mode

abbrev pub is_quote : ℕ → Bool
is_quote c = (c == 39) || ((c == 34) || (c == 96))

abbrev pub is_letter : ℕ → Bool
is_letter c = (leb 97 c && leb c 122) || (leb 65 c && leb c 90)

abbrev pub is_digit : ℕ → Bool
is_digit c = leb 48 c && leb c 57

unfoldable pub flush : Scan → Scan
flush s =
    if is_empty s.cur
    then s
    else record s { out = if s.prev_was_dot then s.out else s.out ++ s.cur ∷ []; cur = [] }

abbrev pub push : ℕ → Scan → Scan
push c s = record s { cur = s.cur ++ c ∷ [] }

-- One byte outside a literal.
unfoldable pub scan_code : ℕ → Scan → Scan
scan_code c s =
    if is_quote c
    then record (flush s) { prev_was_dot = false; mode = quoted c }
    else if c == b'_'
    then push c s
    else if (c == b'.') && not (is_empty s.cur)
    then record (flush s) { prev_was_dot = true }
    else if is_letter c
    then push c s
    else if is_digit c
    then (if is_empty s.cur then s else push c s)
    else record (flush s) { prev_was_dot = false }

unfoldable pub scan_byte : Mode → ℕ → Scan → Scan
unfolding scan_code
scan_byte code c s = scan_code c s
scan_byte (quoted q) c s =
    if c == q
    then record s { mode = code }
    else if (c == 92) && not (q == 96)
    then record s { mode = escaped q }
    else s
scan_byte (escaped q) c s = record s { mode = quoted q }

unfoldable pub scan : Scan → Str → Scan
unfolding scan_byte
scan s [] = s
scan s (c ∷ text) = scan (scan_byte s.mode c s) text

abbrev pub start : Scan
start = record { out = []; cur = []; prev_was_dot = false; mode = code }

unfoldable pub identifiers : Str → List Str
unfolding scan flush
identifiers text = (flush (scan start text)).out

unfoldable pub expr_builtins : List Str
expr_builtins = map bytes (
    "true" ∷ "false" ∷ "nil" ∷ "and" ∷ "or" ∷ "not" ∷ "in" ∷ "matches" ∷ "contains" ∷ "startsWith"
    ∷ "endsWith" ∷ "len" ∷ "all" ∷ "any" ∷ "none" ∷ "one" ∷ "filter" ∷ "map" ∷ "count" ∷ "sum"
    ∷ "avg" ∷ "min" ∷ "max" ∷ "abs" ∷ "int" ∷ "float" ∷ "string" ∷ "lower" ∷ "upper"
    ∷ "countMatching" ∷ "ratio" ∷ "pct" ∷ "isNaN" ∷ "finite" ∷ [])

unfoldable pub is_expr_builtin : Str → Bool
is_expr_builtin ident = member ident expr_builtins
