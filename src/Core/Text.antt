-- ===== src/Core/Text.antt =====
-- internal/core/text.go: a text in two languages.
use multi_agent_system_turbo.Base.{Bool, not, ◌&&◌, Str, bytes, if◌then◌else◌, str_eq, is_blank}

pub record Text : Type 0 where
  pub en : Str
  pub zh : Str

unfoldable pub text_in : Str → Text → Str
text_in lang t =
    if str_eq lang (bytes "zh") && not (is_blank t.zh)
    then t.zh
    else if not (is_blank t.en)
    then t.en
    else t.zh

unfoldable pub is_complete : Text → Bool
is_complete t = not (is_blank t.en) && not (is_blank t.zh)
