-- ===== src/Core/Examples.antt =====
-- The scanner at concrete inputs.
use multi_agent_system_turbo.Base.{◌≡◌, refl, List, Str, [], ◌∷◌, ◌++◌, bytes, text_run}
use multi_agent_system_turbo.Core.Identifiers.{flush, scan_code, scan_byte, scan, identifiers}
use multi_agent_system_turbo.Core.Scanner.{is_content, identifiers-literal}
use multi_agent_system_turbo.Core.Selectors.{identifiers-bracket}

-- A word inside a literal is none, a field behind a dot is none.
identifiers_test :
    identifiers (bytes "used.x > 'limit' && limit") ≡ bytes "used" ∷ bytes "limit" ∷ []
unfolding text_run identifiers scan scan_byte scan_code flush
identifiers_test = refl

-- A pattern with an escaped quote, whose words are none.
identifiers-literal_example :
    identifiers (bytes "name == 'slots \\' up' && up") ≡ identifiers (bytes "name == '' && up")
unfolding scan scan_byte scan_code flush is_content text_run
identifiers-literal_example =
    identifiers-literal (bytes "name == ") (bytes "slots \\' up") (bytes " && up") b'\'' refl refl
      refl

identifiers-bracket_example :
    (more : List Str) × (identifiers (bytes "rows[0].last_p99 > 3 && up")
      ≡ identifiers (bytes "rows[0]") ++ bytes "last_p99" ∷ more)
unfolding scan scan_byte scan_code flush text_run
identifiers-bracket_example =
    identifiers-bracket (bytes "rows[0") (bytes "last_p99") (bytes " > 3 && up") refl
      (refl, (refl, (refl, (refl, (refl, (refl, (refl, (refl, tt)))))))) refl
