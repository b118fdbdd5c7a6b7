-- ===== src/Safety/Effects.antt =====
-- internal/safety/guard.go: what a call declares, the rules of the allow-list, and the refusals.
-- Amounts of bytes and time are natural numbers: the code treats what is not positive alike.
-- A refusal keeps its code and the tool that it names; the text of its message is left out.
use multi_agent_system_turbo.Base.{ℕ, Bool, Option, some, List, Str}
use multi_agent_system_turbo.Regexp.{Re}

pub data Class : Type 0 where
  read_only : Class
  mutating : Class
  undeclared : Str → Class

pub record HttpEffect : Type 0 where
  pub method : Str
  pub url : Str

pub record CommandEffect : Type 0 where
  pub binary : Str
  pub args : List Str

pub record ExecEffect : Type 0 where
  pub namespace : Str
  pub pod : Str
  pub container : Str
  pub binary : Str
  pub args : List Str

pub record FileEffect : Type 0 where
  pub path : Str

pub record Call : Type 0 where
  pub tool : Str
  pub class : Class
  pub http : Option HttpEffect
  pub command : Option CommandEffect
  pub exec : Option ExecEffect
  pub file : Option FileEffect
  pub size : ℕ
  pub timeout : ℕ

pub record CommandRule : Type 0 where
  pub binary : Str
  pub description : Str
  pub flags_with_value : List Str
  pub allowed_verbs : List Str
  pub denied_sequences : List (List Str)
  pub value_allow_list : List (Str × List Re)

pub record PathRule : Type 0 where
  pub method : Str
  pub pattern : Re
  pub description : Str

-- A compiled expression is known by what it matches.
abbrev pub Regexp : Type 0
Regexp = Str → Bool

pub record CompiledCommandRule : Type 0 where
  pub rule : CommandRule
  pub flags_with_value : List Str
  pub allowed_verbs : List Str
  pub denied_sequences : List (List Str)
  pub value_allow_list : List (Str × List Regexp)

pub record CompiledPathRule : Type 0 where
  pub method : Str
  pub pattern : Regexp
  pub desc : Str

pub record Guard : Type 0 where
  pub commands : List (Str × CompiledCommandRule)
  pub paths : List CompiledPathRule
  pub denied_args : List Regexp
  pub max_bytes : ℕ
  pub max_timeout : ℕ

-- What package net/url makes of the text of a URL.
pub record Url : Type 0 where
  pub path : Str
  pub escaped_path : Str

pub data Code : Type 0 where
  mas_8001 mas_8002 mas_8003 mas_8005 mas_8010 : Code

pub record Refusal : Type 0 where
  pub code : Code
  pub tool : Str

abbrev pub refuse : Code → Str → Option Refusal
refuse c t = some (record { code = c; tool = t })
