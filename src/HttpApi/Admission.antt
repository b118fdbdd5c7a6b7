-- ===== src/HttpApi/Admission.antt =====
-- internal/httpapi/admission.go: which server may start. What package net makes of an address is a
-- parameter: the host of host:port, an address literal, a lookup, and whether an address is a
-- loopback one.
use multi_agent_system_turbo.Base.{
  Bool, false, not, ◌&&◌, ◌||◌, Option, none, some, List, [], ◌∷◌, Str, bytes, if◌then◌else◌,
  is_empty, all, trim_space, ◌==◌, ℕ,
}
use mathlib.Core.List.{reverse}
use multi_agent_system_turbo.HttpApi.Config.{ServerConfig}

pub record Net (Ip : Type 0) : Type 0 where
  pub host_of : Str → Option Str
  pub parse_ip : Str → Option Ip
  pub lookup_ip : Str → Option (List Ip)
  pub is_loopback_ip : Ip → Bool

abbrev pub is_bracket : ℕ → Bool
is_bracket c = (c == b'[') || (c == b']')

unfoldable pub trim_brackets_left : Str → Str
trim_brackets_left [] = []
trim_brackets_left (c ∷ s) = let rest = trim_brackets_left s in if is_bracket c then rest else c ∷ s

unfoldable pub trim_brackets : Str → Str
unfolding trim_brackets_left
trim_brackets s = reverse (trim_brackets_left (reverse (trim_brackets_left s)))

abbrev pub or_addr : Str → Option Str → Str
or_addr addr none = addr
or_addr addr (some host) = host

module _ {Ip : Type 0} (net : Net Ip) where
  -- A host name that resolves, to loopback addresses only.
  unfoldable pub resolves_to_loopback : Str → Bool
  resolves_to_loopback host = elim (net.lookup_ip host) [
    | none ↦ false
    | some ips ↦ if is_empty ips then false else all net.is_loopback_ip ips
  ]

  unfoldable pub is_loopback : Str → Bool
  unfolding trim_brackets resolves_to_loopback
  is_loopback addr =
      let host = trim_space (or_addr addr (net.host_of addr)) in
      if is_empty host then false else elim (net.parse_ip (trim_brackets host)) [
        | some ip ↦ net.is_loopback_ip ip
        | none ↦ resolves_to_loopback host
      ]

  -- The code of the refusal.
  unfoldable pub admit : ServerConfig → Option Str
  unfolding is_loopback
  admit cfg =
      if is_loopback cfg.addr
      then none
      else if is_empty cfg.tokens
      then some (bytes "MAS-7010")
      else if not cfg.tls_enabled && not cfg.terminated_by_proxy
      then some (bytes "MAS-7011")
      else none
