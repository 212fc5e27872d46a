-- ===== src/Outbound/Addresses.antt =====
-- outbound/groups.go: the parts of `BuildGroups` that read a group's upstream servers and hijack rules,
-- and `ensurePort`; outbound/caller.go: `NewDNSCaller`, `NewDoTCaller`, `NewDoHCallerV2`. The proxy
-- that a caller dials through is its group's and stands there. A URL is a parameter.
use ts_dns.Common.{
  ℕ, suc, ◌-◌, Bool, true, false, not, ◌&&◌, ◌||◌, Option, none, some, List, [], ◌∷◌, ◌++◌,
  if◌then◌else◌, leb, ◌==◌, any, length, take, drop, reverse, Bytes, codes, eq_bytes, split,
  contains_byte, dot, is_some,
}
use ts_dns.Dns.{DnsLib, NetLib}
use ts_dns.Outbound.Hijack.{HijackRule, is_nil}
mod Rules
mod Tests

-- `strings.Trim(s, "[]")`.
abbrev is_bracket : ℕ → Bool
is_bracket c = c == b'[' || c == b']'

unfoldable pub drop_brackets : Bytes → Bytes
drop_brackets [] = []
drop_brackets (c ∷ s) = let rest = drop_brackets s in if is_bracket c then rest else c ∷ s

unfoldable pub trim_brackets : Bytes → Bytes
unfolding drop_brackets
trim_brackets s = reverse (drop_brackets (reverse (drop_brackets s)))

-- `strings.HasSuffix`.
unfoldable pub has_suffix : Bytes → Bytes → Bool
unfolding eq_bytes
has_suffix s t = leb (length t) (length s) && eq_bytes (drop (length s - length t) s) t

-- A URL of Go's `net/url`: whether it is absolute, the host without port, the port, the scheme and the text.
pub record Url : Type 0 where
  pub is_abs : Bool
  pub hostname : Bytes
  pub port : Bytes
  pub scheme : Bytes
  pub text : Bytes

-- `Caller`, as it is built: `DNSCaller` with its server and network (`tcp-tls` with the TLS server name
-- for DNS over TLS), and `DoHCallerV2` with the hosts that its clients dial.
pub data Caller : Type 0 where
  dns_caller : Bytes → Bytes → Caller
  dot_caller : Bytes → Bytes → Caller
  doh_caller : Bytes → Bytes → Bytes → List Bytes → Caller

-- The body of the loop over the hijack rules; `none` is a warning and no rule.
abbrev hijack_rule : DnsLib → Bytes → Bytes → Option HijackRule
hijack_rule dns source dest =
    if is_nil source || is_nil dest
    then none
    else if not (contains_byte dot source) || not (contains_byte dot dest)
    then none
    else some (record { source = dns.fqdn source; dest = dns.fqdn dest })

abbrev pub rule_of_parts : DnsLib → List Bytes → Option HijackRule
rule_of_parts dns ([] ∷ source ∷ dest ∷ [] ∷ []) = hijack_rule dns source dest
rule_of_parts dns parts = none

unfoldable pub parse_hijack_rule : DnsLib → Bytes → Option HijackRule
unfolding split
parse_hijack_rule dns rule = rule_of_parts dns (split b'/' rule)

abbrev pub cons_valid {ℓ} : {A : Type ℓ} → Option A → List A → List A
cons_valid none xs = xs
cons_valid (some x) xs = x ∷ xs

unfoldable pub hijack_rules : DnsLib → List Bytes → List HijackRule
unfolding parse_hijack_rule
hijack_rules dns [] = []
hijack_rules dns (rule ∷ rest) = cons_valid (parse_hijack_rule dns rule) (hijack_rules dns rest)

module _ (net : NetLib) where
  -- `ensurePort`.
  unfoldable pub ensure_port : Bytes → Bytes → Bytes
  unfolding trim_brackets
  ensure_port addr default_port =
      if is_some (net.split_host_port addr)
      then addr
      else net.join_host_port (trim_brackets addr) default_port

  -- The loop over `conf.DNS`.
  abbrev dns_server : Bytes → Bytes → List Caller
  dns_server [] network = []
  dns_server (c ∷ s) network = dns_caller (ensure_port (c ∷ s) (codes "53")) network ∷ []

  unfoldable pub dns_callers : List Bytes → List Caller
  unfolding ensure_port has_suffix
  dns_callers [] = []
  dns_callers (addr ∷ rest) =
      (if has_suffix addr (codes "/tcp")
        then dns_server (take (length addr - 4) addr) (codes "tcp")
        else dns_server addr (codes "udp"))
      ++ dns_callers rest

  -- The loop over `conf.DoT`.
  abbrev dot_server : List Bytes → List Caller
  dot_server ((a ∷ addr) ∷ (n ∷ name) ∷ []) =
      dot_caller (ensure_port (a ∷ addr) (codes "853")) (n ∷ name) ∷ []
  dot_server parts = []

  unfoldable pub dot_callers : List Bytes → List Caller
  unfolding ensure_port split
  dot_callers [] = []
  dot_callers (addr ∷ rest) = dot_server (split b'@' addr) ++ dot_callers rest

  -- `NewDoHCallerV2`; `none` is an error.
  abbrev url_port : Url → Bytes
  url_port u =
      if not (is_nil u.port)
      then u.port
      else if eq_bytes u.scheme (codes "http")
      then codes "80"
      else codes "443"

  abbrev pub clients_of : Bytes → List Bytes
  clients_of host = elim (net.parse_ip host) [ none ↦ [] | some ip ↦ net.ip_string ip ∷ [] ]

  abbrev doh_of_url : Url → Option Caller
  doh_of_url u =
      if not u.is_abs || is_nil u.hostname
      then none
      else if contains_byte b':' u.hostname && not (is_some (net.parse_ip u.hostname))
      then none
      else some (doh_caller u.hostname (url_port u) u.text (clients_of u.hostname))

  module _ (parse_url : Bytes → Option Url) where
    unfoldable pub new_doh_caller : Bytes → Option Caller
    unfolding eq_bytes
    new_doh_caller raw = elim (parse_url raw) [ none ↦ none | some u ↦ doh_of_url u ]

    -- The loop over `conf.DoH`.
    unfoldable pub doh_callers : List Bytes → Option (List Caller)
    unfolding new_doh_caller
    doh_callers [] = some []
    doh_callers (addr ∷ rest) = elim (new_doh_caller addr) [
      | none ↦ none
      | some c ↦ elim (doh_callers rest) [ none ↦ none | some cs ↦ some (c ∷ cs) ]
    ]
