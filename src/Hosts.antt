-- ===== src/Hosts.antt =====
-- hosts/hosts.go. The zero `ipInfo` is `none`; a nil list of addresses is the empty one; a Go map is an
-- association list, in the order of Go's `range`. A file is a parameter: its lines, with whether the
-- scan ended without error, or `none` where it cannot be opened. White space is ASCII.
use ts_dns.Common.{
  ℕ, suc, Bool, true, false, not, ◌&&◌, ◌||◌, Option, none, some, List, [], ◌∷◌, ◌++◌,
  if◌then◌else◌, map,
}
use ts_dns.Common.{
  ltb, leb, ◌==◌, any, length, Bytes, codes, dot, eq_bytes, to_lower, trim_space, is_space,
  has_prefix,
}
use ts_dns.Common.{
  contains_byte, replace_byte, lookup, insert, ends_with, drop_last, is_some, ◌>>=◌,
}
use ts_dns.Dns.{Rr, Question, Msg, DnsLib, NetLib, type_a, type_aaaa}
use ts_dns.Regexp.{RegexpLib}
mod Tables
mod Gets
mod Tests

-- `ipInfo`.
pub record IpInfo : Type 0 where
  pub val : Bytes
  pub ip_type : ℕ

-- `hostPattern`.
pub record HostPattern (R : Type 0) : Type 0 where
  pub pattern : Bytes
  pub reg : R
  pub ips : List IpInfo

-- `HostReader`.
pub record HostReader (R : Type 0) : Type 0 where
  pub domain_map : List (Bytes × List IpInfo)
  pub patterns : List (HostPattern R)

-- The two maps that `NewDNSHosts` fills.
pub record HostMaps (R : Type 0) : Type 0 where
  pub domain_map : List (Bytes × List IpInfo)
  pub pattern_map : List (Bytes × HostPattern R)

-- `strings.FieldsFunc`, with the field that is being read.
abbrev non_empty : Bytes → List Bytes
non_empty [] = []
non_empty (c ∷ s) = (c ∷ s) ∷ []

unfoldable pub fields_from : (ℕ → Bool) → Bytes → Bytes → List Bytes
fields_from p field [] = non_empty field
fields_from p field (c ∷ s) =
    let ended = fields_from p [] s in
    let longer = fields_from p (field ++ c ∷ []) s in
    if p c then non_empty field ++ ended else longer

-- `splitIPs`.
unfoldable pub split_ips : Bytes → List Bytes
unfolding fields_from is_space
split_ips raw = fields_from (λ c. is_space c || c == b',') [] raw

-- `containsIP`.
abbrev pub same_ip : IpInfo → IpInfo → Bool
same_ip target ip = eq_bytes ip.val target.val && ip.ip_type == target.ip_type

unfoldable pub contains_ip : List IpInfo → IpInfo → Bool
unfolding eq_bytes
contains_ip list target = any (same_ip target) list

abbrev pub or_empty : Option (List IpInfo) → List IpInfo
or_empty none = []
or_empty (some ips) = ips

-- The closure `addDomainIP`.
unfoldable pub add_domain_ip :
    Bytes → IpInfo → List (Bytes × List IpInfo) → List (Bytes × List IpInfo)
unfolding contains_ip lookup insert
add_domain_ip domain ip m =
    let ips = or_empty (lookup domain m) in
    if contains_ip ips ip then m else insert domain (ips ++ ip ∷ []) m

-- The closure `addPatternIP`.
abbrev add_to_pattern : {R : Type 0} → IpInfo → HostPattern R → HostPattern R
add_to_pattern ip p = if contains_ip p.ips ip then p else record p { ips = p.ips ++ ip ∷ [] }

unfoldable pub add_pattern_ip :
    {R : Type 0}
    → Bytes
    → Bytes
    → R
    → IpInfo
    → List (Bytes × HostPattern R)
    → List (Bytes × HostPattern R)
unfolding contains_ip lookup insert
add_pattern_ip host pattern_host reg ip m = elim (lookup host m) [
  | some p ↦ insert host (add_to_pattern ip p) m
  | none ↦ insert host (record { pattern = pattern_host; reg = reg; ips = ip ∷ [] }) m
]

abbrev pub is_wildcard : Bytes → Bool
is_wildcard host = contains_byte b'*' host || contains_byte b'?' host

-- The three replacements that make an expression of a wildcard.
unfoldable pub pattern_of : Bytes → Bytes
unfolding replace_byte
pattern_of host =
    replace_byte b'?' (codes ".")
      (replace_byte b'*' (codes ".*") (replace_byte dot (codes "\\.") host))

-- `Record`.
abbrev pub record_text : IpInfo → Bytes → Bytes
record_text ip host =
    if ip.ip_type == type_a
    then host ++ codes " 0 IN A " ++ ip.val
    else host ++ codes " 0 IN AAAA " ++ ip.val

-- `patterns[i]` before `patterns[j]`.
unfoldable pub less_bytes : Bytes → Bytes → Bool
less_bytes [] [] = false
less_bytes [] (y ∷ t) = true
less_bytes (x ∷ s) [] = false
less_bytes (x ∷ s) (y ∷ t) = ltb x y || x == y && less_bytes s t

unfoldable pub pattern_less : {R : Type 0} → HostPattern R → HostPattern R → Bool
unfolding less_bytes
pattern_less p q =
    if not (length p.pattern == length q.pattern)
    then ltb (length q.pattern) (length p.pattern)
    else less_bytes p.pattern q.pattern

module _ (re : RegexpLib) (net : NetLib) where
  open re use {Regexp, compile}

  -- `buildIPInfo`.
  unfoldable pub build_ip_info : Bytes → Option IpInfo
  build_ip_info val = elim (net.parse_ip val) [
    | none ↦ none
    | some ip ↦
        if net.is_v4 ip
        then some (record { val = val; ip_type = type_a })
        else if net.is_v16 ip
        then some (record { val = val; ip_type = type_aaaa })
        else none
  ]

  -- One address for one host; `none` is an error.
  unfoldable pub add_ip : Bytes → IpInfo → HostMaps Regexp → Option (HostMaps Regexp)
  unfolding add_domain_ip add_pattern_ip pattern_of
  add_ip host ip m =
      if not (is_wildcard host)
      then some (record m { domain_map = add_domain_ip host ip m.domain_map })
      else do
        reg ← compile (codes "^" ++ pattern_of host ++ codes "$")
        some (record m { pattern_map = add_pattern_ip host (pattern_of host) reg ip m.pattern_map })

  unfoldable pub add_ips : Bytes → List Bytes → HostMaps Regexp → Option (HostMaps Regexp)
  unfolding add_ip build_ip_info
  add_ips host [] m = some m
  add_ips host (s ∷ rest) m = do ip ← build_ip_info s; m' ← add_ip host ip m; add_ips host rest m'

  -- The closure `load`.
  unfoldable pub load_raw : Bytes → List Bytes → HostMaps Regexp → Option (HostMaps Regexp)
  unfolding add_ips split_ips
  load_raw host [] m = some m
  load_raw host (raw ∷ rest) m = do m' ← add_ips host (split_ips raw) m; load_raw host rest m'

  abbrev pub load_host : Bytes → List Bytes → HostMaps Regexp → Option (HostMaps Regexp)
  load_host [] ips m = some m
  load_host (c ∷ s) ips m = load_raw (c ∷ s) ips m

  unfoldable pub load : Bytes → List Bytes → HostMaps Regexp → Option (HostMaps Regexp)
  unfolding load_raw to_lower trim_space
  load host ips m = load_host (to_lower (trim_space host)) ips m

  -- The loop over `conf.Hosts`.
  unfoldable pub load_hosts : List (Bytes × List Bytes) → HostMaps Regexp → Option (HostMaps Regexp)
  unfolding load
  load_hosts [] m = some m
  load_hosts ((host, ips) ∷ rest) m = do m' ← load host ips m; load_hosts rest m'

  -- The domains of a line that starts with an address.
  abbrev add_line_domain : Bytes → IpInfo → HostMaps Regexp → Option (HostMaps Regexp)
  add_line_domain [] ip m = some m
  add_line_domain (c ∷ s) ip m = add_ip (c ∷ s) ip m

  unfoldable pub add_line_domains : List Bytes → IpInfo → HostMaps Regexp → Option (HostMaps Regexp)
  unfolding add_ip to_lower trim_space
  add_line_domains [] ip m = some m
  add_line_domains (domain ∷ rest) ip m = do
    m' ← add_line_domain (to_lower (trim_space domain)) ip m
    add_line_domains rest ip m'

  abbrev read_parts : List Bytes → HostMaps Regexp → Option (HostMaps Regexp)
  read_parts [] m = some m
  read_parts (p ∷ []) m = some m
  read_parts (p ∷ q ∷ rest) m = elim (build_ip_info p) [
    | some ip ↦ add_line_domains (q ∷ rest) ip m
    | none ↦ load p (q ∷ rest) m
  ]

  -- One line of a hosts file.
  unfoldable pub read_host_line : Bytes → HostMaps Regexp → Option (HostMaps Regexp)
  unfolding add_line_domains load build_ip_info fields_from is_space trim_space has_prefix
  read_host_line line m =
      let text = trim_space line in
      if has_prefix text (codes "#") || has_prefix text (codes "//")
      then some m
      else read_parts (fields_from is_space [] text) m

  unfoldable pub read_host_lines : List Bytes → HostMaps Regexp → Option (HostMaps Regexp)
  unfolding read_host_line
  read_host_lines [] m = some m
  read_host_lines (line ∷ rest) m = do m' ← read_host_line line m; read_host_lines rest m'

  module _ (open_file : Bytes → Option (List Bytes × Bool))
      (sort : (HostPattern Regexp → HostPattern Regexp → Bool)
        → List (HostPattern Regexp)
        → List (HostPattern Regexp)) where
    unfoldable pub read_host_files : List Bytes → HostMaps Regexp → Option (HostMaps Regexp)
    unfolding read_host_lines
    read_host_files [] m = some m
    read_host_files (filename ∷ rest) m = do
      (lines, complete) ← open_file filename
      m' ← read_host_lines lines m
      if complete then read_host_files rest m' else none

    -- `NewDNSHosts`; `sort` is `sort.Slice`.
    unfoldable pub new_dns_hosts :
        List (Bytes × List Bytes) → List Bytes → Option (HostReader Regexp)
    unfolding load_hosts read_host_files pattern_less
    new_dns_hosts hosts hosts_files = do
      m ← load_hosts hosts (record { domain_map = []; pattern_map = [] })
      m' ← read_host_files hosts_files m
      some (record {
        domain_map = m'.domain_map;
        patterns = sort pattern_less (map (λ (h, p). p) m'.pattern_map);
      })

module _ (re : RegexpLib) where
  open re use {Regexp, match_string}

  unfoldable pub match_patterns : List (HostPattern Regexp) → Bytes → Option (List IpInfo)
  match_patterns [] host = none
  match_patterns (p ∷ rest) host =
      let later = match_patterns rest host in if match_string p.reg host then some p.ips else later

  -- The closure `getIPs`; `none` is `false`.
  unfoldable pub get_ips : HostReader Regexp → Bytes → Option (List IpInfo)
  unfolding lookup match_patterns
  get_ips h host = elim (lookup host h.domain_map) [
    | some ips ↦ some ips
    | none ↦ match_patterns h.patterns host
  ]

  unfoldable pub find_ips : HostReader Regexp → Bytes → Option (List IpInfo)
  unfolding get_ips ends_with drop_last
  find_ips h host = elim (get_ips h host) [
    | some ips ↦ some ips
    | none ↦ if ends_with dot host then get_ips h (drop_last host) else none
  ]

  module _ (dns : DnsLib) (new_rr : Bytes → Option Rr) where
    -- The answers; `new_rr` is `dns.NewRR`, and a record that it refuses is left out.
    abbrev pub cons_some : Option Rr → List Rr → List Rr
    cons_some none rest = rest
    cons_some (some rr) rest = rr ∷ rest

    unfoldable pub host_answers : Bytes → ℕ → List IpInfo → List Rr
    host_answers host qtype [] = []
    host_answers host qtype (ip ∷ ips) =
        let rest = host_answers host qtype ips in
        if ip.ip_type == qtype then cons_some (new_rr (record_text ip host)) rest else rest

    abbrev empty_msg : Msg
    empty_msg = record { id = 0; rcode = 0; question = []; answer = []; ns = []; extra = [] }

    abbrev answer_with : Msg → List Rr → Option Msg
    answer_with req [] = none
    answer_with req (rr ∷ rest) = some (record (dns.set_reply empty_msg req) { answer = rr ∷ rest })

    abbrev get_question : HostReader Regexp → Msg → List Question → Option Msg
    get_question h req [] = none
    get_question h req (q ∷ qs) =
        let host = to_lower q.name in
        if not (q.qtype == type_a) && not (q.qtype == type_aaaa)
        then none
        else elim (find_ips h host) [
          | none ↦ none
          | some ips ↦ answer_with req (host_answers host q.qtype ips)
        ]

    -- `Get`.
    unfoldable pub get : HostReader Regexp → Msg → Option Msg
    unfolding find_ips host_answers to_lower
    get h req = get_question h req req.question
