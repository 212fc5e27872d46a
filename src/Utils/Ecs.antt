-- ===== src/Utils/Ecs.antt =====
-- utils/dns.go: `ParseECS`, `FormatECS`, `SetDefaultECS`, `RemoveEDNSCookie`. A `*dns.Msg` that may
-- be nil is an option, and a function that writes through the pointer returns the message.
use ts_dns.Common.{ℕ, zero, suc, ◌%◌, Bool, true, false, Option, none, some}
use ts_dns.Common.{List, [], ◌∷◌, ◌++◌, map, if◌then◌else◌, is_some}
use ts_dns.Common.{Bytes, codes, contains_byte}
use ts_dns.Dns.{Ip, Subnet, Edns0, subnet, cookie, other_option, Rr, opt, a, aaaa, cname, other}
use ts_dns.Dns.{Msg, DnsLib, NetLib, type_opt}
use ts_dns.Utils.Loops.{delete_where}

module _ (net : NetLib) where
  -- The family of an address: 1 for IPv4, 2 for IPv6.
  abbrev pub family_of : Ip → ℕ
  family_of ip = if net.is_v4 ip then 1 else 2

  -- The outer `none` is the error.
  unfoldable pub parse_prefix : Bytes → Option (Option Subnet)
  parse_prefix s = elim (net.parse_cidr s) [
    | none ↦ none
    | some (ip, bits) ↦
        some (some (record { family = family_of ip; source_netmask = bits % 256; address = ip }))
  ]

  unfoldable pub parse_address : Bytes → Option (Option Subnet)
  parse_address s = elim (net.parse_ip s) [
    | none ↦ none
    | some ip ↦
        if net.is_v4 ip
        then some (some (record { family = family_of ip; source_netmask = 32; address = ip }))
        else if net.is_v16 ip
        then some (some (record { family = family_of ip; source_netmask = 128; address = ip }))
        else none
  ]

  -- `ParseECS`; `some none` is the nil result of an empty text.
  unfoldable pub parse_ecs : Bytes → Option (Option Subnet)
  unfolding parse_prefix parse_address
  parse_ecs [] = some none
  parse_ecs (c ∷ s) =
      if contains_byte b'/' (c ∷ s) then parse_prefix (c ∷ s) else parse_address (c ∷ s)

-- The first subnet among the options of one OPT record.
unfoldable pub first_subnet : List Edns0 → Option Subnet
first_subnet [] = none
first_subnet (subnet e ∷ os) = some e
first_subnet (cookie raw ∷ os) = first_subnet os
first_subnet (other_option n ∷ os) = first_subnet os

-- The search of `FormatECS` through the extra records.
unfoldable pub find_ecs : List Rr → Option Subnet
unfolding first_subnet
find_ecs [] = none
find_ecs (opt h os ∷ rest) = elim (first_subnet os) [ some e ↦ some e | none ↦ find_ecs rest ]
find_ecs (a h ip ∷ rest) = find_ecs rest
find_ecs (aaaa h ip ∷ rest) = find_ecs rest
find_ecs (cname h t ∷ rest) = find_ecs rest
find_ecs (other h raw ∷ rest) = find_ecs rest

-- `FormatECS`. `decimal` is the `%d` of `fmt.Sprintf`.
module _ (net : NetLib) (decimal : ℕ → Bytes) where
  unfoldable pub format_subnet : Subnet → Bytes
  format_subnet e = net.ip_string e.address ++ b'/' ∷ decimal e.source_netmask

  unfoldable pub format_ecs : Option Msg → Bytes
  unfolding find_ecs format_subnet
  format_ecs none = []
  format_ecs (some m) = elim (find_ecs m.extra) [ none ↦ [] | some e ↦ format_subnet e ]

-- What the loop of `SetDefaultECS` finds: a subnet, upon which it returns, or else the index of the
-- first OPT record, if there is one.
pub data Scan : Type 0 where
  has_ecs : Scan
  first_opt : Option ℕ → Scan

abbrev pub or_index : Option ℕ → ℕ → Option ℕ
or_index none i = some i
or_index (some j) i = some j

unfoldable pub scan_extra : ℕ → Option ℕ → List Rr → Scan
unfolding first_subnet
scan_extra i first [] = first_opt first
scan_extra i first (opt h os ∷ rest) =
    let go = scan_extra (suc i) (or_index first i) rest in
    if is_some (first_subnet os) then has_ecs else go
scan_extra i first (a h ip ∷ rest) = scan_extra (suc i) first rest
scan_extra i first (aaaa h ip ∷ rest) = scan_extra (suc i) first rest
scan_extra i first (cname h t ∷ rest) = scan_extra (suc i) first rest
scan_extra i first (other h raw ∷ rest) = scan_extra (suc i) first rest

-- `opt.Option = append([]dns.EDNS0{ecs}, opt.Option...)` on the record at an index.
abbrev pub prepend_option : Edns0 → Rr → Rr
prepend_option e (opt h os) = opt h (e ∷ os)
prepend_option e rr = rr

unfoldable pub prepend_at : ℕ → Edns0 → List Rr → List Rr
prepend_at i e [] = []
prepend_at zero e (rr ∷ rest) = prepend_option e rr ∷ rest
prepend_at (suc i) e (rr ∷ rest) = rr ∷ prepend_at i e rest

module _ (dns : DnsLib) where
  -- The OPT record that is added when there is none.
  abbrev pub new_opt : Subnet → Rr
  new_opt e =
      opt
        (record (dns.set_udp_size 4096 (record { name = []; rrtype = 0; class = 0; ttl = 0 })) {
          name = codes ".";
          rrtype = type_opt;
        })
        (subnet e ∷ [])

  abbrev pub add_ecs : Scan → Subnet → List Rr → List Rr
  add_ecs has_ecs e extra = extra
  add_ecs (first_opt none) e extra = extra ++ new_opt e ∷ []
  add_ecs (first_opt (some i)) e extra = prepend_at i (subnet e) extra

  -- `SetDefaultECS`.
  unfoldable pub set_default_ecs : Option Msg → Option Subnet → Option Msg
  unfolding scan_extra prepend_at
  set_default_ecs none e = none
  set_default_ecs (some m) none = some m
  set_default_ecs (some m) (some e) =
      some (record m { extra = add_ecs (scan_extra 0 none m.extra) e m.extra })

abbrev pub is_cookie : Edns0 → Bool
is_cookie (cookie raw) = true
is_cookie (subnet e) = false
is_cookie (other_option n) = false

-- `RemoveEDNSCookie`: the deleting loop in each OPT record.
unfoldable pub remove_cookies : Rr → Rr
remove_cookies (opt h os) = opt h (delete_where is_cookie os)
remove_cookies (a h ip) = a h ip
remove_cookies (aaaa h ip) = aaaa h ip
remove_cookies (cname h t) = cname h t
remove_cookies (other h raw) = other h raw

unfoldable pub remove_edns_cookie : Option Msg → Option Msg
unfolding remove_cookies
remove_edns_cookie none = none
remove_edns_cookie (some m) = some (record m { extra = map remove_cookies m.extra })
