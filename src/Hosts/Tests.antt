-- ===== src/Hosts/Tests.antt =====
-- The theorems about the hosts at concrete tables.
use ts_dns.Common.{◌≡◌, ◌≢◌, refl, ◌⊎◌, Option, some, List, [], ◌∷◌}
use ts_dns.Common.{All, Bytes, codes, to_lower, eq_bytes}
use ts_dns.Dns.{Rr, a, Msg, type_a, type_aaaa}
use ts_dns.Hosts.{IpInfo, HostReader, find_ips, get, read_host_line}
use ts_dns.Hosts.Gets.{IsFrom, get-IsFrom}
use ts_dns.Samples.{sample_dns, sample_net, sample_regexp, hdr, ask}

abbrev one : IpInfo
one = record { val = codes "1.1.1.1"; ip_type = 1 }

abbrev six : IpInfo
six = record { val = codes "1::1"; ip_type = 28 }

abbrev table : List (Bytes × List IpInfo)
table = (codes "a.cn", one ∷ []) ∷ (codes "b.cn", one ∷ []) ∷ []

-- A line of a hosts file.
line_is_read :
    read_host_line sample_regexp sample_net
      (codes " 1.1.1.1  A.cn\tb.cn")
      (record { domain_map = []; pattern_map = [] })
    ≡ some (record { domain_map = table; pattern_map = [] })
unfolding read_host_line
line_is_read = refl

abbrev reader : HostReader Bytes
reader = record { domain_map = (codes "a.cn", one ∷ six ∷ []) ∷ []; patterns = [] }

-- A stand-in for `dns.NewRR`: the text is the address.
abbrev made : Bytes → Option Rr
made text = some (a (hdr 1 0) text)

abbrev found : Msg
found = record (ask (codes "A.cn.") 1) { answer = a (hdr 1 0) (codes "a.cn. 0 IN A 1.1.1.1") ∷ [] }

finds : get sample_regexp sample_dns made reader (ask (codes "A.cn.") 1) ≡ some found
unfolding get eq_bytes
finds = refl

get-IsFrom_example :
    ((1 ≡ type_a) ⊎ (1 ≡ type_aaaa))
    × ((ips : List IpInfo) × (find_ips sample_regexp reader (to_lower (codes "A.cn.")) ≡ some ips)
        × All (IsFrom sample_regexp sample_dns made (to_lower (codes "A.cn.")) 1 ips) found.answer)
    × (found.answer ≢ [])
    × (found.question ≡ record { name = codes "A.cn."; qtype = 1; qclass = 1 } ∷ [])
get-IsFrom_example =
    get-IsFrom sample_regexp sample_dns made reader (ask (codes "A.cn.") 1) found
      (record { name = codes "A.cn."; qtype = 1; qclass = 1 }) [] refl finds
