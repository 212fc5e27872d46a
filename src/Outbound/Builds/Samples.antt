-- ===== src/Outbound/Builds/Samples.antt =====
-- A configuration of two groups, and a system to build them in, for tests.
use ts_dns.Common.{true, false, none, some, List, [], ◌∷◌, if◌then◌else◌, ℤ, Bytes, codes, eq_bytes}
use ts_dns.Dns.{type_aaaa}
use ts_dns.Outbound.Builds.{GroupSection, BuildLib}

-- A system whose only file is empty, in which every dialer and IP set is made.
abbrev pub system : BuildLib Bytes Bytes Bytes
unfolding eq_bytes
system = record {
  string_to_type = λ s. if eq_bytes s (codes "AAAA") then some type_aaaa else none;
  to_upper = λ s. s;
  parse_go_duration = λ s. none;
  parse_url = λ s. none;
  read_file = λ f. some [];
  decode_base64 = λ s. some s;
  socks5_dialer = λ s. some s;
  new_ipset = λ n v6 ttl. some n;
}

abbrev pub clean : GroupSection
clean = record {
  disable_ipv6 = true;
  disable_qtypes = codes "AAAA" ∷ [];
  ecs = [];
  no_cookie = false;
  rules = [];
  rules_file = [];
  gfwlist_file = [];
  gfwlist_url = [];
  gfwlist_update = [];
  fallback = false;
  socks5 = [];
  dns = codes "1.1.1.1" ∷ [];
  dot = [];
  doh = [];
  hijack = [];
  fastest_ip = false;
  tcp_ping_port = ℤ.pos 0;
  fastest_ping_timeout_ms = ℤ.pos 0;
  fastest_ping_max_ips = ℤ.pos 0;
  ipset = [];
  ipset6 = [];
  ipset_ttl = ℤ.pos 0;
}

abbrev pub dirty : GroupSection
dirty = record clean {
  disable_ipv6 = false;
  rules = codes "x.cn" ∷ [];
  gfwlist_file = codes "gfw.txt";
  dot = codes "8.8.8.8@dns.google" ∷ [];
  ipset = codes "blocked";
}

abbrev pub sections : List (Bytes × GroupSection)
sections = (codes "clean", clean) ∷ (codes "dirty", dirty) ∷ []
