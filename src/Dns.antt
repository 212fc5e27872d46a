-- ===== src/Dns.antt =====
-- The parts of a DNS message that the source reads or writes (fields of types of
-- github.com/miekg/dns), and the functions of that package and of Go's `net` package that the
-- source calls, as records of operations with the documented behaviour that is relied on.
-- A message is a value here, so `Msg.Copy` is the message itself.
use ts_dns.Common.{ℕ, ◌≡◌, ◌⊎◌, Bool, true, Option, some, List, [], ◌∷◌, ◌++◌, ◌≤◌}
use ts_dns.Common.{Bytes, dot, ends_with}

-- The address bytes of a `net.IP`.
abbrev pub Ip : Type 0
Ip = Bytes

abbrev pub type_a : ℕ
type_a = 1

abbrev pub type_aaaa : ℕ
type_aaaa = 28

abbrev pub type_opt : ℕ
type_opt = 41

-- `dns.RR_Header`.
pub record Hdr : Type 0 where
  pub name : Bytes
  pub rrtype : ℕ
  pub class : ℕ
  pub ttl : ℕ

-- `dns.EDNS0_SUBNET`.
pub record Subnet : Type 0 where
  pub family : ℕ
  pub source_netmask : ℕ
  pub address : Ip

-- `dns.EDNS0`: the two options that the source tells apart, and any other by its code.
pub data Edns0 : Type 0 where
  subnet : Subnet → Edns0
  cookie : Bytes → Edns0
  other_option : ℕ → Edns0

-- `dns.RR`: the record types that the source's type switches name, and any other.
pub data Rr : Type 0 where
  a : Hdr → Ip → Rr
  aaaa : Hdr → Ip → Rr
  cname : Hdr → Bytes → Rr
  opt : Hdr → List Edns0 → Rr
  other : Hdr → Bytes → Rr

-- `rr.Header()`, and an assignment to it.
abbrev pub header : Rr → Hdr
header (a h ip) = h
header (aaaa h ip) = h
header (cname h target) = h
header (opt h os) = h
header (other h raw) = h

abbrev pub with_header : Rr → Hdr → Rr
with_header (a h ip) h' = a h' ip
with_header (aaaa h ip) h' = aaaa h' ip
with_header (cname h target) h' = cname h' target
with_header (opt h os) h' = opt h' os
with_header (other h raw) h' = other h' raw

abbrev pub ttl_of : Rr → ℕ
ttl_of rr = (header rr).ttl

abbrev pub with_ttl : Rr → ℕ → Rr
with_ttl rr t = with_header rr (record (header rr) { ttl = t })

abbrev pub with_name : Rr → Bytes → Rr
with_name rr n = with_header rr (record (header rr) { name = n })

-- `dns.Question`.
pub record Question : Type 0 where
  pub name : Bytes
  pub qtype : ℕ
  pub qclass : ℕ

-- `dns.Msg`.
pub record Msg : Type 0 where
  pub id : ℕ
  pub rcode : ℕ
  pub question : List Question
  pub answer : List Rr
  pub ns : List Rr
  pub extra : List Rr

-- The functions of github.com/miekg/dns that the source calls. `Fqdn` is the identity on a fully
-- qualified name and adds the final dot to any other; `SetReply` and `SetRcode` fill in a reply's
-- header and question and leave its sections alone; `IsEdns0` finds an OPT record among the extras.
pub record DnsLib : Type 0 where
  pub fqdn : Bytes → Bytes
  pub set_udp_size : ℕ → Hdr → Hdr
  pub set_reply : Msg → Msg → Msg
  pub set_rcode : Msg → Msg → ℕ → Msg
  pub is_edns0 : Msg → Option (Hdr × List Edns0)
  pub edns_do : Hdr × List Edns0 → Bool
  pub fqdn_ends : (s : Bytes) → ends_with dot (fqdn s) ≡ true
  pub fqdn_adds : (s : Bytes) → (fqdn s ≡ s) ⊎ (fqdn s ≡ s ++ dot ∷ [])
  pub fqdn_idem : (s : Bytes) → fqdn (fqdn s) ≡ fqdn s
  pub set_reply_answer : (r req : Msg) → (set_reply r req).answer ≡ r.answer
  pub set_reply_question :
      (r req : Msg) (q : Question) (qs : List Question)
      → req.question ≡ q ∷ qs
      → (set_reply r req).question ≡ q ∷ []
  pub set_rcode_rcode : (r req : Msg) (code : ℕ) → (set_rcode r req code).rcode ≡ code
  pub set_rcode_answer : (r req : Msg) (code : ℕ) → (set_rcode r req code).answer ≡ r.answer

-- The functions of Go's `net` package that the source calls. `ParseIP` gives an address of 4 or 16
-- bytes, so one of `To4` and `To16` is not nil; a prefix has at most 128 bits, and 32 in IPv4.
pub record NetLib : Type 0 where
  pub parse_ip : Bytes → Option Ip
  pub is_v4 : Ip → Bool
  pub is_v16 : Ip → Bool
  pub ip_string : Ip → Bytes
  pub parse_cidr : Bytes → Option (Ip × ℕ)
  pub split_host_port : Bytes → Option (Bytes × Bytes)
  pub join_host_port : Bytes → Bytes → Bytes
  pub parse_ip_v16 : (s : Bytes) (ip : Ip) → parse_ip s ≡ some ip → is_v16 ip ≡ true
  pub parse_cidr_bits :
      (s : Bytes) (ip : Ip) (bits : ℕ) → parse_cidr s ≡ some (ip, bits) → bits ≤ 128
