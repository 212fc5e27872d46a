-- ===== src/Samples.antt =====
-- Concrete instances of the interfaces of `Dns`, and concrete messages, for tests.
use ts_dns.Common.{ℕ, ◌+◌, ◌≤◌, ◌≡◌, refl, ◌⊎◌, Bool, true, false, Option, none, some, not, ◌&&◌}
use ts_dns.Common.{
  List, [], ◌∷◌, ◌++◌, arith, if◌then◌else◌, Bytes, codes, dot, ends_with, ◌==◌, leb, any, keep,
  ◌||◌, eq_bytes, split, split-append, some_inj, append-nil, sym, ap, ◌∙◌,
}
use ts_dns.Regexp.{RegexpLib, group}
use ts_dns.Dns.{Ip, Hdr, Edns0, Rr, opt, a, aaaa, cname, other, Question, Msg, DnsLib, NetLib}

abbrev pub qualify : Bytes → Bytes
qualify s = if ends_with dot s then s else s ++ dot ∷ []

ends_with-snoc : (s : Bytes) → ends_with dot (s ++ dot ∷ []) ≡ true
unfolding ends_with
ends_with-snoc [] = refl
ends_with-snoc (x ∷ []) = refl
ends_with-snoc (x ∷ y ∷ s) = ends_with-snoc (y ∷ s)

pub qualify_ends : (s : Bytes) → ends_with dot (qualify s) ≡ true
qualify_ends s = ground (arith, ends_with-snoc s)

pub qualify_adds : (s : Bytes) → (qualify s ≡ s) ⊎ (qualify s ≡ s ++ dot ∷ [])
qualify_adds s = ground arith

pub qualify_idem : (s : Bytes) → qualify (qualify s) ≡ qualify s
qualify_idem s = ground (arith, ends_with-snoc s)

abbrev first_question : List Question → List Question
first_question [] = []
first_question (q ∷ qs) = q ∷ []

abbrev pub reply : Msg → Msg → Msg
reply r req = record r { id = req.id; question = first_question req.question }

pub reply-question :
    (r req : Msg) (q : Question) (qs : List Question)
    → req.question ≡ q ∷ qs
    → (reply r req).question ≡ q ∷ []
reply-question r req q qs h = rw h

abbrev pub find_opt : List Rr → Option (Hdr × List Edns0)
find_opt [] = none
find_opt (opt h os ∷ rest) = some (h, os)
find_opt (a h ip ∷ rest) = find_opt rest
find_opt (aaaa h ip ∷ rest) = find_opt rest
find_opt (cname h t ∷ rest) = find_opt rest
find_opt (other h raw ∷ rest) = find_opt rest

-- A stand-in for github.com/miekg/dns on names without escapes.
abbrev pub sample_dns : DnsLib
sample_dns = record {
  fqdn = qualify;
  set_udp_size = λ n h. record h { class = n };
  set_reply = reply;
  set_rcode = λ r req code. record (reply r req) { rcode = code };
  is_edns0 = λ m. find_opt m.extra;
  edns_do = λ (h, os). leb 32768 h.ttl;
  fqdn_ends = qualify_ends;
  fqdn_adds = qualify_adds;
  fqdn_idem = qualify_idem;
  set_reply_answer = λ r req. refl;
  set_reply_question = reply-question;
  set_rcode_rcode = λ r req code. refl;
  set_rcode_answer = λ r req code. refl;
}

abbrev starts_with_digit : Bytes → Bool
starts_with_digit [] = false
starts_with_digit (c ∷ s) = leb b'0' c && leb c b'9'

abbrev pub parse_sample_ip : Bytes → Option Ip
parse_sample_ip s = if starts_with_digit s then some s else none

abbrev pub parse_sample_cidr : Bytes → Option (Ip × ℕ)
parse_sample_cidr s = if starts_with_digit s then some (s, 24) else none

pub sample_cidr_bits :
    (s : Bytes) (ip : Ip) (bits : ℕ) → parse_sample_cidr s ≡ some (ip, bits) → bits ≤ 128
sample_cidr_bits s ip bits h = ground arith

-- A stand-in for Go's `net`: an address is its own text, and a text with a colon is IPv6.
abbrev pub sample_net : NetLib
sample_net = record {
  parse_ip = parse_sample_ip;
  is_v4 = λ ip. not (any (λ c. c == b':') ip);
  is_v16 = λ ip. true;
  ip_string = λ ip. ip;
  parse_cidr = parse_sample_cidr;
  split_host_port = λ s. none;
  join_host_port = λ h p. h ++ b':' ∷ p;
  parse_ip_v16 = λ s ip h. refl;
  parse_cidr_bits = sample_cidr_bits;
}

-- The `%d` of numbers below ten.
abbrev pub sample_decimal : ℕ → Bytes
sample_decimal n = (n + b'0') ∷ []

abbrev pub hdr : ℕ → ℕ → Hdr
hdr rrtype ttl = record { name = codes "x.cn."; rrtype = rrtype; class = 1; ttl = ttl }

abbrev pub ask : Bytes → ℕ → Msg
ask name qtype = record {
  id = 7;
  rcode = 0;
  question = record { name = name; qtype = qtype; qclass = 1 } ∷ [];
  answer = [];
  ns = [];
  extra = [];
}

-- An expression is an alternative of the texts between its bars, without the bytes of its groups; a text
-- `^d$` matches the domain d, and other texts match nothing.
abbrev is_group_byte : ℕ → Bool
is_group_byte c = c == b'(' || c == b')' || c == b'?' || c == b':'

abbrev erase : Bytes → Bytes
erase = keep (λ c. not (is_group_byte c))

keep-append : (p : ℕ → Bool) (s t : Bytes) → keep p (s ++ t) ≡ keep p s ++ keep p t
keep-append p [] t = refl
keep-append p (c ∷ s) t = ground (arith, keep-append p s t)

any-append : (p : Bytes → Bool) (xs ys : List Bytes) → any p (xs ++ ys) ≡ (any p xs || any p ys)
any-append p [] ys = refl
any-append p (x ∷ xs) ys = ground (arith, any-append p xs ys)

unfoldable pub match_sample : Bytes → Bytes → Bool
unfolding eq_bytes split
match_sample e d = any (eq_bytes (b'^' ∷ d ++ b'$' ∷ [])) (split b'|' (erase e))

erase-group : (s : Bytes) → erase (group s) ≡ erase s
erase-group s = keep-append (λ c. not (is_group_byte c)) s (codes ")") ∙ append-nil (erase s)

match_sample-group : (s d : Bytes) → match_sample (group s) d ≡ match_sample s d
unfolding match_sample
match_sample-group s d =
    ap (λ t. any (eq_bytes (b'^' ∷ d ++ b'$' ∷ [])) (split b'|' t)) (erase-group s)

match_sample-alternative :
    (s rest d : Bytes)
    → match_sample (s ++ b'|' ∷ rest) d ≡ (match_sample s d || match_sample rest d)
unfolding match_sample
match_sample-alternative s rest d =
    let hit = eq_bytes (b'^' ∷ d ++ b'$' ∷ []) in
    ap (λ t. any hit (split b'|' t)) (keep-append (λ c. not (is_group_byte c)) s (b'|' ∷ rest))
    ∙ ap (any hit) (split-append b'|' (erase s) (erase rest))
    ∙ any-append hit (split b'|' (erase s)) (split b'|' (erase rest))

pub sample_match-group :
    (s r g d : Bytes)
    → some s ≡ some r
    → some (group s) ≡ some g
    → match_sample g d ≡ match_sample r d
sample_match-group s r g d p q =
    ap (λ e. match_sample e d) (sym (some_inj q))
    ∙ match_sample-group s d
    ∙ ap (λ e. match_sample e d) (some_inj p)

pub sample_match-alternative :
    (s rest g c d : Bytes)
    → some (group s) ≡ some g
    → some (group s ++ b'|' ∷ rest) ≡ some c
    → match_sample c d ≡ (match_sample g d || match_sample rest d)
sample_match-alternative s rest g c d p q =
    ap (λ e. match_sample e d) (sym (some_inj q))
    ∙ match_sample-alternative (group s) rest d
    ∙ ap (λ e. match_sample e d || match_sample rest d) (some_inj p)

abbrev pub sample_regexp : RegexpLib
sample_regexp = record {
  Regexp = Bytes;
  compile = λ s. some s;
  match_string = match_sample;
  source = λ r. r;
  recompile = λ r. (r, refl, λ d. refl);
  match-group = sample_match-group;
  match-alternative =
      λ s rest r₀ g c o p q. (rest, refl, λ d. sample_match-alternative s rest g c d p q);
}
