-- ===== src/Outbound/Builds.antt =====
-- outbound/groups.go: `BuildGroups`, `Match`, `HasGFWList`; config/config.go: `Group`. A call that cannot go on is `none`,
-- whether it returns an error or, in the rule matcher, panics. Query type names, URLs, files, base64,
-- Go's durations, the SOCKS5 dialer and the kernel's IP sets are parameters. A Go map of groups is an
-- association list.
use ts_dns.Common.{
  ℕ, zero, suc, ◌-◌, ◌*◌, Bool, true, false, not, ◌&&◌, ◌||◌, ◌==◌, leb, ltb, Option, none, some,
  List, [], ◌∷◌, ◌++◌, if◌then◌else◌, map, Bytes, join, is_some, ◌>>=◌, ℤ, length,
}
use ts_dns.Dns.{
  Subnet, Ip, Rr, a, aaaa, cname, opt, other, type_aaaa, Question, Msg, DnsLib, NetLib,
}
use ts_dns.Regexp.{RegexpLib}
use ts_dns.Matcher.AbPlus.{AbPlus, match, extend, new_abp_by_text, new_abp_by_file}
use ts_dns.Utils.Ecs.{parse_ecs}
use ts_dns.Outbound.Hijack.{HijackRule, is_nil}
use ts_dns.Outbound.Durations.{parse_duration}
use ts_dns.Outbound.Addresses.{Url, Caller, hijack_rules, dns_callers, dot_callers, doh_callers}
pub mod Flags
mod Matches
pub mod Samples
mod Tests

-- `config.Group`, without the redirector, which the redirectors read.
pub record GroupSection : Type 0 where
  pub disable_ipv6 : Bool
  pub disable_qtypes : List Bytes
  pub ecs : Bytes
  pub no_cookie : Bool
  pub rules : List Bytes
  pub rules_file : Bytes
  pub gfwlist_file : Bytes
  pub gfwlist_url : Bytes
  pub gfwlist_update : Bytes
  pub fallback : Bool
  pub socks5 : Bytes
  pub dns : List Bytes
  pub dot : List Bytes
  pub doh : List Bytes
  pub hijack : List Bytes
  pub fastest_ip : Bool
  pub tcp_ping_port : ℤ
  pub fastest_ping_timeout_ms : ℤ
  pub fastest_ping_max_ips : ℤ
  pub ipset : Bytes
  pub ipset6 : Bytes
  pub ipset_ttl : ℤ

-- `IsSetGFWList` and `IsEmptyRule`.
unfoldable pub is_set_gfw_list : GroupSection → Bool
is_set_gfw_list conf = not (is_nil conf.gfwlist_file) || not (is_nil conf.gfwlist_url)

unfoldable pub is_empty_rule : GroupSection → Bool
unfolding is_set_gfw_list
is_empty_rule conf = is_nil conf.rules && (is_nil conf.rules_file && not (is_set_gfw_list conf))

-- `groupImpl`, as `BuildGroups` leaves it, over the types of expressions, of dialers and of IP sets.
pub record GroupImpl (R P I : Type 0) : Type 0 where
  pub name : Bytes
  pub fallback : Bool
  pub disable_qtypes : List ℕ
  pub matcher : AbPlus R
  pub gfw_list : Option (AbPlus R)
  pub gfw_list_url : Bytes
  pub gfw_list_file : Bytes
  pub gfw_list_update : ℕ
  pub no_cookie : Bool
  pub with_ecs : Option Subnet
  pub proxy : Option P
  pub hijack_rules : List HijackRule
  pub fastest_ip : Bool
  pub tcp_ping_port : ℤ
  pub ping_timeout : ℤ
  pub max_ping_ips : ℤ
  pub all_callers : List Caller
  pub ip_set : Option I
  pub ip_set6 : Option I

-- What the code uses of other packages and of the system.
pub record BuildLib (R P I : Type 0) : Type 0 where
  pub string_to_type : Bytes → Option ℕ
  pub to_upper : Bytes → Bytes
  pub parse_go_duration : Bytes → Option ℤ
  pub parse_url : Bytes → Option Url
  pub read_file : Bytes → Option Bytes
  pub decode_base64 : Bytes → Option Bytes
  pub socks5_dialer : Bytes → Option P
  pub new_ipset : Bytes → Bool → ℤ → Option I

-- `HasGFWList`.
unfoldable pub has_gfw_list : {R P I : Type 0} → GroupImpl R P I → Bool
has_gfw_list g = not (is_nil g.gfw_list_url) || is_some g.gfw_list

abbrev pub one_hour : ℕ
one_hour = 3600 * 1_000_000_000

-- An optional setting: nothing for the empty text, else what the function gives, or its failure.
abbrev pub unless_empty {ℓ} : {A : Type ℓ} → Bytes → A → (Bytes → Option A) → Option A
unless_empty [] default f = some default
unless_empty (c ∷ s) default f = f (c ∷ s)

abbrev pub some_of {ℓ} : {A : Type ℓ} → Option A → Option (Option A)
some_of none = none
some_of (some x) = some (some x)

-- A panic inside is a failure, too.
abbrev pub flat {ℓ} : {A : Type ℓ} → Option (Option A) → Option A
flat none = none
flat (some o) = o

module _ {P I : Type 0} (re : RegexpLib) (dns : DnsLib) (net : NetLib)
    (lib : BuildLib re.Regexp P I) where
  open re use {Regexp}

  -- The query types that a group does not ask, which `newHandle` reads alike.
  unfoldable pub parse_qtypes : List Bytes → Option (List ℕ)
  parse_qtypes [] = some []
  parse_qtypes (s ∷ rest) = do
    t ← lib.string_to_type (lib.to_upper s)
    ts ← parse_qtypes rest
    some (t ∷ ts)

  unfoldable pub disabled_qtypes : Bool → List Bytes → Option (List ℕ)
  unfolding parse_qtypes
  disabled_qtypes disable_ipv6 names = do
    ts ← parse_qtypes names
    some (if disable_ipv6 then type_aaaa ∷ ts else ts)

  -- The matcher of `rules` and `rules_file`.
  abbrev pub extend_with : AbPlus Regexp → Option (AbPlus Regexp) → Option (AbPlus Regexp)
  extend_with m none = none
  extend_with m (some target) = some (extend re m (some target))

  unfoldable pub build_matcher : GroupSection → Option (AbPlus Regexp)
  unfolding new_abp_by_text new_abp_by_file extend join
  build_matcher conf = do
    m ← new_abp_by_text re (join 10 conf.rules)
    unless_empty conf.rules_file m
        (λ f. extend_with m (flat (new_abp_by_file re lib.read_file lib.decode_base64 f false)))

  -- The body of the loop of `BuildGroups`, after the flags; `fallback` is the flag as it was set.
  unfoldable pub build_group : Bytes → GroupSection → Bool → Option (GroupImpl Regexp P I)
  unfolding disabled_qtypes build_matcher parse_duration parse_ecs hijack_rules dns_callers
      dot_callers doh_callers
  build_group name conf fallback = do
    update ← unless_empty conf.gfwlist_update one_hour (parse_duration lib.parse_go_duration)
    qtypes ← disabled_qtypes conf.disable_ipv6 conf.disable_qtypes
    m ← build_matcher conf
    gfw_list ←
        unless_empty conf.gfwlist_file none
          (λ f. some_of (flat (new_abp_by_file re lib.read_file lib.decode_base64 f true)))
    with_ecs ← parse_ecs net conf.ecs
    proxy ← unless_empty conf.socks5 none (λ s. some_of (lib.socks5_dialer s))
    doh ← doh_callers net lib.parse_url conf.doh
    ip_set ← unless_empty conf.ipset none (λ n. some_of (lib.new_ipset n false conf.ipset_ttl))
    ip_set6 ← unless_empty conf.ipset6 none (λ n. some_of (lib.new_ipset n true conf.ipset_ttl))
    some (record {
      name = name;
      fallback = fallback;
      disable_qtypes = qtypes;
      matcher = m;
      gfw_list = gfw_list;
      gfw_list_url = conf.gfwlist_url;
      gfw_list_file = conf.gfwlist_file;
      gfw_list_update = update;
      no_cookie = conf.no_cookie;
      with_ecs = with_ecs;
      proxy = proxy;
      hijack_rules = hijack_rules dns conf.hijack;
      fastest_ip = conf.fastest_ip;
      tcp_ping_port = conf.tcp_ping_port;
      ping_timeout = conf.fastest_ping_timeout_ms;
      max_ping_ips = conf.fastest_ping_max_ips;
      all_callers = dns_callers net conf.dns ++ dot_callers net conf.dot ++ doh;
      ip_set = ip_set;
      ip_set6 = ip_set6;
    })

  -- The loop of `BuildGroups`, with the flags that it has seen: the GFW list and the fallback group.
  unfoldable pub build_groups_from :
      Bool → Bool → List (Bytes × GroupSection) → Option (List (Bytes × GroupImpl Regexp P I))
  unfolding build_group is_empty_rule is_set_gfw_list
  build_groups_from seen_gfw_list seen_fallback [] = some []
  build_groups_from seen_gfw_list seen_fallback ((name, conf) ∷ rest) =
      let fallback = is_empty_rule conf || conf.fallback in
      let later =
        build_groups_from (is_set_gfw_list conf || seen_gfw_list) (fallback || seen_fallback)
          rest in
      if fallback && seen_fallback
      then none
      else if is_set_gfw_list conf && seen_gfw_list
      then none
      else do g ← build_group name conf fallback; gs ← later; some ((name, g) ∷ gs)

  unfoldable pub build_groups :
      List (Bytes × GroupSection) → Option (List (Bytes × GroupImpl Regexp P I))
  unfolding build_groups_from
  build_groups sections = build_groups_from false false sections

  -- `Match`.
  abbrev pub match_list : Option (AbPlus Regexp) → Bytes → Bool
  match_list none domain = false
  match_list (some m) domain = (match re m domain).0

  abbrev pub match_domain : GroupImpl Regexp P I → Bytes → Bool
  match_domain g [] = false
  match_domain g (c ∷ s) = (match re g.matcher (c ∷ s)).0 || match_list g.gfw_list (c ∷ s)

  abbrev pub match_question : GroupImpl Regexp P I → List Question → Bool
  match_question g [] = false
  match_question g (q ∷ qs) = match_domain g q.name

  unfoldable pub match_group : GroupImpl Regexp P I → Msg → Bool
  unfolding match
  match_group g req = match_question g req.question
