-- ===== src/Outbound/Addresses/Tests.antt =====
-- The theorems about hijack rules and addresses at concrete texts.
use ts_dns.Common.{
  ◌≡◌, refl, Option, none, some, [], Bytes, codes, contains_byte, if◌then◌else◌, ends_with,
}
use ts_dns.Dns.{NetLib}
use ts_dns.Outbound.Hijack.{HijackRule}
use ts_dns.Outbound.Hijack.Suffixes.{IsQualified}
use ts_dns.Outbound.Addresses.{parse_hijack_rule}
use ts_dns.Outbound.Addresses.Rules.{rule_text, parse_hijack_rule-rule_text}
use ts_dns.Samples.{sample_dns, sample_net}

abbrev ab : HijackRule
ab = record { source = codes "a.cn."; dest = codes "b.cn." }

read_ab : parse_hijack_rule sample_dns (codes "/a.cn/b.cn/") ≡ some ab
unfolding parse_hijack_rule ends_with
read_ab = refl

parse_hijack_rule-rule_text_example :
    (r : HijackRule) × (parse_hijack_rule sample_dns (rule_text (codes "a.cn") (codes "b.cn"))
      ≡ some r)
    × (r.source ≡ sample_dns.fqdn (codes "a.cn"))
    × (r.dest ≡ sample_dns.fqdn (codes "b.cn"))
    × IsQualified sample_dns r.source
    × IsQualified sample_dns r.dest
parse_hijack_rule-rule_text_example =
    parse_hijack_rule-rule_text sample_dns (codes "a.cn") (codes "b.cn") (refl, refl) (refl, refl)

-- A rule for a top-level domain is none.
no_dot : parse_hijack_rule sample_dns (codes "/cn/b.cn/") ≡ none
unfolding parse_hijack_rule ends_with
no_dot = refl

-- A host is a text without a colon.
abbrev split_port : Bytes → Option (Bytes × Bytes)
split_port s = if contains_byte b':' s then some (s, []) else none

abbrev net : NetLib
net = record sample_net { split_host_port = split_port }
