-- ===== src/Outbound/Addresses/Rules.antt =====
-- Which texts are hijack rules, and which addresses `ensurePort` leaves alone.
use ts_dns.Common.{
  ◌≡◌, refl, sym, ap, ◌∙◌, true, false, some, List, [], ◌∷◌, ◌++◌, arith, Bytes, dot, split,
  split-append, split-whole, join, join-split, contains_byte, is_some,
}
use ts_dns.Dns.{DnsLib, NetLib}
use ts_dns.Outbound.Hijack.{HijackRule}
use ts_dns.Outbound.Hijack.Suffixes.{IsQualified}
use ts_dns.Outbound.Addresses.{
  hijack_rule, rule_of_parts, parse_hijack_rule, ensure_port, trim_brackets,
}

-- `/source/dest/`.
abbrev pub rule_text : Bytes → Bytes → Bytes
rule_text source dest = b'/' ∷ source ++ b'/' ∷ (dest ++ b'/' ∷ [])

-- A domain that can stand in a rule: it has a dot and no slash.
abbrev pub IsDomain : Bytes → Type 0
IsDomain s = (contains_byte dot s ≡ true) × (contains_byte b'/' s ≡ false)

module _ (dns : DnsLib) where
  -- What a rule is read from: a text `/source/dest/` with a dot in both domains, which become
  -- fully qualified.
  abbrev pub IsRead : Bytes → HijackRule → Type 0
  IsRead text r =
      (source dest : Bytes) × (text ≡ rule_text source dest)
      × (contains_byte dot source ≡ true)
      × (contains_byte dot dest ≡ true)
      × (r ≡ record { source = dns.fqdn source; dest = dns.fqdn dest })

  hijack_rule-inv :
      (source dest : Bytes) (r : HijackRule)
      → hijack_rule dns source dest ≡ some r
      → (contains_byte dot source ≡ true)
        × (contains_byte dot dest ≡ true)
        × (r ≡ record { source = dns.fqdn source; dest = dns.fqdn dest })
  hijack_rule-inv source dest r h = ground arith

  rule_of_parts-inv :
      (parts : List Bytes) (r : HijackRule)
      → rule_of_parts dns parts ≡ some r
      → (source dest : Bytes) × (parts ≡ [] ∷ source ∷ dest ∷ [] ∷ [])
        × (contains_byte dot source ≡ true)
        × (contains_byte dot dest ≡ true)
        × (r ≡ record { source = dns.fqdn source; dest = dns.fqdn dest })
  rule_of_parts-inv ([] ∷ source ∷ dest ∷ [] ∷ []) r h =
      let (ds, dd, e) = hijack_rule-inv source dest r h in (source, dest, refl, ds, dd, e)
  rule_of_parts-inv [] r h = cc
  rule_of_parts-inv ((c ∷ s) ∷ ps) r h = cc
  rule_of_parts-inv ([] ∷ []) r h = cc
  rule_of_parts-inv ([] ∷ p ∷ []) r h = cc
  rule_of_parts-inv ([] ∷ p ∷ q ∷ []) r h = cc
  rule_of_parts-inv ([] ∷ p ∷ q ∷ (c ∷ s) ∷ ps) r h = cc
  rule_of_parts-inv ([] ∷ p ∷ q ∷ [] ∷ t ∷ ps) r h = cc

  -- A text that gives a hijack rule is `/source/dest/` with a dot in both domains, and the rule's
  -- domains are these two, fully qualified.
  pub parse_hijack_rule-IsRead :
      (text : Bytes) (r : HijackRule) → parse_hijack_rule dns text ≡ some r → IsRead text r
  unfolding parse_hijack_rule join
  parse_hijack_rule-IsRead text r h =
      let (source, dest, parts, ds, dd, e) = rule_of_parts-inv (split b'/' text) r h in
      (source, dest, sym (join-split b'/' text) ∙ ap (join b'/') parts, ds, dd, e)

  split-rule_text :
      (source dest : Bytes)
      → contains_byte b'/' source ≡ false
      → contains_byte b'/' dest ≡ false
      → split b'/' (rule_text source dest) ≡ [] ∷ source ∷ dest ∷ [] ∷ []
  unfolding split
  split-rule_text source dest hs hd = ap (◌∷◌ []) (
      split-append b'/' source (dest ++ b'/' ∷ [])
      ∙ ap (λ ps. ps ++ split b'/' (dest ++ b'/' ∷ [])) (split-whole b'/' source hs)
      ∙ ap (◌∷◌ source)
          (split-append b'/' dest [] ∙ ap (λ ps. ps ++ [] ∷ []) (split-whole b'/' dest hd)))

  hijack_rule-domains :
      (source dest : Bytes)
      → contains_byte dot source ≡ true
      → contains_byte dot dest ≡ true
      → hijack_rule dns source dest
        ≡ some (record { source = dns.fqdn source; dest = dns.fqdn dest })
  hijack_rule-domains [] dest hs hd = cc
  hijack_rule-domains (c ∷ s) [] hs hd = cc
  hijack_rule-domains (c ∷ s) (d ∷ t) hs hd = ground arith

  -- Every text `/source/dest/` of two domains that have a dot and no slash is read as a rule, whose
  -- domains are fully qualified, as `processHijackRules` takes them.
  pub parse_hijack_rule-rule_text :
      (source dest : Bytes)
      → IsDomain source
      → IsDomain dest
      → (r : HijackRule) × (parse_hijack_rule dns (rule_text source dest) ≡ some r)
        × (r.source ≡ dns.fqdn source)
        × (r.dest ≡ dns.fqdn dest)
        × IsQualified dns r.source
        × IsQualified dns r.dest
  unfolding parse_hijack_rule
  parse_hijack_rule-rule_text source dest hs hd = (
    record { source = dns.fqdn source; dest = dns.fqdn dest },
    ap (rule_of_parts dns) (split-rule_text source dest hs.1 hd.1)
        ∙ hijack_rule-domains source dest hs.0 hd.0,
    refl,
    refl,
    dns.fqdn_idem source,
    dns.fqdn_idem dest,
  )

module _ (net : NetLib) where
  -- An address that `ensurePort` gives has a port, and giving it to `ensurePort` again, with any
  -- default port, changes nothing. A host without brackets, joined to a port, splits again.
  pub ensure_port_idem :
      (addr port other_port : Bytes)
      → (is_some (net.split_host_port (net.join_host_port (trim_brackets addr) port)) ≡ true)
      → (is_some (net.split_host_port (ensure_port net addr port)) ≡ true)
        × (ensure_port net (ensure_port net addr port) other_port ≡ ensure_port net addr port)
  unfolding ensure_port
  ensure_port_idem addr port other_port h = ground arith
