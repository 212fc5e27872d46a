-- ===== src/Outbound/Builds/Matches.antt =====
-- outbound/groups.go: which queries a built group matches.
use ts_dns.Common.{
  ◌≡◌, refl, sym, ap, ap₂, ◌∙◌, Bool, true, false, not, ◌&&◌, ◌||◌, none, some, List, [], ◌∷◌,
  arith, Bytes, join, reverse, ◌>>=◌, some_inj,
}
use ts_dns.Dns.{DnsLib, NetLib, Question, Msg}
use ts_dns.Regexp.{RegexpLib}
use ts_dns.Matcher.Trie.{
  new_trie_node, Outcome, or_next, labels, descend, match_from, match as trie_match,
}
use ts_dns.Matcher.AbPlus.{
  AbPlus, match, normal, after_trie, optimize, new_matcher, new_abp_by_text, new_abp_by_file,
}
use ts_dns.Outbound.Hijack.{is_nil}
use ts_dns.Outbound.Builds.{
  GroupSection, GroupImpl, BuildLib, is_set_gfw_list, is_empty_rule, unless_empty, some_of, flat,
  extend_with, build_matcher, build_group, match_list, match_domain, match_question, match_group,
}
use ts_dns.Outbound.Builds.Flags.{build_group-fields}

is_nil→nil : {A : Type 0} (xs : List A) → is_nil xs ≡ true → xs ≡ []
is_nil→nil [] h = refl
is_nil→nil (x ∷ xs) h = cc

empty_parts :
    (a b c d : Bool)
    → (a && (b && not (not c || not d))) ≡ true
    → (a ≡ true) × (b ≡ true) × (c ≡ true) × (d ≡ true)
empty_parts a b c d h = ground arith

-- An empty trie.
or_next-descend :
    (ps : List Bytes) (next : Outcome) → or_next (descend ps new_trie_node) next ≡ next
unfolding descend
or_next-descend [] next = refl
or_next-descend (p ∷ ps) next = refl

match_from-empty : (ps : List Bytes) → match_from ps new_trie_node ≡ (false, false, false)
unfolding match_from
match_from-empty [] = refl
match_from-empty (p ∷ ps) =
    ap (or_next (descend (reverse (p ∷ ps)) new_trie_node)) (match_from-empty ps)
    ∙ or_next-descend (reverse (p ∷ ps)) (false, false, false)

trie_match-empty : (d : Bytes) → trie_match d new_trie_node ≡ (false, false, false)
unfolding trie_match
trie_match-empty [] = refl
trie_match-empty (c ∷ s) = match_from-empty (labels (c ∷ s))

module _ {P I : Type 0} (re : RegexpLib) (dns : DnsLib) (net : NetLib)
    (lib : BuildLib re.Regexp P I) where
  open re use {Regexp}

  -- The matcher of the empty text.
  abbrev nothing : AbPlus Regexp
  unfolding optimize
  nothing = optimize re (new_matcher re)

  match-nothing : (d : Bytes) → (match re nothing d).0 ≡ false
  unfolding match optimize
  match-nothing [] = refl
  match-nothing (c ∷ s) = ap (λ o. (after_trie o false false).0) (trie_match-empty (normal (c ∷ s)))

  -- The matcher of a section without rules.
  build_matcher-nothing :
      (conf : GroupSection)
      → is_nil conf.rules ≡ true
      → is_nil conf.rules_file ≡ true
      → build_matcher re dns net lib conf ≡ some nothing
  unfolding build_matcher join new_abp_by_text
  build_matcher-nothing conf rules file =
      ap₂
        (λ rs f. new_abp_by_text re (join 10 rs) >>= λ m. unless_empty f m (λ f.
          extend_with re dns net lib m
            (flat (new_abp_by_file re lib.read_file lib.decode_base64 f false))))
        (is_nil→nil conf.rules rules) (is_nil→nil conf.rules_file file)

  match_domain-nothing :
      (g : GroupImpl Regexp P I) (d : Bytes)
      → g.matcher ≡ nothing
      → g.gfw_list ≡ none
      → match_domain re dns net lib g d ≡ false
  match_domain-nothing g [] m l = refl
  match_domain-nothing g (c ∷ s) m l =
      ap₂ (λ m l. (match re m (c ∷ s)).0 || match_list re dns net lib l (c ∷ s)) m l
      ∙ ap (λ b. b || false) (match-nothing (c ∷ s))

  match_question-nothing :
      (g : GroupImpl Regexp P I) (qs : List Question)
      → g.matcher ≡ nothing
      → g.gfw_list ≡ none
      → match_question re dns net lib g qs ≡ false
  match_question-nothing g [] m l = refl
  match_question-nothing g (q ∷ qs) m l = match_domain-nothing g q.name m l

  -- A group that is built from a section with neither rules nor a GFW list is the fallback group and
  -- matches no query.
  pub match_group-build_group :
      (name : Bytes) (conf : GroupSection) (g : GroupImpl Regexp P I) (req : Msg)
      → is_empty_rule conf ≡ true
      → build_group re dns net lib name conf (is_empty_rule conf || conf.fallback) ≡ some g
      → (g.fallback ≡ true) × (match_group re dns net lib g req ≡ false)
  unfolding match_group is_empty_rule is_set_gfw_list
  match_group-build_group name conf g req empty h =
      let (named, falls_back, url, list, m) =
        build_group-fields re dns net lib name conf (is_empty_rule conf || conf.fallback) g h in
      let (rules, file, list_file, list_url) =
        empty_parts (is_nil conf.rules) (is_nil conf.rules_file) (is_nil conf.gfwlist_file)
          (is_nil conf.gfwlist_url) empty in
      (
        falls_back ∙ ap (λ b. b || conf.fallback) empty,
        match_question-nothing g req.question
            (some_inj (sym m ∙ build_matcher-nothing conf rules file))
            (some_inj (
              sym list
              ∙ ap
                  (λ f. unless_empty f none (λ f.
                    some_of (flat (new_abp_by_file re lib.read_file lib.decode_base64 f true))))
                  (is_nil→nil conf.gfwlist_file list_file))),
      )
