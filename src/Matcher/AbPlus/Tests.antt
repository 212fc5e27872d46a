-- ===== src/Matcher/AbPlus/Tests.antt =====
-- Runs of the rule matcher, and the theorems about the trie and the matcher at concrete inputs.
use ts_dns.Common.{◌≡◌, ◌≢◌, refl, inl, Bool, true, false, none, some, List, [], ◌∷◌, ◌++◌}
use ts_dns.Common.{All, any, Bytes, eq_bytes, codes, join, dot, split, trim_space, trim}
use ts_dns.Regexp.{group}
use ts_dns.Samples.{sample_regexp, match_sample}
use ts_dns.Matcher.Trie.{new_trie_node, match as trie_match, add, add_all, walk, labels}
use ts_dns.Matcher.Trie.Refines.{outcome_of, closest_rule, match-closest_rule}
use ts_dns.Matcher.AbPlus.{
  AbPlus, after_trie, normal, match, optimize, extend, new_matcher, new_abp_by_text,
}
use ts_dns.Matcher.AbPlus.Merges.{match-optimize}
use ts_dns.Matcher.AbPlus.Folds.{match-extend}
use ts_dns.Matcher.AbPlus.Reads.{bare_google_line, new_abp_by_text-panics}

abbrev rules : List (Bytes × Bool)
rules =
    (codes "cn", true) ∷ (codes "a.cn", false) ∷ (codes "a.cn", true) ∷ (codes "b.a.cn", false) ∷ []

match_runs :
    (trie_match (codes "x.a.cn") (add_all rules new_trie_node) ≡ (true, true, true))
    × (trie_match (codes "x.b.a.cn") (add_all rules new_trie_node) ≡ (true, false, true))
    × (trie_match (codes "x.com") (add_all rules new_trie_node) ≡ (false, false, false))
unfolding trie_match add_all eq_bytes
match_runs = (refl, refl, refl)

match-closest_rule_example :
    trie_match (codes "x.a.cn") (add_all rules new_trie_node)
    ≡ outcome_of (closest_rule rules (labels (codes "x.a.cn")))
match-closest_rule_example = match-closest_rule rules b'x' (codes ".a.cn")

domains : All (λ (d, b). trim dot d ≢ []) rules
unfolding trim
domains = (λ e. cc, (λ e. cc, (λ e. cc, (λ e. cc, tt))))

abbrev sample : AbPlus Bytes
sample = record (new_matcher sample_regexp) {
  trie = add_all rules new_trie_node;
  blocked_regs = codes "^x$" ∷ codes "^y$" ∷ [];
}

-- The second of the merged expressions matches the one domain and not the other.
merged_runs :
    (match sample_regexp (optimize sample_regexp sample) (codes "Y.") ≡ (true, true))
    × (match sample_regexp (optimize sample_regexp sample) (codes "z.") ≡ (false, false))
unfolding match optimize match_sample trie_match eq_bytes add_all join
merged_runs = (refl, refl)

match-optimize_example :
    match sample_regexp (optimize sample_regexp sample) (codes "Y.")
    ≡ after_trie
        (trie_match (normal (codes "Y.")) sample.trie)
        (any (λ r. sample_regexp.match_string r (normal (codes "Y."))) sample.blocked_regs)
        (any (λ r. sample_regexp.match_string r (normal (codes "Y."))) sample.unblocked_regs)
match-optimize_example =
    match-optimize sample_regexp sample b'Y' (codes ".")
      ((group (codes "^x$"), refl), ((group (codes "^y$"), refl), tt)) tt

abbrev extended : AbPlus Bytes
extended =
    extend sample_regexp (record (new_matcher sample_regexp) { blocked_regs = codes "^w$" ∷ [] })
      (some sample)

extended_runs :
    (match sample_regexp extended (codes "w") ≡ (true, true))
    × (match sample_regexp extended (codes "y") ≡ (true, true))
    × (match sample_regexp extended (codes "x.a.cn") ≡ (true, true))
    × (match sample_regexp extended (codes "z") ≡ (false, false))
unfolding match extend match_sample trie_match eq_bytes add_all walk
extended_runs = (refl, refl, refl, refl)

match-extend_example :
    match sample_regexp extended (codes "y")
    ≡ after_trie
        (trie_match (normal (codes "y")) (add_all rules new_trie_node))
        (any
          (λ r. sample_regexp.match_string r (normal (codes "y")))
          (codes "^w$" ∷ sample.blocked_regs))
        (any (λ r. sample_regexp.match_string r (normal (codes "y"))) sample.unblocked_regs)
match-extend_example =
    match-extend sample_regexp
      (record (new_matcher sample_regexp) { blocked_regs = codes "^w$" ∷ [] }) sample rules b'y' []
      refl domains
      (
        (group (codes "^w$"), refl),
        ((group (codes "^x$"), refl), ((group (codes "^y$"), refl), tt)),
      )
      tt

-- A rule with a leading dot is one for the domain itself too.
dotted_rule :
    trie_match (codes "qq.com") (add_all ((codes ".qq.com", true) ∷ []) new_trie_node)
    ≡ (true, true, true)
unfolding trie_match add_all eq_bytes
dotted_rule = refl

abbrev text : Bytes
text =
    codes "! list"
    ++ 10 ∷ codes "||Google.com^"
    ++ 10 ∷ codes "@@||maps.google.com"
    ++ 10 ∷ codes "*.x.org/a"

text_is_read :
    (m : AbPlus Bytes) × (new_abp_by_text sample_regexp text ≡ some m)
    × (match sample_regexp m (codes "www.GOOGLE.com.") ≡ (true, true))
    × (match sample_regexp m (codes "maps.google.com") ≡ (false, true))
    × (m.blocked_regs ≡ codes "^.*\\.x\\.org$" ∷ [])
unfolding new_abp_by_text match trie_match add eq_bytes
text_is_read = (_, refl, refl, refl, refl)

bare_google_line_panics : new_abp_by_text sample_regexp bare_google_line ≡ none
unfolding new_abp_by_text
bare_google_line_panics = refl

new_abp_by_text-panics_example : new_abp_by_text sample_regexp bare_google_line ≡ none
unfolding split trim_space
new_abp_by_text-panics_example =
    new_abp_by_text-panics sample_regexp bare_google_line bare_google_line (inl refl) refl
