-- ===== src/Matcher/AbPlus/Folds.antt =====
-- What `Match` does not distinguish, and what `Extend` matches.
use ts_dns.Common.{ℕ, ◌≡◌, ap, ◌∙◌, false, some, List, [], ◌∷◌, ◌++◌, any, All}
use ts_dns.Common.{
  Bytes, dot, lower, to_lower, to_lower_idem, ends_with, trim_suffix, trim_suffix-to_lower_snoc,
  Bool,
}
use ts_dns.Regexp.{RegexpLib}
use ts_dns.Matcher.Trie.{new_trie_node, match as trie_match, add_all, walk}
use ts_dns.Matcher.Trie.Extends.{IsDomain, match-add_all-walk}
use ts_dns.Matcher.AbPlus.{AbPlus, after_trie, normal, regs_match, match, extend}
use ts_dns.Matcher.AbPlus.Merges.{Groups, match-optimize}

module _ (re : RegexpLib) where
  open re use {Regexp, match_string}

  match_normal :
      (m : AbPlus Regexp) (c x : ℕ) (s t : Bytes)
      → normal (c ∷ s) ≡ normal (x ∷ t)
      → match re m (c ∷ s) ≡ match re m (x ∷ t)
  unfolding match
  match_normal m c x s t h =
      ap
        (λ d.
          after_trie (trie_match d m.trie) (regs_match re m.combined_blocked_reg m.blocked_regs d)
            (regs_match re m.combined_unblocked_reg m.unblocked_regs d))
        h

  -- `Match` does not distinguish upper from lower case.
  pub match-to_lower :
      (m : AbPlus Regexp) (c : ℕ) (s : Bytes) → match re m (to_lower (c ∷ s)) ≡ match re m (c ∷ s)
  unfolding normal to_lower
  match-to_lower m c s =
      match_normal m (lower c) c (to_lower s) s (ap (trim_suffix dot) (to_lower_idem (c ∷ s)))

  -- `Match` does not distinguish a domain that does not end in a dot from the same domain with the
  -- root's final dot.
  pub match-final_dot :
      (m : AbPlus Regexp) (c : ℕ) (s : Bytes)
      → ends_with dot (c ∷ s) ≡ false
      → match re m ((c ∷ s) ++ dot ∷ []) ≡ match re m (c ∷ s)
  unfolding normal
  match-final_dot m c s h =
      match_normal m c c (s ++ dot ∷ []) s (trim_suffix-to_lower_snoc (c ∷ s) h)

  -- `Extend` with a matcher whose trie was built from non-empty domains answers as a matcher to
  -- which that one's rules were added: the trie rules are added one by one, overwriting those of the
  -- same labels, and the expressions of both are tried, blocking before excepting.
  pub match-extend :
      (m target : AbPlus Regexp) (rules : List (Bytes × Bool)) (c : ℕ) (s : Bytes)
      → target.trie ≡ add_all rules new_trie_node
      → All (λ (d, b). IsDomain d) rules
      → All (Groups re) (m.blocked_regs ++ target.blocked_regs)
      → All (Groups re) (m.unblocked_regs ++ target.unblocked_regs)
      → match re (extend re m (some target)) (c ∷ s) ≡ (
          let d = normal (c ∷ s) in
          after_trie
            (trie_match d (add_all rules m.trie))
            (any (λ r. match_string r d) (m.blocked_regs ++ target.blocked_regs))
            (any (λ r. match_string r d) (m.unblocked_regs ++ target.unblocked_regs)))
  unfolding extend
  match-extend m target rules c s built domains hb hu =
      match-optimize re
        (record m {
          trie = add_all (walk target.trie) m.trie;
          blocked_regs = m.blocked_regs ++ target.blocked_regs;
          unblocked_regs = m.unblocked_regs ++ target.unblocked_regs;
        })
        c s hb hu
      ∙ ap
          (λ o.
            after_trie o
              (any (λ r. match_string r (normal (c ∷ s))) (m.blocked_regs ++ target.blocked_regs))
              (any (λ r. match_string r (normal (c ∷ s)))
                (m.unblocked_regs ++ target.unblocked_regs)))
          (ap (λ t. trie_match (normal (c ∷ s)) (add_all (walk t) m.trie)) built
            ∙ match-add_all-walk rules domains m.trie (normal (c ∷ s)))
