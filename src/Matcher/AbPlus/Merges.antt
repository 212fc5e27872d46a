-- ===== src/Matcher/AbPlus/Merges.antt =====
-- The combined expressions of `Optimize` against trying each expression in turn.
use ts_dns.Common.{ℕ, ◌≡◌, refl, ap₂, ◌∙◌, inl, inr, Bool, true, false, ◌||◌}
use ts_dns.Common.{some, List, [], ◌∷◌, map, All, any, Option-cases}
use ts_dns.Common.{Bytes, join}
use ts_dns.Regexp.{RegexpLib, group}
use ts_dns.Matcher.AbPlus.{AbPlus, merge_regs, optimize, regs_match, normal, match, after_trie}
use ts_dns.Matcher.Trie.{match as trie_match}

module _ (re : RegexpLib) where
  open re use {Regexp, compile, match_string, source, recompile, match-group, match-alternative}

  -- The text of the expression compiles as a group too.
  abbrev pub Groups : Regexp → Type 0
  Groups r = (g : Regexp) × (compile (group (source r)) ≡ some g)

  group-match :
      (r g : Regexp) (d : Bytes)
      → compile (group (source r)) ≡ some g
      → match_string g d ≡ match_string r d
  group-match r g d h =
      let (r', e, same) = recompile r in match-group (source r) r' g d e h ∙ same d

  merged_matches :
      (r : Regexp) (rs : List Regexp) (c : Regexp) (d : Bytes)
      → All Groups (r ∷ rs)
      → compile (join b'|' (map (λ q. group (source q)) (r ∷ rs))) ≡ some c
      → match_string c d ≡ any (λ q. match_string q d) (r ∷ rs)
  unfolding join
  merged_matches r [] c d (_, _) h = group-match r c d h ∙ or_false (match_string r d)
    where
      or_false : (b : Bool) → b ≡ (b || false)
      or_false true = refl
      or_false false = refl
  merged_matches r (q ∷ rs) c d ((g, eg), hs) h =
      let (r₀, alone, same₀) = recompile r in
      let (rest, e, same) =
        match-alternative (source r) (join b'|' (map (λ p. group (source p)) (q ∷ rs))) r₀ g c alone
          eg h in
      same d ∙ ap₂ ◌||◌ (group-match r g d eg) (merged_matches q rs rest d hs e)

  -- A block of `Match` answers as if it tried each expression, whether or not they were merged.
  pub regs_match-merge_regs :
      (rs : List Regexp) (d : Bytes)
      → All Groups rs
      → regs_match re (merge_regs re rs) rs d ≡ any (λ r. match_string r d) rs
  unfolding regs_match merge_regs
  regs_match-merge_regs [] d h = refl
  regs_match-merge_regs (r ∷ rs) d h = elim (Option-cases (merge_regs re (r ∷ rs))) [
    | inl off ↦ rw off
    | inr (c, on) ↦ rw on (merged_matches r rs c d h on)
  ]

  -- `Match` on an optimised matcher gives what the rules give one by one: the rule of the trie if it
  -- has one for the domain, else "matched" if some blocking expression matches the domain, else
  -- "excepted" if some excepting expression does, else nothing. The merged expressions change no
  -- answer, provided that each expression's text compiles as a group.
  pub match-optimize :
      (m : AbPlus Regexp) (c : ℕ) (s : Bytes)
      → All Groups m.blocked_regs
      → All Groups m.unblocked_regs
      → match re (optimize re m) (c ∷ s) ≡ (
          let d = normal (c ∷ s) in
          after_trie
            (trie_match d m.trie)
            (any (λ r. match_string r d) m.blocked_regs)
            (any (λ r. match_string r d) m.unblocked_regs))
  unfolding match optimize
  match-optimize m c s hb hu =
      ap₂ (after_trie (trie_match (normal (c ∷ s)) m.trie))
        (regs_match-merge_regs m.blocked_regs (normal (c ∷ s)) hb)
        (regs_match-merge_regs m.unblocked_regs (normal (c ∷ s)) hu)
