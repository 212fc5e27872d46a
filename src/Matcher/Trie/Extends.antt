-- ===== src/Matcher/Trie/Extends.antt =====
-- Adding what `Walk` visits to another trie, as `ABPlus.Extend` does.
use mathlib.Core.List.{reverse-reverse}
use ts_dns.Common.{◌≡◌, refl, sym, ap, ap₂, ◌∙◌, ◌≢◌, inl, inr, Bool, true, false, not, ◌&&◌}
use ts_dns.Common.{
  Option, none, some, List, [], ◌∷◌, ◌++◌, map, map-append, reverse, append_assoc, append-nil,
  arith, All, In,
}
use ts_dns.Common.{Bytes, dot, if◌then◌else◌, Bool-cases, join, split, trim}
use ts_dns.Common.{join-split, trim_idem}
use ts_dns.Matcher.Trie.{
  TrieNode, node, Children, no_child, child, new_trie_node, labels, match, walk_node, walk_children,
  walk, add_all,
}
use ts_dns.Matcher.Trie.Stored.{stored, eq_path, eq_path_iff, stored-new_trie_node}
use ts_dns.Matcher.Trie.Refines.{
  first_flag, is_empty, rule_for, stored-add_all, match-stored, eq_path-reverse,
}
use ts_dns.Matcher.Trie.Walks.{entries, child_entries, path_rule, path_rule-entries, add_all-IsMap}

-- A rule as the walk hands it to its function argument.
abbrev printed : List Bytes → List Bytes × Bool → Bytes × Bool
printed parts (ps, k) = (join dot (reverse (parts ++ ps)), k)

printed-prefixed :
    (parts : List Bytes) (p : Bytes) (es : List (List Bytes × Bool))
    → map (printed (parts ++ p ∷ [])) es ≡ map (printed parts) (map (λ (ps, k). (p ∷ ps, k)) es)
printed-prefixed parts p [] = refl
printed-prefixed parts p ((ps, k) ∷ es) =
    ap₂ ◌∷◌ (ap (λ qs. (join dot (reverse qs), k)) (append_assoc parts (p ∷ []) ps))
      (printed-prefixed parts p es)

printed_end :
    (e k : Bool) (parts : List Bytes)
    → (if e then (join dot (reverse parts), k) ∷ [] else [])
      ≡ map (printed parts) (if e then ([], k) ∷ [] else [])
printed_end true k parts = rw append-nil
printed_end false k parts = refl

mutual
  unfolding walk_node walk_children entries child_entries

  walk_node-entries :
      (t : TrieNode) (parts : List Bytes) → walk_node t parts ≡ map (printed parts) (entries t)
  walk_node-entries (node cs e k) parts =
      ap₂ ◌++◌ (printed_end e k parts) (walk_children-entries cs parts)
      ∙ sym (map-append (printed parts) (if e then ([], k) ∷ [] else []) (child_entries cs))

  walk_children-entries :
      (cs : Children) (parts : List Bytes)
      → walk_children cs parts ≡ map (printed parts) (child_entries cs)
  walk_children-entries no_child parts = refl
  walk_children-entries (child p n cs) parts =
      ap₂ ◌++◌ (walk_node-entries n (parts ++ p ∷ []) ∙ printed-prefixed parts p (entries n))
        (walk_children-entries cs parts)
      ∙ sym
          (map-append (printed parts) (map (λ (ps, k). (p ∷ ps, k)) (entries n)) (child_entries cs))

-- A path whose printed domain is split into its own labels again.
record IsPrintable (ps : List Bytes) : Type 0 where
  reads : labels (join dot (reverse ps)) ≡ reverse ps
  full : is_empty (join dot (reverse ps)) ≡ false

rule_for-printed :
    (es : List (List Bytes × Bool)) (xs : List Bytes)
    → All (λ (ps, k). IsPrintable ps) es
    → rule_for (map (printed []) es) xs ≡ path_rule es (reverse xs)
unfolding rule_for path_rule
rule_for-printed [] xs h = refl
rule_for-printed ((ps, k) ∷ es) xs (g, h) = ap₂ first_flag (rule_for-printed es xs h) (
    rw (g.full, g.reads)
      (ap (λ b. if b then some k else none)
        (sym (eq_path-reverse (reverse ps) xs)
          ∙ ap (λ qs. eq_path qs (reverse xs)) (reverse-reverse ps))))

abbrev pub IsDomain : Bytes → Type 0
IsDomain d = trim dot d ≢ []

rule_for-labels :
    (rules : List (Bytes × Bool)) (xs : List Bytes)
    → All (λ (d, b). IsDomain d) rules
    → rule_for rules xs ≢ none
    → (d : Bytes) × IsDomain d × (labels d ≡ xs)
unfolding rule_for
rule_for-labels [] xs h n = absurd (n refl)
rule_for-labels ((d, b) ∷ rules) xs (hd, h) n =
    elim (Bool-cases (not (is_empty d) && eq_path (labels d) xs)) [
      | inl here ↦ (d, hd, (eq_path_iff (labels d) xs).0 (ground arith))
      | inr past ↦ rule_for-labels rules xs h (λ e. n (rw (e, past)))
    ]

is_empty-false : (s : Bytes) → s ≢ [] → is_empty s ≡ false
is_empty-false [] h = absurd (h refl)
is_empty-false (c ∷ s) h = refl

IsPrintable-labels :
    (d : Bytes) (ps : List Bytes) → IsDomain d → labels d ≡ reverse ps → IsPrintable ps
unfolding labels
IsPrintable-labels d ps h e =
    let back : join dot (reverse ps) ≡ trim dot d =
      ap (join dot) (sym e) ∙ join-split dot (trim dot d) in
    record {
      reads = ap labels back ∙ ap (split dot) (trim_idem dot d) ∙ e;
      full = ap is_empty back ∙ is_empty-false (trim dot d) h;
    }

All-intro : {A : Type 0} (P : A → Type 0) (xs : List A) → ((x : A) → In x xs → P x) → All P xs
All-intro P [] f = tt
All-intro P (x ∷ xs) f = (f x (inl refl), All-intro P xs (λ y m. f y (inr m)))

path_rule-In :
    (es : List (List Bytes × Bool)) (ps : List Bytes) (k : Bool)
    → In (ps, k) es
    → path_rule es ps ≢ none
unfolding path_rule
path_rule-In [] ps k m = absurd m
path_rule-In ((qs, j) ∷ es) ps k (inl e) = ground (arith, eq_path_iff qs ps)
path_rule-In ((qs, j) ∷ es) ps k (inr m) = ground (arith, path_rule-In es ps k m)

module _ (rules : List (Bytes × Bool)) (domains : All (λ (d, b). IsDomain d) rules) where
  abbrev built : TrieNode
  built = add_all rules new_trie_node

  stored-built : (ps : List Bytes) → stored built ps ≡ rule_for rules (reverse ps)
  stored-built ps =
      ap (stored built) (sym (reverse-reverse ps))
      ∙ stored-add_all rules new_trie_node (reverse ps)
      ∙ ap (first_flag (rule_for rules (reverse ps))) (stored-new_trie_node (reverse (reverse ps)))
      ∙ none_right (rule_for rules (reverse ps))
    where
      none_right : (o : Option Bool) → first_flag o none ≡ o
      none_right none = refl
      none_right (some b) = refl

  entries-IsPrintable : All (λ (ps, k). IsPrintable ps) (entries built)
  entries-IsPrintable = All-intro (λ (ps, k). IsPrintable ps) (entries built) printable
    where
      printable : (e : List Bytes × Bool) → In e (entries built) → IsPrintable e.0
      printable (ps, k) m =
          let held : rule_for rules (reverse ps) ≢ none = λ h. path_rule-In (entries built) ps k m (
            path_rule-entries built ps (add_all-IsMap rules new_trie_node tt)
            ∙ stored-built ps
            ∙ h) in
          let (d, is_domain, same) = rule_for-labels rules (reverse ps) domains held in
          IsPrintable-labels d ps is_domain same

  rule_for-walk : (xs : List Bytes) → rule_for (walk built) xs ≡ rule_for rules xs
  unfolding walk
  rule_for-walk xs =
      ap (λ es. rule_for es xs) (walk_node-entries built [])
      ∙ rule_for-printed (entries built) xs entries-IsPrintable
      ∙ path_rule-entries built (reverse xs) (add_all-IsMap rules new_trie_node tt)
      ∙ stored-built (reverse xs)
      ∙ ap (rule_for rules) (reverse-reverse xs)

  -- Adding every rule that `Walk` visits in a trie, built from non-empty domains, to another trie
  -- gives a trie that matches every domain as if the first trie's rules had been added in their
  -- own order: a rule of both is overwritten by the walked one.
  pub match-add_all-walk :
      (t : TrieNode) (d : Bytes) → match d (add_all (walk built) t) ≡ match d (add_all rules t)
  match-add_all-walk t d = match-stored (add_all (walk built) t) (add_all rules t) d (λ xs.
      stored-add_all (walk built) t xs
      ∙ ap (λ o. first_flag o (stored t (reverse xs))) (rule_for-walk xs)
      ∙ sym (stored-add_all rules t xs))
