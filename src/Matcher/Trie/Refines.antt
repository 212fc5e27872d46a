-- ===== src/Matcher/Trie/Refines.antt =====
-- `Match` against a specification without a trie: the rules in the order in which they were added.
use mathlib.Core.List.{reverse-reverse}
use ts_dns.Common.{ℕ, ◌≡◌, refl, sym, ap, ap₂, ◌∙◌, Bool, true, false, not, ◌&&◌}
use ts_dns.Common.{Option, none, some, List, [], ◌∷◌, reverse, arith, Bytes, if◌then◌else◌}
use ts_dns.Matcher.Trie.{
  TrieNode, node, new_trie_node, labels, add, descend, Outcome, or_next, match_from, match, add_all,
}
use ts_dns.Matcher.Trie.Stored.{
  flag_at, stored, eq_path, eq_path_iff, stored-add_path, stored-new_trie_node,
}

abbrev pub first_flag : Option Bool → Option Bool → Option Bool
first_flag (some b) o = some b
first_flag none o = o

abbrev pub is_empty : Bytes → Bool
is_empty [] = true
is_empty (c ∷ s) = false

-- The flag of the rule for exactly these labels that was added last.
unfoldable pub rule_for : List (Bytes × Bool) → List Bytes → Option Bool
rule_for [] xs = none
rule_for ((d, b) ∷ rules) xs =
    first_flag (rule_for rules xs)
      (if not (is_empty d) && eq_path (labels d) xs then some b else none)

-- The rule for the longest suffix of the labels that has one.
unfoldable pub closest_rule : List (Bytes × Bool) → List Bytes → Option Bool
unfolding rule_for
closest_rule rules [] = none
closest_rule rules (p ∷ ps) = first_flag (rule_for rules (p ∷ ps)) (closest_rule rules ps)

abbrev pub outcome_of : Option Bool → Outcome
outcome_of none = (false, false, false)
outcome_of (some b) = (true, b, true)

pub eq_path-reverse : (xs ys : List Bytes) → eq_path (reverse xs) (reverse ys) ≡ eq_path xs ys
eq_path-reverse xs ys =
    ground (arith, eq_path_iff xs ys, eq_path_iff (reverse xs) (reverse ys), back, forth)
  where
    back : reverse xs ≡ reverse ys → xs ≡ ys
    back e = sym (reverse-reverse xs) ∙ ap reverse e ∙ reverse-reverse ys

    forth : xs ≡ ys → reverse xs ≡ reverse ys
    forth e = ap reverse e

-- `Add` on labels in their written order.
pub stored-add :
    (d : Bytes) (b : Bool) (t : TrieNode) (xs : List Bytes)
    → stored (add d b t) (reverse xs)
      ≡ (if not (is_empty d) && eq_path (labels d) xs then some b else stored t (reverse xs))
unfolding add
stored-add [] b t xs = refl
stored-add (c ∷ s) b t xs =
    stored-add_path (reverse (labels (c ∷ s))) (reverse xs) b t
    ∙ ap (λ e. if e then some b else stored t (reverse xs)) (eq_path-reverse (labels (c ∷ s)) xs)

pub stored-add_all :
    (rules : List (Bytes × Bool)) (t : TrieNode) (xs : List Bytes)
    → stored (add_all rules t) (reverse xs) ≡ first_flag (rule_for rules xs) (stored t (reverse xs))
unfolding add_all rule_for
stored-add_all [] t xs = refl
stored-add_all ((d, b) ∷ rules) t xs =
    stored-add_all rules (add d b t) xs
    ∙ ap (first_flag (rule_for rules xs)) (stored-add d b t xs)
    ∙ regroup (rule_for rules xs) (not (is_empty d) && eq_path (labels d) xs)
  where
    regroup :
        (o : Option Bool) (e : Bool)
        → first_flag o (if e then some b else stored t (reverse xs))
          ≡ first_flag (first_flag o (if e then some b else none)) (stored t (reverse xs))
    regroup (some k) e = refl
    regroup none true = refl
    regroup none false = refl

or_next-outcome_of :
    (n : Option TrieNode) (o : Option Bool)
    → or_next n (outcome_of o) ≡ outcome_of (first_flag (flag_at n) o)
or_next-outcome_of none o = refl
or_next-outcome_of (some (node cs true k)) o = refl
or_next-outcome_of (some (node cs false k)) o = refl

-- The rule that `match_from` finds: the first stored suffix.
closest_stored : TrieNode → List Bytes → Option Bool
closest_stored t [] = none
closest_stored t (p ∷ ps) = first_flag (stored t (reverse (p ∷ ps))) (closest_stored t ps)

match_from-closest_stored :
    (xs : List Bytes) (t : TrieNode) → match_from xs t ≡ outcome_of (closest_stored t xs)
unfolding match_from closest_stored
match_from-closest_stored [] t = refl
match_from-closest_stored (p ∷ ps) t =
    ap (or_next (descend (reverse (p ∷ ps)) t)) (match_from-closest_stored ps t)
    ∙ or_next-outcome_of (descend (reverse (p ∷ ps)) t) (closest_stored t ps)

first_flag-none : (o : Option Bool) → first_flag o none ≡ o
first_flag-none none = refl
first_flag-none (some b) = refl

closest_stored-closest_rule :
    (rules : List (Bytes × Bool)) (xs : List Bytes)
    → closest_stored (add_all rules new_trie_node) xs ≡ closest_rule rules xs
unfolding closest_stored closest_rule
closest_stored-closest_rule rules [] = refl
closest_stored-closest_rule rules (p ∷ ps) =
    ap₂ first_flag
      (stored-add_all rules new_trie_node (p ∷ ps)
        ∙ ap (first_flag (rule_for rules (p ∷ ps))) (stored-new_trie_node (reverse (p ∷ ps)))
        ∙ first_flag-none (rule_for rules (p ∷ ps)))
      (closest_stored-closest_rule rules ps)

-- In a trie built by any sequence of `Add`s, `Match` of a non-empty domain reports the rule for the
-- longest suffix of the domain's labels that has a rule, with the flag that was added last for it,
-- and no match if no suffix has a rule. Labels are what stands between the dots once the dots at both ends are
-- off, so that a rule `.qq.com` is one for `qq.com` itself, too.
pub match-closest_rule :
    (rules : List (Bytes × Bool)) (c : ℕ) (s : Bytes)
    → match (c ∷ s) (add_all rules new_trie_node) ≡ outcome_of (closest_rule rules (labels (c ∷ s)))
unfolding match
match-closest_rule rules c s =
    match_from-closest_stored (labels (c ∷ s)) (add_all rules new_trie_node)
    ∙ ap outcome_of (closest_stored-closest_rule rules (labels (c ∷ s)))

eq_path_self : (xs : List Bytes) → eq_path xs xs ≡ true
eq_path_self xs = (eq_path_iff xs xs).1 refl

closest_stored_agree :
    (t u : TrieNode)
    → ((xs : List Bytes) → stored t (reverse xs) ≡ stored u (reverse xs))
    → (ys : List Bytes) → closest_stored t ys ≡ closest_stored u ys
unfolding closest_stored
closest_stored_agree t u same [] = refl
closest_stored_agree t u same (p ∷ ps) =
    ap₂ first_flag (same (p ∷ ps)) (closest_stored_agree t u same ps)

-- Two tries that hold the same flags at every path answer alike.
pub match-stored :
    (t u : TrieNode) (d : Bytes)
    → ((xs : List Bytes) → stored t (reverse xs) ≡ stored u (reverse xs))
    → match d t ≡ match d u
unfolding match
match-stored t u [] same = refl
match-stored t u (c ∷ s) same =
    match_from-closest_stored (labels (c ∷ s)) t
    ∙ ap outcome_of (closest_stored_agree t u same (labels (c ∷ s)))
    ∙ sym (match_from-closest_stored (labels (c ∷ s)) u)
