-- ===== src/Matcher/Trie/Walks.antt =====
-- matcher/trie.go: what `Walk` visits, and adding it to a trie.
use ts_dns.Common.{◌≡◌, refl, sym, ap, ap₂, ◌∙◌, inl, inr, Bool, true, false}
use ts_dns.Common.{Option, none, some, List, [], ◌∷◌, ◌++◌, map, reverse, arith}
use ts_dns.Common.{Bytes, eq_bytes, eq_bytes_iff, if◌then◌else◌, Bool-cases}
use ts_dns.Matcher.Trie.{
  TrieNode, node, Children, no_child, child, get_child, put_child, child_or_new, add_path, labels,
  add, descend, add_all,
}
use ts_dns.Matcher.Trie.Stored.{flag_at, stored, eq_path, get_child-put_child}
use ts_dns.Matcher.Trie.Refines.{first_flag}

-- The stored paths with their flags, in the order of the walk.
unfoldable mutual
  pub entries : TrieNode → List (List Bytes × Bool)
  entries (node cs e k) = (if e then ([], k) ∷ [] else []) ++ child_entries cs

  pub child_entries : Children → List (List Bytes × Bool)
  child_entries no_child = []
  child_entries (child p n cs) = map (λ (ps, k). (p ∷ ps, k)) (entries n) ++ child_entries cs

-- No label stands twice among the children of a node, as in any map.
abbrev mutual
  pub IsMap : TrieNode → Type 0
  IsMap (node cs e k) = AreMaps cs

  pub AreMaps : Children → Type 0
  AreMaps no_child = Unit
  AreMaps (child p n cs) = (get_child p cs ≡ none) × IsMap n × AreMaps cs

child_or_new-IsMap : (p : Bytes) (cs : Children) → AreMaps cs → IsMap (child_or_new p cs)
unfolding get_child
child_or_new-IsMap p no_child h = tt
child_or_new-IsMap p (child q n cs) h = elim (Bool-cases (eq_bytes q p)) [
  | inl here ↦ rw (here, child_or_new) h.1
  | inr past ↦ rw (past, child_or_new) (child_or_new-IsMap p cs h.2)
]

put_child-AreMaps :
    (p : Bytes) (n : TrieNode) (cs : Children) → IsMap n → AreMaps cs → AreMaps (put_child p n cs)
unfolding put_child get_child
put_child-AreMaps p n no_child hn h = (refl, hn, tt)
put_child-AreMaps p n (child q m cs) hn h = elim (Bool-cases (eq_bytes q p)) [
  | inl here ↦ rw here (rw (← (eq_bytes_iff q p).0 here) h.0, hn, h.2)
  | inr past ↦ rw past (
    get_child-put_child p q n cs ∙ (ground (arith, eq_bytes_iff q p, eq_bytes_iff p q)),
    h.1,
    put_child-AreMaps p n cs hn h.2,
  )
]

add_path-IsMap : (ps : List Bytes) (b : Bool) (t : TrieNode) → IsMap t → IsMap (add_path ps b t)
unfolding add_path
add_path-IsMap [] b (node cs e k) h = h
add_path-IsMap (p ∷ ps) b (node cs e k) h =
    put_child-AreMaps p (add_path ps b (child_or_new p cs)) cs
      (add_path-IsMap ps b (child_or_new p cs) (child_or_new-IsMap p cs h)) h

pub add_all-IsMap : (rules : List (Bytes × Bool)) (t : TrieNode) → IsMap t → IsMap (add_all rules t)
unfolding add_all add
add_all-IsMap [] t h = h
add_all-IsMap (([], b) ∷ rules) t h = add_all-IsMap rules t h
add_all-IsMap ((c ∷ s, b) ∷ rules) t h =
    add_all-IsMap rules (add_path (reverse (labels (c ∷ s))) b t)
      (add_path-IsMap (reverse (labels (c ∷ s))) b t h)

-- The flag of the last entry for a path.
unfoldable pub path_rule : List (List Bytes × Bool) → List Bytes → Option Bool
path_rule [] qs = none
path_rule ((ps, k) ∷ es) qs = first_flag (path_rule es qs) (if eq_path ps qs then some k else none)

first_flag_assoc :
    (a b c : Option Bool) → first_flag a (first_flag b c) ≡ first_flag (first_flag a b) c
first_flag_assoc (some x) b c = refl
first_flag_assoc none b c = refl

path_rule-append :
    (xs ys : List (List Bytes × Bool)) (qs : List Bytes)
    → path_rule (xs ++ ys) qs ≡ first_flag (path_rule ys qs) (path_rule xs qs)
unfolding path_rule
path_rule-append [] ys qs = none_right (path_rule ys qs)
  where
    none_right : (o : Option Bool) → o ≡ first_flag o none
    none_right none = refl
    none_right (some b) = refl
path_rule-append ((ps, k) ∷ xs) ys qs =
    ap (λ o. first_flag o (if eq_path ps qs then some k else none)) (path_rule-append xs ys qs)
    ∙ sym (
        first_flag_assoc (path_rule ys qs) (path_rule xs qs)
          (if eq_path ps qs then some k else none))

path_rule-prefixed :
    (p q : Bytes) (es : List (List Bytes × Bool)) (qs : List Bytes)
    → path_rule (map (λ (ps, k). (p ∷ ps, k)) es) (q ∷ qs)
      ≡ (if eq_bytes p q then path_rule es qs else none)
unfolding path_rule eq_path
path_rule-prefixed p q [] qs = ground arith
path_rule-prefixed p q ((ps, k) ∷ es) qs = ground (arith, path_rule-prefixed p q es qs)

path_rule-prefixed_nil :
    (p : Bytes) (es : List (List Bytes × Bool))
    → path_rule (map (λ (ps, k). (p ∷ ps, k)) es) [] ≡ none
unfolding path_rule eq_path
path_rule-prefixed_nil p [] = refl
path_rule-prefixed_nil p ((ps, k) ∷ es) = rw (path_rule-prefixed_nil p es)

path_rule-child_entries_nil : (cs : Children) → path_rule (child_entries cs) [] ≡ none
unfolding path_rule child_entries
path_rule-child_entries_nil no_child = refl
path_rule-child_entries_nil (child p n cs) =
    path_rule-append (map (λ (ps, k). (p ∷ ps, k)) (entries n)) (child_entries cs) []
    ∙ ap₂ first_flag (path_rule-child_entries_nil cs) (path_rule-prefixed_nil p (entries n))

abbrev pub child_stored : Children → Bytes → List Bytes → Option Bool
child_stored cs q qs = flag_at (elim (get_child q cs) [ none ↦ none | some n ↦ descend qs n ])

if-stored :
    (b k : Bool) (cs : Children)
    → path_rule (if b then ([], k) ∷ [] else []) [] ≡ flag_at (some (node cs b k))
unfolding path_rule eq_path
if-stored true k cs = refl
if-stored false k cs = refl

if-path_rule_cons :
    (b k : Bool) (q : Bytes) (qs : List Bytes)
    → path_rule (if b then ([], k) ∷ [] else []) (q ∷ qs) ≡ none
unfolding path_rule eq_path
if-path_rule_cons true k q qs = refl
if-path_rule_cons false k q qs = refl

first_flag-none : (o : Option Bool) → first_flag o none ≡ o
first_flag-none none = refl
first_flag-none (some b) = refl

-- One child: its own entries answer for its label, the others for every other label.
child_stored-cons :
    (p q : Bytes) (n : TrieNode) (cs : Children) (qs : List Bytes)
    → get_child p cs ≡ none
    → first_flag (child_stored cs q qs) (if eq_bytes p q then stored n qs else none)
      ≡ child_stored (child p n cs) q qs
unfolding get_child
child_stored-cons p q n cs qs h = elim (Bool-cases (eq_bytes p q)) [
  | inl here ↦ rw here (
      ap (λ o. first_flag (flag_at (elim o [ none ↦ none | some m ↦ descend qs m ])) (stored n qs))
        (ap (λ r. get_child r cs) (sym ((eq_bytes_iff p q).0 here)) ∙ h))
  | inr past ↦ rw past (first_flag-none (child_stored cs q qs))
]

no_entries : (q : Bytes) (qs : List Bytes) → path_rule [] (q ∷ qs) ≡ child_stored no_child q qs
unfolding path_rule get_child
no_entries q qs = refl

mutual
  unfolding entries child_entries descend

  pub path_rule-entries :
      (t : TrieNode) (qs : List Bytes) → IsMap t → path_rule (entries t) qs ≡ stored t qs
  path_rule-entries (node cs e k) [] h =
      path_rule-append (if e then ([], k) ∷ [] else []) (child_entries cs) []
      ∙ ap (λ o. first_flag o (path_rule (if e then ([], k) ∷ [] else []) []))
          (path_rule-child_entries_nil cs)
      ∙ if-stored e k cs
  path_rule-entries (node cs e k) (q ∷ qs) h =
      path_rule-append (if e then ([], k) ∷ [] else []) (child_entries cs) (q ∷ qs)
      ∙ ap₂ first_flag (path_rule-child_entries cs q qs h) (if-path_rule_cons e k q qs)
      ∙ first_flag-none (child_stored cs q qs)

  path_rule-child_entries :
      (cs : Children) (q : Bytes) (qs : List Bytes)
      → AreMaps cs
      → path_rule (child_entries cs) (q ∷ qs) ≡ child_stored cs q qs
  path_rule-child_entries no_child q qs h = no_entries q qs
  path_rule-child_entries (child p n cs) q qs h =
      path_rule-append (map (λ (ps, k). (p ∷ ps, k)) (entries n)) (child_entries cs) (q ∷ qs)
      ∙ ap₂ first_flag (path_rule-child_entries cs q qs h.2) (
          path_rule-prefixed p q (entries n) qs
          ∙ ap (λ o. if eq_bytes p q then o else none) (path_rule-entries n qs h.1))
      ∙ child_stored-cons p q n cs qs h.0
