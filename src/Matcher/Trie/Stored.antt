-- ===== src/Matcher/Trie/Stored.antt =====
-- What a trie holds at a path, and how `Add` changes it.
use ts_dns.Common.{◌≡◌, refl, ap, ◌↔◌, Bool, true, false, ◌&&◌, Option, none, some, List, [], ◌∷◌}
use ts_dns.Common.{arith, Bytes, eq_bytes, eq_bytes_iff, Bool-cases, inl, inr, ◌∙◌, if◌then◌else◌}
use ts_dns.Matcher.Trie.{
  TrieNode, node, Children, no_child, child, new_trie_node, get_child, put_child, child_or_new,
  add_path, descend,
}

abbrev pub flag_at : Option TrieNode → Option Bool
flag_at none = none
flag_at (some (node cs true k)) = some k
flag_at (some (node cs false k)) = none

-- The flag of the rule stored at exactly this path.
abbrev pub stored : TrieNode → List Bytes → Option Bool
stored t ps = flag_at (descend ps t)

unfoldable pub eq_path : List Bytes → List Bytes → Bool
eq_path [] [] = true
eq_path [] (q ∷ qs) = false
eq_path (p ∷ ps) [] = false
eq_path (p ∷ ps) (q ∷ qs) = eq_bytes p q && eq_path ps qs

pub eq_path_iff : (ps qs : List Bytes) → (eq_path ps qs ≡ true) ↔ (ps ≡ qs)
unfolding eq_path
eq_path_iff [] [] = ground arith
eq_path_iff [] (q ∷ qs) = ground arith
eq_path_iff (p ∷ ps) [] = ground arith
eq_path_iff (p ∷ ps) (q ∷ qs) = ground (arith, eq_bytes_iff p q, eq_path_iff ps qs)

pub get_child-put_child :
    (p q : Bytes) (n : TrieNode) (cs : Children)
    → get_child q (put_child p n cs) ≡ (if eq_bytes p q then some n else get_child q cs)
unfolding get_child put_child
get_child-put_child p q n no_child = refl
get_child-put_child p q n (child r m cs) =
    ground
      (arith, eq_bytes_iff p q, eq_bytes_iff r p, eq_bytes_iff r q, get_child-put_child p q n cs)

pub stored-new_trie_node : (qs : List Bytes) → stored new_trie_node qs ≡ none
unfolding descend get_child
stored-new_trie_node [] = refl
stored-new_trie_node (q ∷ qs) = refl

stored-child_or_new :
    (p : Bytes) (qs : List Bytes) (cs : Children) (e k : Bool)
    → stored (child_or_new p cs) qs ≡ stored (node cs e k) (p ∷ qs)
unfolding descend
stored-child_or_new p qs cs e k = by_child (get_child p cs)
  where
    by_child :
        (o : Option TrieNode)
        → flag_at (descend qs (elim o [ none ↦ new_trie_node | some n ↦ n ]))
          ≡ flag_at (elim o [ none ↦ none | some n ↦ descend qs n ])
    by_child none = stored-new_trie_node qs
    by_child (some n) = refl

-- A rule added at a path is stored there with its flag, and every other path holds what it held.
pub stored-add_path :
    (ps qs : List Bytes) (b : Bool) (t : TrieNode)
    → stored (add_path ps b t) qs ≡ (if eq_path ps qs then some b else stored t qs)
unfolding add_path eq_path descend
stored-add_path [] [] b (node cs e k) = refl
stored-add_path [] (q ∷ qs) b (node cs e k) = refl
stored-add_path (p ∷ ps) [] b (node cs e k) = refl
stored-add_path (p ∷ ps) (q ∷ qs) b (node cs e k) =
    let n = add_path ps b (child_or_new p cs) in
    elim (Bool-cases (eq_bytes p q)) [
      | inl same ↦
          rw (get_child-put_child p q n cs, descend, same)
            (stored-add_path ps qs b (child_or_new p cs)
              ∙ ap (λ o. if eq_path ps qs then some b else o)
                  (stored-child_or_new p qs cs e k
                    ∙ ap (λ r. stored (node cs e k) (r ∷ qs)) ((eq_bytes_iff p q).0 same)))
      | inr diff ↦ rw (get_child-put_child p q n cs, descend, diff)
    ]
