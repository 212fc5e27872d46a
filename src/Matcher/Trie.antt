-- ===== src/Matcher/Trie.antt =====
-- matcher/trie.go. The trie is a value, so `Add` returns the new one; the read-write mutex makes each
-- call atomic and has no other effect. A path through the trie lists labels from the top level down.
use ts_dns.Common.{Bool, true, false, Option, none, some, List, [], ◌∷◌, ◌++◌, reverse}
use ts_dns.Common.{Bytes, dot, eq_bytes, if◌then◌else◌, split, join, trim}
pub mod Stored
pub mod Refines
pub mod Walks
pub mod Extends

-- `trieNode`, with its map of children as an association list.
mutual
  pub data TrieNode : Type 0 where
    node : Children → Bool → Bool → TrieNode

  pub data Children : Type 0 where
    no_child : Children
    child : Bytes → TrieNode → Children → Children

-- `newTrieNode`.
abbrev pub new_trie_node : TrieNode
new_trie_node = node no_child false false

abbrev pub is_end : TrieNode → Bool
is_end (node cs e k) = e

abbrev pub is_block : TrieNode → Bool
is_block (node cs e k) = k

-- `node.children[part]`, read and written.
unfoldable pub get_child : Bytes → Children → Option TrieNode
get_child p no_child = none
get_child p (child q n cs) = if eq_bytes q p then some n else get_child p cs

unfoldable pub put_child : Bytes → TrieNode → Children → Children
put_child p n no_child = child p n no_child
put_child p n (child q m cs) = if eq_bytes q p then child p n cs else child q m (put_child p n cs)

abbrev pub child_or_new : Bytes → Children → TrieNode
child_or_new p cs = elim (get_child p cs) [ none ↦ new_trie_node | some n ↦ n ]

-- The loop of `Add`.
unfoldable pub add_path : List Bytes → Bool → TrieNode → TrieNode
unfolding get_child put_child
add_path [] b (node cs e k) = node cs true b
add_path (p ∷ ps) b (node cs e k) = node (put_child p (add_path ps b (child_or_new p cs)) cs) e k

-- `strings.Split(strings.Trim(domain, "."), ".")`.
unfoldable pub labels : Bytes → List Bytes
unfolding split trim
labels domain = split dot (trim dot domain)

-- `Add`.
unfoldable pub add : Bytes → Bool → TrieNode → TrieNode
unfolding add_path labels
add [] b t = t
add (c ∷ s) b t = add_path (reverse (labels (c ∷ s))) b t

-- The inner loop of `Match`.
unfoldable pub descend : List Bytes → TrieNode → Option TrieNode
unfolding get_child
descend [] n = some n
descend (p ∷ ps) (node cs e k) = elim (get_child p cs) [ none ↦ none | some n ↦ descend ps n ]

-- `(matched, isBlock, ok)`.
abbrev pub Outcome : Type 0
Outcome = Bool × Bool × Bool

abbrev pub or_next : Option TrieNode → Outcome → Outcome
or_next none next = next
or_next (some (node cs true k)) next = (true, k, true)
or_next (some (node cs false k)) next = next

-- The outer loop of `Match`, over the labels from the i-th on.
unfoldable pub match_from : List Bytes → TrieNode → Outcome
unfolding descend
match_from [] t = (false, false, false)
match_from (p ∷ ps) t = let next = match_from ps t in or_next (descend (reverse (p ∷ ps)) t) next

-- `Match`.
unfoldable pub match : Bytes → TrieNode → Outcome
unfolding match_from labels
match [] t = (false, false, false)
match (c ∷ s) t = match_from (labels (c ∷ s)) t

-- `walkNode`, with the calls of its function argument collected in order.
unfoldable mutual
  pub walk_node : TrieNode → List Bytes → List (Bytes × Bool)
  walk_node (node cs e k) parts =
      (if e then (join dot (reverse parts), k) ∷ [] else []) ++ walk_children cs parts

  pub walk_children : Children → List Bytes → List (Bytes × Bool)
  walk_children no_child parts = []
  walk_children (child p n cs) parts = walk_node n (parts ++ p ∷ []) ++ walk_children cs parts

-- `Walk`.
unfoldable pub walk : TrieNode → List (Bytes × Bool)
unfolding walk_node walk_children join
walk t = walk_node t []

-- `Add` for each pair of a list, in order.
unfoldable pub add_all : List (Bytes × Bool) → TrieNode → TrieNode
unfolding add
add_all [] t = t
add_all ((d, b) ∷ rules) t = add_all rules (add d b t)
