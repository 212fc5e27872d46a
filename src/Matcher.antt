-- ===== src/Matcher.antt =====
-- matcher/: the domain trie (trie.go) and the rule matcher built on it (adblock.go).
pub mod Trie
pub mod AbPlus
