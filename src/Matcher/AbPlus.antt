-- ===== src/Matcher/AbPlus.antt =====
-- matcher/adblock.go: matching a domain against AdBlock Plus rules, and reading the rules from text.
use ts_dns.Common.{ℕ, zero, suc, ◌-◌, Bool, true, false, not, ◌&&◌, ◌||◌, Option, none, some}
use ts_dns.Common.{List, [], ◌∷◌, ◌++◌, map, if◌then◌else◌, leb, ltb, ◌==◌, length, any, take, drop}
use ts_dns.Common.{
  Bytes, codes, dot, eq_bytes, to_lower, has_prefix, split, join, trim_suffix, ends_with,
}
use ts_dns.Common.{
  trim_space, cut_after, cut_before, after_last, replace_byte, replace_percent_2f, contains_byte,
}
use ts_dns.Regexp.{RegexpLib, group}
use ts_dns.Matcher.Trie.{TrieNode, new_trie_node, match as trie_match, add, walk, add_all}
mod Merges
mod Reads
mod Folds
mod Tests

-- `ABPlus`, over the type of compiled expressions.
pub record AbPlus (R : Type 0) : Type 0 where
  pub trie : TrieNode
  pub blocked_regs : List R
  pub unblocked_regs : List R
  pub combined_blocked_reg : Option R
  pub combined_unblocked_reg : Option R

-- The results `(matched, ok)` behind the trie.
abbrev pub after_trie : Bool × Bool × Bool → Bool → Bool → Bool × Bool
after_trie (matched, block, true) blocked unblocked = (block, true)
after_trie (matched, block, false) true unblocked = (true, true)
after_trie (matched, block, false) false true = (false, true)
after_trie (matched, block, false) false false = (false, false)

-- `domain` in lower case and without the root's final dot.
unfoldable pub normal : Bytes → Bytes
unfolding to_lower trim_suffix
normal d = trim_suffix dot (to_lower d)

abbrev pub google_start : Bytes
google_start = codes "/^https?:\\/\\/"

abbrev pub google_end : Bytes
google_end = codes "\\/.*/"

-- `extractDomain`.
unfoldable pub extract_domain : Bytes → Bytes
unfolding cut_after cut_before
extract_domain rule = cut_before b'^' (
    cut_before b'/' (cut_after (codes "://") (cut_after (codes "|") (cut_after (codes "||") rule))))

-- The expressions `^[a-zA-Z]{2,}$` and `^xn--[a-zA-Z0-9]{3,}$`.
abbrev pub is_letter : ℕ → Bool
is_letter c = leb b'a' c && leb c b'z' || leb b'A' c && leb c b'Z'

abbrev pub is_letter_or_digit : ℕ → Bool
is_letter_or_digit c = is_letter c || leb b'0' c && leb c b'9'

unfoldable pub is_tld : Bytes → Bool
unfolding has_prefix
is_tld s =
    leb 2 (length s) && not (any (λ c. not (is_letter c)) s)
    || has_prefix s (codes "xn--")
      && (leb 7 (length s) && not (any (λ c. not (is_letter_or_digit c)) (drop 4 s)))

-- `"^" + … + "$"` for a domain with wildcards.
unfoldable pub wildcard_pattern : Bytes → Bytes
unfolding replace_byte
wildcard_pattern d =
    b'^' ∷ replace_byte b'*' (codes ".*") (replace_byte b'.' (codes "\\.") d) ++ b'$' ∷ []

unfoldable pub is_exception : Bytes → Bool
unfolding eq_bytes
is_exception line = eq_bytes (take 2 line) (codes "@@")

module _ (re : RegexpLib) where
  open re use {Regexp, compile, match_string, source}

  -- `mergeRegs`.
  unfoldable pub merge_regs : List Regexp → Option Regexp
  merge_regs [] = none
  merge_regs (r ∷ rs) = compile (join b'|' (map (λ q. group (source q)) (r ∷ rs)))

  -- `Optimize`.
  unfoldable pub optimize : AbPlus Regexp → AbPlus Regexp
  unfolding merge_regs
  optimize m = record m {
    combined_blocked_reg = merge_regs m.blocked_regs;
    combined_unblocked_reg = merge_regs m.unblocked_regs;
  }

  -- One of the two blocks of `Match`: the combined expression, or else each expression in turn.
  unfoldable pub regs_match : Option Regexp → List Regexp → Bytes → Bool
  regs_match (some c) rs d = match_string c d
  regs_match none rs d = any (λ r. match_string r d) rs

  -- `Match`.
  unfoldable pub match : AbPlus Regexp → Bytes → Bool × Bool
  unfolding regs_match normal
  match m [] = (false, false)
  match m (c ∷ s) =
      let d = normal (c ∷ s) in
      after_trie (trie_match d m.trie) (regs_match m.combined_blocked_reg m.blocked_regs d)
        (regs_match m.combined_unblocked_reg m.unblocked_regs d)

  -- `Extend`; the option is the nil pointer.
  unfoldable pub extend : AbPlus Regexp → Option (AbPlus Regexp) → AbPlus Regexp
  unfolding optimize
  extend m none = m
  extend m (some target) = optimize (record m {
    trie = add_all (walk target.trie) m.trie;
    blocked_regs = m.blocked_regs ++ target.blocked_regs;
    unblocked_regs = m.unblocked_regs ++ target.unblocked_regs;
  })

  -- What one line of text does: `none` is a panic, of `MustCompile` or of a slice out of range.
  add_blocked : AbPlus Regexp → Bytes → Option (AbPlus Regexp)
  add_blocked m pattern = elim (compile pattern) [
    | none ↦ none
    | some r ↦ some (record m { blocked_regs = m.blocked_regs ++ r ∷ [] })
  ]

  add_unblocked : AbPlus Regexp → Bytes → Option (AbPlus Regexp)
  add_unblocked m pattern = elim (compile pattern) [
    | none ↦ none
    | some r ↦ some (record m { unblocked_regs = m.unblocked_regs ++ r ∷ [] })
  ]

  -- A line that begins with a slash: `line[13 : len(line)-5]` is out of range below 18 bytes.
  unfoldable pub slash_line : Bytes → AbPlus Regexp → Option (AbPlus Regexp)
  unfolding add_blocked eq_bytes
  slash_line line m =
      let n = length line in
      if ltb 13 n && eq_bytes (take 13 line) google_start && eq_bytes (drop (n - 5) line) google_end
      then (if ltb n 18 then none else add_blocked m (take (n - 5 - 13) (drop 13 line)))
      else some m

  -- The end of the loop body, on a domain without wildcards; `line[:2]` wants two bytes.
  unfoldable pub domain_line : Bytes → Bytes → AbPlus Regexp → Option (AbPlus Regexp)
  unfolding is_tld is_exception after_last
  domain_line line d m = elim (after_last dot d) [
    | none ↦ some m
    | some tld ↦
        if not (is_tld tld)
        then some m
        else if ltb (length line) 2
        then none
        else some (record m { trie = add (to_lower d) (not (is_exception line)) m.trie })
  ]

  unfoldable pub wildcard_line : Bytes → Bytes → AbPlus Regexp → Option (AbPlus Regexp)
  unfolding wildcard_pattern is_exception add_blocked add_unblocked
  wildcard_line line d m =
      if ltb 2 (length line) && is_exception line
      then add_unblocked m (wildcard_pattern d)
      else add_blocked m (wildcard_pattern d)

  unfoldable pub rule_line : Bytes → AbPlus Regexp → Option (AbPlus Regexp)
  unfolding extract_domain replace_percent_2f trim_suffix wildcard_line domain_line
  rule_line raw m =
      let line = replace_percent_2f raw in
      let d = trim_suffix dot (extract_domain line) in
      if contains_byte b'*' d then wildcard_line line d m else domain_line line d m

  -- The body of the loop of `NewABPByText`, on a trimmed line.
  unfoldable pub read_line : Bytes → AbPlus Regexp → Option (AbPlus Regexp)
  unfolding slash_line rule_line
  read_line [] m = some m
  read_line (c ∷ s) m =
      if c == b'!' || c == b'['
      then some m
      else if c == b'/'
      then slash_line (c ∷ s) m
      else rule_line (c ∷ s) m

  unfoldable pub read_lines : List Bytes → AbPlus Regexp → Option (AbPlus Regexp)
  unfolding read_line trim_space
  read_lines [] m = some m
  read_lines (line ∷ lines) m = elim (read_line (trim_space line) m) [
    | none ↦ none
    | some m' ↦ read_lines lines m'
  ]

  abbrev pub new_matcher : AbPlus Regexp
  new_matcher = record {
    trie = new_trie_node;
    blocked_regs = [];
    unblocked_regs = [];
    combined_blocked_reg = none;
    combined_unblocked_reg = none;
  }

  -- `NewABPByText`.
  unfoldable pub new_abp_by_text : Bytes → Option (AbPlus Regexp)
  unfolding read_lines optimize split
  new_abp_by_text text = elim (read_lines (split 10 text) new_matcher) [
    | none ↦ none
    | some m ↦ some (optimize m)
  ]

  -- `NewABPByFile`: the outer option is the error, the inner one a panic. `read_file` is `os.ReadFile`
  -- and `decode` the decoding of Go's standard base64.
  unfoldable pub new_abp_by_file :
      (Bytes → Option Bytes)
      → (Bytes → Option Bytes)
      → Bytes
      → Bool
      → Option (Option (AbPlus Regexp))
  unfolding new_abp_by_text
  new_abp_by_file read_file decode filename b64decode = elim (read_file filename) [
    | none ↦ none
    | some raw ↦ elim (if b64decode then decode raw else some raw) [
      | none ↦ none
      | some text ↦ some (new_abp_by_text text)
    ]
  ]
