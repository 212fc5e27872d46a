-- ===== src/Regexp.antt =====
-- Go's `regexp` package, as a record of the operations that the source calls with the documented
-- behaviour that is relied on: the text of an expression compiles again to one that matches alike;
-- a group `(?:e)` of an expression `e` matches what `e` does; and an alternative whose left side is such
-- a group, where `e` compiles alone and as a group, so that its parentheses and quotes are closed and
-- its flags end with the group, compiles only if its right side does, and matches what either does.
use ts_dns.Common.{◌≡◌, Bool, ◌||◌, Option, some, ◌∷◌, ◌++◌, Bytes, codes}

abbrev pub group : Bytes → Bytes
group s = codes "(?:" ++ s ++ codes ")"

pub record RegexpLib : Type 1 where
  pub Regexp : Type 0
  pub compile : Bytes → Option Regexp
  pub match_string : Regexp → Bytes → Bool
  pub source : Regexp → Bytes
  pub recompile :
      (r : Regexp)
      → (r' : Regexp) × (compile (source r) ≡ some r')
        × ((d : Bytes) → match_string r' d ≡ match_string r d)
  pub match-group :
      (s : Bytes) (r g : Regexp) (d : Bytes)
      → compile s ≡ some r
      → compile (group s) ≡ some g
      → match_string g d ≡ match_string r d
  pub match-alternative :
      (s rest : Bytes) (r₀ g c : Regexp)
      → compile s ≡ some r₀
      → compile (group s) ≡ some g
      → compile (group s ++ b'|' ∷ rest) ≡ some c
      → (r : Regexp) × (compile rest ≡ some r)
        × ((d : Bytes) → match_string c d ≡ (match_string g d || match_string r d))
