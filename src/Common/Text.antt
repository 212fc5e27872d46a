-- ===== src/Common/Text.antt =====
-- Byte strings, and the functions of Go's `strings` package that the source calls, on ASCII text:
-- `ToLower`, `EqualFold`, `Split`, `Join`, `Trim`, `TrimSuffix`, `HasPrefix`, `HasSuffix`.
use Prim.Native.Nat.{ℕ, ◌+◌}
use Prim.Native.Char.{code}
use Prim.Native.String.{String}
use mathlib.Core.Path.{◌≡◌, refl}
use mathlib.Core.Logic.{◌↔◌}
use mathlib.Core.Bool.{Bool, true, false, ◌&&◌, ◌||◌}
use mathlib.Core.List.{List, [], ◌∷◌, ◌++◌, map}
use native.Mathlib.Omega.{arith}
use ts_dns.Common.Tests.{leb, ◌==◌, if◌then◌else◌}
use ts_dns.Common.Lists.{length, drop, any}
use mathlib.Core.Option.{Option, none, some}

abbrev pub Bytes : Type 0
Bytes = List ℕ

-- The bytes of an ASCII literal.
abbrev pub codes : String → Bytes
codes String.[] = []
codes (String.◌∷◌ c s) = code c ∷ codes s

abbrev pub dot : ℕ
dot = b'.'

-- Equality of two byte strings.
unfoldable pub eq_bytes : Bytes → Bytes → Bool
eq_bytes [] [] = true
eq_bytes [] (y ∷ ys) = false
eq_bytes (x ∷ xs) [] = false
eq_bytes (x ∷ xs) (y ∷ ys) = x == y && eq_bytes xs ys

pub eq_bytes_iff : (s t : Bytes) → (eq_bytes s t ≡ true) ↔ (s ≡ t)
unfolding eq_bytes
eq_bytes_iff [] [] = ground arith
eq_bytes_iff [] (y ∷ ys) = ground arith
eq_bytes_iff (x ∷ xs) [] = ground arith
eq_bytes_iff (x ∷ xs) (y ∷ ys) = ground (arith, eq_bytes_iff xs ys)

pub eq_bytes_self : (s : Bytes) → eq_bytes s s ≡ true
eq_bytes_self s = (eq_bytes_iff s s).1 refl

pub eq_bytes_comm : (s t : Bytes) → eq_bytes s t ≡ eq_bytes t s
eq_bytes_comm s t = ground (arith, eq_bytes_iff s t, eq_bytes_iff t s)

-- `strings.ToLower` of one ASCII byte.
unfoldable pub lower : ℕ → ℕ
lower c = if leb b'A' c && leb c b'Z' then c + 32 else c

unfoldable pub to_lower : Bytes → Bytes
unfolding lower
to_lower s = map lower s

pub lower_idem : (c : ℕ) → lower (lower c) ≡ lower c
unfolding lower
lower_idem c = ground arith

pub to_lower_idem : (s : Bytes) → to_lower (to_lower s) ≡ to_lower s
unfolding to_lower
to_lower_idem [] = refl
to_lower_idem (c ∷ s) = ground (arith, to_lower_idem s)

-- `strings.EqualFold`.
unfoldable pub equal_fold : Bytes → Bytes → Bool
unfolding eq_bytes to_lower
equal_fold s t = eq_bytes (to_lower s) (to_lower t)

unfoldable pub has_prefix : Bytes → Bytes → Bool
has_prefix s [] = true
has_prefix [] (y ∷ ys) = false
has_prefix (x ∷ xs) (y ∷ ys) = x == y && has_prefix xs ys

-- `strings.Split` at a one-byte separator.
abbrev pub cons_first : ℕ → List Bytes → List Bytes
cons_first c [] = (c ∷ []) ∷ []
cons_first c (p ∷ ps) = (c ∷ p) ∷ ps

unfoldable pub split : ℕ → Bytes → List Bytes
split sep [] = [] ∷ []
split sep (c ∷ s) = let rest = split sep s in if c == sep then [] ∷ rest else cons_first c rest

unfoldable pub join : ℕ → List Bytes → Bytes
join sep [] = []
join sep (p ∷ []) = p
join sep (p ∷ q ∷ ps) = p ++ sep ∷ join sep (q ∷ ps)

-- `strings.Trim` of one byte at both ends.
unfoldable pub trim_left : ℕ → Bytes → Bytes
trim_left c [] = []
trim_left c (x ∷ s) = let rest = trim_left c s in if x == c then rest else x ∷ s

abbrev pub cons_unless : Bool → ℕ → Bytes → Bytes
cons_unless drop_it x (y ∷ s) = x ∷ y ∷ s
cons_unless true x [] = []
cons_unless false x [] = x ∷ []

unfoldable pub trim_right : ℕ → Bytes → Bytes
trim_right c [] = []
trim_right c (x ∷ s) = cons_unless (x == c) x (trim_right c s)

unfoldable pub trim : ℕ → Bytes → Bytes
unfolding trim_left trim_right
trim c s = trim_left c (trim_right c s)

-- `strings.HasSuffix(s, string(c))`.
unfoldable pub ends_with : ℕ → Bytes → Bool
ends_with c [] = false
ends_with c (x ∷ []) = x == c
ends_with c (x ∷ y ∷ s) = ends_with c (y ∷ s)

-- `s[:len(s)-1]`.
unfoldable pub drop_last : Bytes → Bytes
drop_last [] = []
drop_last (x ∷ []) = []
drop_last (x ∷ y ∷ s) = x ∷ drop_last (y ∷ s)

-- `strings.TrimSuffix(s, string(c))`.
unfoldable pub trim_suffix : ℕ → Bytes → Bytes
unfolding ends_with drop_last
trim_suffix c s = if ends_with c s then drop_last s else s

-- `unicode.IsSpace` of an ASCII byte, and `strings.TrimSpace`.
unfoldable pub is_space : ℕ → Bool
is_space c = leb 9 c && leb c 13 || c == 32

unfoldable pub trim_space_left : Bytes → Bytes
unfolding is_space
trim_space_left [] = []
trim_space_left (c ∷ s) = let rest = trim_space_left s in if is_space c then rest else c ∷ s

unfoldable pub trim_space_right : Bytes → Bytes
unfolding is_space
trim_space_right [] = []
trim_space_right (c ∷ s) = cons_unless (is_space c) c (trim_space_right s)

unfoldable pub trim_space : Bytes → Bytes
unfolding trim_space_left trim_space_right
trim_space s = trim_space_left (trim_space_right s)

abbrev pub contains_byte : ℕ → Bytes → Bool
contains_byte c = any (λ x. x == c)

-- `if i := strings.Index(s, pat); i != -1 { s = s[i+len(pat):] }`, for a pattern that is not empty.
unfoldable pub find_after : Bytes → Bytes → Option Bytes
unfolding has_prefix
find_after pat [] = none
find_after pat (c ∷ s) =
    let later = find_after pat s in
    if has_prefix (c ∷ s) pat then some (drop (length pat) (c ∷ s)) else later

unfoldable pub cut_after : Bytes → Bytes → Bytes
unfolding find_after
cut_after pat s = elim (find_after pat s) [ none ↦ s | some rest ↦ rest ]

-- `if i := strings.Index(s, string(c)); i != -1 { s = s[:i] }`.
unfoldable pub cut_before : ℕ → Bytes → Bytes
cut_before c [] = []
cut_before c (x ∷ s) = let rest = cut_before c s in if x == c then [] else x ∷ rest

-- `s[strings.LastIndex(s, string(c))+1:]`, if `c` occurs.
unfoldable pub after_last : ℕ → Bytes → Option Bytes
after_last c [] = none
after_last c (x ∷ s) = elim (after_last c s) [
  | some r ↦ some r
  | none ↦ if x == c then some s else none
]

-- `strings.Replace(s, string(c), by, -1)`.
unfoldable pub replace_byte : ℕ → Bytes → Bytes → Bytes
replace_byte c by [] = []
replace_byte c by (x ∷ s) = (if x == c then by else x ∷ []) ++ replace_byte c by s

-- `strings.Replace(s, "%2F", "/", -1)`.
unfoldable pub replace_percent_2f : Bytes → Bytes
replace_percent_2f (x ∷ y ∷ z ∷ s) =
    let found = b'/' ∷ replace_percent_2f s in
    let past = x ∷ replace_percent_2f (y ∷ z ∷ s) in
    if x == b'%' && (y == b'2' && z == b'F') then found else past
replace_percent_2f s = s
