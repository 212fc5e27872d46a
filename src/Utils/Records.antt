-- ===== src/Utils/Records.antt =====
-- utils/dns.go: `RemoveA` and `GetMinTTL`.
use ts_dns.Common.{ℕ, Bool, true, false, not, ◌||◌, Option, none, some, List, [], ◌∷◌}
use ts_dns.Common.{if◌then◌else◌, ltb, ◌==◌}
use ts_dns.Dns.{Rr, a, aaaa, cname, opt, other, header, ttl_of, type_opt, Msg}
use ts_dns.Utils.Loops.{delete_where}

abbrev pub is_a : Rr → Bool
is_a (a h ip) = true
is_a (aaaa h ip) = false
is_a (cname h t) = false
is_a (opt h os) = false
is_a (other h raw) = false

-- `RemoveA`.
unfoldable pub remove_a : Option Msg → Option Msg
remove_a none = none
remove_a (some m) = some (record m { answer = delete_where is_a m.answer })

-- The two variables that the closure `updateMin` of `GetMinTTL` updates.
pub record MinState : Type 0 where
  pub min_ttl : ℕ
  pub first : Bool

unfoldable pub update_min : MinState → ℕ → MinState
update_min s ttl =
    if s.first || ltb ttl s.min_ttl then record { min_ttl = ttl; first = false } else s

-- The loops over the answers and the authorities, and the one over the extras.
unfoldable pub min_loop : MinState → List Rr → MinState
unfolding update_min
min_loop s [] = s
min_loop s (rr ∷ rest) = min_loop (update_min s (ttl_of rr)) rest

unfoldable pub min_loop_extra : MinState → List Rr → MinState
unfolding update_min
min_loop_extra s [] = s
min_loop_extra s (rr ∷ rest) =
    min_loop_extra (if not ((header rr).rrtype == type_opt) then update_min s (ttl_of rr) else s)
      rest

unfoldable pub get_min_ttl : Option Msg → ℕ
unfolding min_loop min_loop_extra
get_min_ttl none = 0
get_min_ttl (some m) =
    let start : MinState = record { min_ttl = 0; first = true } in
    (min_loop_extra (min_loop (min_loop start m.answer) m.ns) m.extra).min_ttl
