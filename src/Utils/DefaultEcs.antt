-- ===== src/Utils/DefaultEcs.antt =====
-- What `SetDefaultECS` and `RemoveEDNSCookie` do to the subnet that `FormatECS` reads.
use ts_dns.Common.{ℕ, zero, suc, ◌+◌, ◌≤◌, ◌≡◌, refl, ap, inl, inr, false, not}
use ts_dns.Common.{Option, none, some, List, [], ◌∷◌, ◌++◌, map, arith, if◌then◌else◌, is_some}
use ts_dns.Common.{All, keep, Bytes, contains_byte, Option-cases, Bool-cases}
use mathlib.Core.Option
use ts_dns.Dns.{Subnet, Edns0, subnet, cookie, other_option, Rr, opt, a, aaaa, cname, other}
use ts_dns.Dns.{Msg, DnsLib, NetLib}
use ts_dns.Utils.Loops.{delete_where-keep}
use ts_dns.Utils.Ecs.{
  parse_prefix, parse_address, parse_ecs, first_subnet, find_ecs, format_subnet, format_ecs,
  has_ecs, first_opt, scan_extra, or_index, prepend_at, new_opt, add_ecs, set_default_ecs,
  is_cookie, remove_cookies, remove_edns_cookie,
}

-- The index of the first OPT record.
first_opt_index : List Rr → Option ℕ
first_opt_index [] = none
first_opt_index (opt h os ∷ rest) = some 0
first_opt_index (a h ip ∷ rest) = Option.map suc (first_opt_index rest)
first_opt_index (aaaa h ip ∷ rest) = Option.map suc (first_opt_index rest)
first_opt_index (cname h t ∷ rest) = Option.map suc (first_opt_index rest)
first_opt_index (other h raw ∷ rest) = Option.map suc (first_opt_index rest)

scan-has_ecs :
    (i : ℕ) (first : Option ℕ) (xs : List Rr) (e : Subnet)
    → find_ecs xs ≡ some e
    → scan_extra i first xs ≡ has_ecs
unfolding find_ecs scan_extra
scan-has_ecs i first [] e h = cc
scan-has_ecs i first (opt hd os ∷ rest) e h =
    ground (arith, scan-has_ecs (suc i) (or_index first i) rest e)
scan-has_ecs i first (a hd ip ∷ rest) e h = scan-has_ecs (suc i) first rest e h
scan-has_ecs i first (aaaa hd ip ∷ rest) e h = scan-has_ecs (suc i) first rest e h
scan-has_ecs i first (cname hd t ∷ rest) e h = scan-has_ecs (suc i) first rest e h
scan-has_ecs i first (other hd raw ∷ rest) e h = scan-has_ecs (suc i) first rest e h

scan_settled :
    (i j : ℕ) (xs : List Rr) → find_ecs xs ≡ none → scan_extra i (some j) xs ≡ first_opt (some j)
unfolding find_ecs scan_extra
scan_settled i j [] h = refl
scan_settled i j (opt hd os ∷ rest) h = ground (arith, scan_settled (suc i) j rest)
scan_settled i j (a hd ip ∷ rest) h = scan_settled (suc i) j rest h
scan_settled i j (aaaa hd ip ∷ rest) h = scan_settled (suc i) j rest h
scan_settled i j (cname hd t ∷ rest) h = scan_settled (suc i) j rest h
scan_settled i j (other hd raw ∷ rest) h = scan_settled (suc i) j rest h

abbrev shift : ℕ → Option ℕ → Option ℕ
shift i none = none
shift i (some k) = some (i + k)

shift-suc : (i : ℕ) (o : Option ℕ) → shift (suc i) o ≡ shift i (Option.map suc o)
shift-suc i none = refl
shift-suc i (some k) = ground arith

scan_open :
    (i : ℕ) (xs : List Rr)
    → find_ecs xs ≡ none
    → scan_extra i none xs ≡ first_opt (shift i (first_opt_index xs))
unfolding find_ecs scan_extra first_opt_index
scan_open i [] h = refl
scan_open i (opt hd os ∷ rest) h = ground (arith, scan_settled (suc i) i rest)
scan_open i (a hd ip ∷ rest) h = rw (← shift-suc) (scan_open (suc i) rest h)
scan_open i (aaaa hd ip ∷ rest) h = rw (← shift-suc) (scan_open (suc i) rest h)
scan_open i (cname hd t ∷ rest) h = rw (← shift-suc) (scan_open (suc i) rest h)
scan_open i (other hd raw ∷ rest) h = rw (← shift-suc) (scan_open (suc i) rest h)

shift-zero : (o : Option ℕ) → shift 0 o ≡ o
shift-zero none = refl
shift-zero (some k) = ground arith

-- Where the OPT record of the index receives the subnet, it is the one that is found.
find_ecs-prepend_at :
    (xs : List Rr) (k : ℕ) (e : Subnet)
    → find_ecs xs ≡ none
    → first_opt_index xs ≡ some k
    → find_ecs (prepend_at k (subnet e) xs) ≡ some e
unfolding find_ecs first_opt_index prepend_at
find_ecs-prepend_at [] k e h i = cc
find_ecs-prepend_at (opt hd os ∷ rest) zero e h i = refl
find_ecs-prepend_at (opt hd os ∷ rest) (suc k) e h i = ground arith
find_ecs-prepend_at (a hd ip ∷ rest) zero e h i = ground arith
find_ecs-prepend_at (a hd ip ∷ rest) (suc k) e h i = find_ecs-prepend_at rest k e h (ground arith)
find_ecs-prepend_at (aaaa hd ip ∷ rest) zero e h i = ground arith
find_ecs-prepend_at (aaaa hd ip ∷ rest) (suc k) e h i =
    find_ecs-prepend_at rest k e h (ground arith)
find_ecs-prepend_at (cname hd t ∷ rest) zero e h i = ground arith
find_ecs-prepend_at (cname hd t ∷ rest) (suc k) e h i =
    find_ecs-prepend_at rest k e h (ground arith)
find_ecs-prepend_at (other hd raw ∷ rest) zero e h i = ground arith
find_ecs-prepend_at (other hd raw ∷ rest) (suc k) e h i =
    find_ecs-prepend_at rest k e h (ground arith)

find_ecs-append : (xs ys : List Rr) → find_ecs xs ≡ none → find_ecs (xs ++ ys) ≡ find_ecs ys
unfolding find_ecs
find_ecs-append [] ys h = refl
find_ecs-append (opt hd os ∷ rest) ys h = ground (arith, find_ecs-append rest ys)
find_ecs-append (a hd ip ∷ rest) ys h = find_ecs-append rest ys h
find_ecs-append (aaaa hd ip ∷ rest) ys h = find_ecs-append rest ys h
find_ecs-append (cname hd t ∷ rest) ys h = find_ecs-append rest ys h
find_ecs-append (other hd raw ∷ rest) ys h = find_ecs-append rest ys h

abbrev or_default : Option Subnet → Subnet → Subnet
or_default (some e') e = e'
or_default none e = e

module _ (dns : DnsLib) where
  find_ecs-new_opt : (e : Subnet) → find_ecs (new_opt dns e ∷ []) ≡ some e
  unfolding find_ecs
  find_ecs-new_opt e = refl

  find_ecs-add_ecs-none :
      (xs : List Rr) (e : Subnet)
      → find_ecs xs ≡ none
      → find_ecs (add_ecs dns (scan_extra 0 none xs) e xs) ≡ some e
  find_ecs-add_ecs-none xs e h = rw (scan_open 0 xs h, shift-zero) (place (first_opt_index xs) refl)
    where
      place :
          (o : Option ℕ)
          → first_opt_index xs ≡ o
          → find_ecs (add_ecs dns (first_opt o) e xs) ≡ some e
      place none p = rw (find_ecs-append xs (new_opt dns e ∷ []) h) (find_ecs-new_opt e)
      place (some k) p = find_ecs-prepend_at xs k e h p

  add_ecs_found :
      (xs : List Rr) (e e' : Subnet)
      → find_ecs xs ≡ some e'
      → add_ecs dns (scan_extra 0 none xs) e xs ≡ xs
  add_ecs_found xs e e' h = rw (scan-has_ecs 0 none xs e' h)

  find_ecs-add_ecs :
      (xs : List Rr) (e : Subnet)
      → find_ecs (add_ecs dns (scan_extra 0 none xs) e xs) ≡ some (or_default (find_ecs xs) e)
  find_ecs-add_ecs xs e = elim (Option-cases (find_ecs xs)) [
    | inl miss ↦ rw miss (find_ecs-add_ecs-none xs e miss)
    | inr (e', hit) ↦ rw (add_ecs_found xs e e' hit, hit)
  ]

  -- After `SetDefaultECS` with a subnet, `FormatECS` prints the subnet that the message carried
  -- before, and the given one exactly if it carried none.
  pub format_ecs-set_default_ecs :
      (net : NetLib) (decimal : ℕ → Bytes) (m : Msg) (e : Subnet)
      → format_ecs net decimal (set_default_ecs dns (some m) (some e)) ≡ (
          if is_some (find_ecs m.extra)
          then format_ecs net decimal (some m)
          else format_subnet net decimal e)
  unfolding format_ecs set_default_ecs
  format_ecs-set_default_ecs net decimal m e =
      rw (find_ecs-add_ecs m.extra e, format_ecs) (split (find_ecs m.extra))
    where
      split :
          (o : Option Subnet)
          → format_subnet net decimal (or_default o e) ≡ (
              if is_some o
              then elim o [ none ↦ [] | some e' ↦ format_subnet net decimal e' ]
              else format_subnet net decimal e)
      split none = refl
      split (some e') = refl

  -- A message that has been given a default subnet is not changed by a second call, whatever
  -- subnet that call offers.
  pub set_default_ecs_idem :
      (m : Option Msg) (e e' : Subnet)
      → set_default_ecs dns (set_default_ecs dns m (some e)) (some e')
        ≡ set_default_ecs dns m (some e)
  unfolding set_default_ecs
  set_default_ecs_idem none e e' = refl
  set_default_ecs_idem (some m) e e' =
      ap (λ xs. some (record m { extra = xs }))
        (add_ecs_found (add_ecs dns (scan_extra 0 none m.extra) e m.extra) e'
          (or_default (find_ecs m.extra) e) (find_ecs-add_ecs m.extra e))

first_subnet-keep :
    (os : List Edns0) → first_subnet (keep (λ o. not (is_cookie o)) os) ≡ first_subnet os
unfolding first_subnet
first_subnet-keep [] = refl
first_subnet-keep (subnet e ∷ os) = refl
first_subnet-keep (cookie raw ∷ os) = first_subnet-keep os
first_subnet-keep (other_option n ∷ os) = first_subnet-keep os

keep-All : (os : List Edns0) → All (λ o. is_cookie o ≡ false) (keep (λ o. not (is_cookie o)) os)
keep-All [] = tt
keep-All (subnet e ∷ os) = (refl, keep-All os)
keep-All (cookie raw ∷ os) = keep-All os
keep-All (other_option n ∷ os) = (refl, keep-All os)

find_ecs-remove_cookies : (xs : List Rr) → find_ecs (map remove_cookies xs) ≡ find_ecs xs
unfolding find_ecs remove_cookies
find_ecs-remove_cookies [] = refl
find_ecs-remove_cookies (opt hd os ∷ rest) =
    rw (delete_where-keep is_cookie os)
      (rw (first_subnet-keep os, find_ecs) (ground (arith, find_ecs-remove_cookies rest)))
find_ecs-remove_cookies (a hd ip ∷ rest) = find_ecs-remove_cookies rest
find_ecs-remove_cookies (aaaa hd ip ∷ rest) = find_ecs-remove_cookies rest
find_ecs-remove_cookies (cname hd t ∷ rest) = find_ecs-remove_cookies rest
find_ecs-remove_cookies (other hd raw ∷ rest) = find_ecs-remove_cookies rest

-- No option of the record is a cookie.
abbrev pub NoCookie : Rr → Type 0
NoCookie (opt h os) = All (λ o. is_cookie o ≡ false) os
NoCookie rr = Unit

remove_cookies-NoCookie : (xs : List Rr) → All NoCookie (map remove_cookies xs)
unfolding remove_cookies
remove_cookies-NoCookie [] = tt
remove_cookies-NoCookie (opt hd os ∷ rest) =
    (rw (delete_where-keep is_cookie os) (keep-All os), remove_cookies-NoCookie rest)
remove_cookies-NoCookie (a hd ip ∷ rest) = (tt, remove_cookies-NoCookie rest)
remove_cookies-NoCookie (aaaa hd ip ∷ rest) = (tt, remove_cookies-NoCookie rest)
remove_cookies-NoCookie (cname hd t ∷ rest) = (tt, remove_cookies-NoCookie rest)
remove_cookies-NoCookie (other hd raw ∷ rest) = (tt, remove_cookies-NoCookie rest)

-- The result of `RemoveEDNSCookie` on a message carries no cookie in any OPT record, and the
-- subnet that `FormatECS` prints is the same as before.
pub remove_edns_cookie_lem :
    (net : NetLib) (decimal : ℕ → Bytes) (m : Msg)
    → (m' : Msg) × (remove_edns_cookie (some m) ≡ some m')
      × All NoCookie m'.extra
      × (format_ecs net decimal (some m') ≡ format_ecs net decimal (some m))
unfolding remove_edns_cookie format_ecs
remove_edns_cookie_lem net decimal m = (
  record m { extra = map remove_cookies m.extra },
  refl,
  remove_cookies-NoCookie m.extra,
  rw (find_ecs-remove_cookies m.extra, format_ecs),
)

abbrev HasBounds : NetLib → Subnet → Type 0
HasBounds net e = (e.source_netmask ≤ 128) × (e.family ≡ (if net.is_v4 e.address then 1 else 2))

parse_prefix_bounds :
    (net : NetLib) (s : Bytes) (e : Subnet) → parse_prefix net s ≡ some (some e) → HasBounds net e
unfolding parse_prefix
parse_prefix_bounds net s e h = elim (Option-cases (net.parse_cidr s)) [
  | inl miss ↦ ground arith
  | inr ((ip, bits), hit) ↦ ground (arith, net.parse_cidr_bits s ip bits hit)
]

parse_address_bounds :
    (net : NetLib) (s : Bytes) (e : Subnet) → parse_address net s ≡ some (some e) → HasBounds net e
unfolding parse_address
parse_address_bounds net s e h = ground arith

-- A subnet that `ParseECS` returns has a prefix of at most 128 bits, so that its 8-bit field holds
-- it whole, and the family that belongs to its address: 1 for IPv4 and 2 for any other.
pub parse_ecs_bounds :
    (net : NetLib) (s : Bytes) (e : Subnet)
    → parse_ecs net s ≡ some (some e)
    → (e.source_netmask ≤ 128) × (e.family ≡ (if net.is_v4 e.address then 1 else 2))
unfolding parse_ecs
parse_ecs_bounds net [] e h = cc
parse_ecs_bounds net (c ∷ s) e h = elim (Bool-cases (contains_byte b'/' (c ∷ s))) [
  | inl slash ↦ parse_prefix_bounds net (c ∷ s) e (rw slash at h)
  | inr plain ↦ parse_address_bounds net (c ∷ s) e (rw plain at h)
]
