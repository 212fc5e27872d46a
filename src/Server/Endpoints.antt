-- ===== src/Server/Endpoints.antt =====
-- cmd/main.go: the listen address of `main`, `expandHome`, and the choice that `run` makes. Files and the user are
-- parameters.
use ts_dns.Common.{
  ℕ, Bool, true, false, not, ◌&&◌, Option, none, some, [], ◌∷◌, if◌then◌else◌, ◌==◌, Bytes, codes,
  eq_bytes, to_lower,
}
use ts_dns.Outbound.Hijack.{is_nil}

-- The network of a listen address; none of it is both.
pub data Network : Type 0 where
  both udp tcp : Network

abbrev pub wants_udp : Network → Bool
wants_udp both = true
wants_udp udp = true
wants_udp tcp = false

abbrev pub wants_tcp : Network → Bool
wants_tcp both = true
wants_tcp udp = false
wants_tcp tcp = true

-- `strings.SplitN` by a byte into two parts, if there are two.
unfoldable pub split_first : ℕ → Bytes → Option (Bytes × Bytes)
split_first c [] = none
split_first c (x ∷ s) =
    let rest = split_first c s in
    if x == c then some ([], s) else elim rest [ none ↦ none | some (l, r) ↦ some (x ∷ l, r) ]

abbrev pub network_of : Bytes → Option Network
unfolding eq_bytes
network_of s =
    if is_nil s
    then some both
    else if eq_bytes s (codes "udp")
    then some udp
    else if eq_bytes s (codes "tcp")
    then some tcp
    else none

-- The listen address of `main`; `none` is an unknown network.
unfoldable pub parse_listen : Bytes → Option (Bytes × Network)
unfolding split_first network_of to_lower
parse_listen listen = elim (split_first b'/' listen) [
  | none ↦ some (listen, both)
  | some (addr, network) ↦ elim (network_of (to_lower network)) [
    | none ↦ none
    | some n ↦ some (addr, n)
  ]
]

-- `expandHome`, with the user's home directory, if it is known, and `filepath.Join`.
unfoldable pub expand_home : Option Bytes → (Bytes → Bytes → Bytes) → Bytes → Bytes
expand_home home join [] = []
expand_home home join (c ∷ path) =
    if c == b'~' then elim home [ none ↦ c ∷ path | some dir ↦ join dir path ] else c ∷ path

-- Whether `run` serves DNS over HTTPS.
unfoldable pub enables_doh : (Bytes → Bytes) → (Bytes → Bool) → Bytes → Bytes → Bool
enables_doh expand exists cert_file key_file =
    not (is_nil cert_file)
    && not (is_nil key_file)
    && (exists (expand cert_file) && exists (expand key_file))
