-- ===== src/Server/Listens.antt =====
-- cmd/main.go: the listen address, `addr/network`.
use ts_dns.Common.{
  ℕ, ◌≡◌, refl, false, Option, none, some, [], ◌∷◌, ◌++◌, arith, Bytes, to_lower, contains_byte,
}
use ts_dns.Server.{Network, both, split_first, network_of, parse_listen}

split_first-append :
    (c : ℕ) (s t : Bytes) → contains_byte c s ≡ false → split_first c (s ++ c ∷ t) ≡ some (s, t)
unfolding split_first
split_first-append c [] t h = ground arith
split_first-append c (x ∷ s) t h = ground (arith, split_first-append c s t)

split_first-none : (c : ℕ) (s : Bytes) → contains_byte c s ≡ false → split_first c s ≡ none
unfolding split_first
split_first-none c [] h = refl
split_first-none c (x ∷ s) h = ground (arith, split_first-none c s)

abbrev pub with_addr : Bytes → Option Network → Option (Bytes × Network)
with_addr addr none = none
with_addr addr (some n) = some (addr, n)

-- An address without a slash listens on both networks; behind a slash stands `udp` or `tcp` in any case, or
-- nothing for both, and anything else is refused.
pub parse_listen-network :
    (addr network : Bytes)
    → contains_byte b'/' addr ≡ false
    → (parse_listen addr ≡ some (addr, both))
      × (parse_listen (addr ++ b'/' ∷ network) ≡ with_addr addr (network_of (to_lower network)))
unfolding parse_listen
parse_listen-network addr network h =
    ground (arith, split_first-none b'/' addr h, split_first-append b'/' addr network h)
