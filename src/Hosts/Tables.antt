-- ===== src/Hosts/Tables.antt =====
-- What the maps of `NewDNSHosts` hold.
use ts_dns.Common.{
  ◌≡◌, refl, sym, ap, ◌∙◌, Bool, true, false, not, ◌&&◌, ◌||◌, List, [], ◌∷◌, ◌++◌, arith,
}
use ts_dns.Common.{
  if◌then◌else◌, any, Bytes, eq_bytes, eq_bytes_iff, eq_bytes_self, lookup, lookup-insert,
  Bool-cases, inl, inr, ◌↔◌,
}
use mathlib.Core.Path.{subst}
use ts_dns.Hosts.{IpInfo, same_ip, contains_ip, or_empty, add_domain_ip}

same_ip_iff : (x y : IpInfo) → (same_ip x y ≡ true) ↔ ((x.val ≡ y.val) × (x.ip_type ≡ y.ip_type))
same_ip_iff x y = ground (arith, eq_bytes_iff y.val x.val)

same_ip_self : (x : IpInfo) → same_ip x x ≡ true
same_ip_self x = ground (arith, eq_bytes_self x.val)

any-snoc :
    (p : IpInfo → Bool) (xs : List IpInfo) (x : IpInfo) → any p (xs ++ x ∷ []) ≡ (any p xs || p x)
any-snoc p [] x = ground arith
any-snoc p (y ∷ xs) x = ground (arith, any-snoc p xs x)

-- No address stands twice.
abbrev pub IsDistinct : List IpInfo → Type 0
IsDistinct [] = Unit
IsDistinct (x ∷ xs) = (any (same_ip x) xs ≡ false) × IsDistinct xs

IsDistinct-snoc :
    (xs : List IpInfo) (x : IpInfo)
    → any (same_ip x) xs ≡ false
    → IsDistinct xs
    → IsDistinct (xs ++ x ∷ [])
IsDistinct-snoc [] x new h = (refl, tt)
IsDistinct-snoc (y ∷ xs) x new h = (
  any-snoc (same_ip y) xs x ∙ ground (arith, same_ip_iff x y, same_ip_iff y x),
  IsDistinct-snoc xs x (ground arith) h.1,
)

-- The addresses that a map has for a host.
abbrev pub ips_for : Bytes → List (Bytes × List IpInfo) → List IpInfo
ips_for host m = or_empty (lookup host m)

ips_for-add_domain_ip :
    (domain host : Bytes) (ip : IpInfo) (m : List (Bytes × List IpInfo))
    → ips_for host (add_domain_ip domain ip m) ≡ (
        if eq_bytes domain host && not (contains_ip (ips_for host m) ip)
        then ips_for host m ++ ip ∷ []
        else ips_for host m)
unfolding add_domain_ip
ips_for-add_domain_ip domain host ip m = elim (Bool-cases (contains_ip (ips_for domain m) ip)) [
  | inl there ↦ ground (arith, eq_bytes_iff domain host)
  | inr new ↦
      ground
        (arith, eq_bytes_iff domain host, lookup-insert domain host (ips_for domain m ++ ip ∷ []) m)
]

contains_ip-snoc : (xs : List IpInfo) (x : IpInfo) → contains_ip (xs ++ x ∷ []) x ≡ true
unfolding contains_ip
contains_ip-snoc xs x = any-snoc (same_ip x) xs x ∙ ground (arith, same_ip_self x)

-- Adding an address to a domain appends it to the domain's addresses unless it is among them, and
-- leaves every other domain's addresses alone; afterwards the domain has the address, and a host
-- whose addresses were distinct has distinct addresses.
pub add_domain_ip_lem :
    (domain host : Bytes) (ip : IpInfo) (m : List (Bytes × List IpInfo))
    → IsDistinct (ips_for host m)
    → (ips_for host (add_domain_ip domain ip m) ≡ (
        if eq_bytes domain host && not (contains_ip (ips_for host m) ip)
        then ips_for host m ++ ip ∷ []
        else ips_for host m))
      × (contains_ip (ips_for domain (add_domain_ip domain ip m)) ip ≡ true)
      × IsDistinct (ips_for host (add_domain_ip domain ip m))
unfolding contains_ip
add_domain_ip_lem domain host ip m h = (
  ips_for-add_domain_ip domain host ip m,
  ap (λ xs. contains_ip xs ip) (ips_for-add_domain_ip domain domain ip m)
      ∙ ground (arith, eq_bytes_self domain, contains_ip-snoc (ips_for domain m) ip),
  subst IsDistinct (sym (ips_for-add_domain_ip domain host ip m))
      (distinct_if (eq_bytes domain host) (contains_ip (ips_for host m) ip) refl),
)
  where
    distinct_if :
        (b c : Bool)
        → contains_ip (ips_for host m) ip ≡ c
        → IsDistinct (if b && not c then ips_for host m ++ ip ∷ [] else ips_for host m)
    distinct_if true true e = h
    distinct_if true false e = IsDistinct-snoc (ips_for host m) ip e h
    distinct_if false c e = h
