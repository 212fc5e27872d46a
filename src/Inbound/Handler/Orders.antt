-- ===== src/Inbound/Handler/Orders.antt =====
-- The order in which the groups are asked.
use ts_dns.Common.{◌≡◌, refl, true, false, not, [], ◌∷◌, arith, Bytes, ◌||◌}
use ts_dns.Hosts.{less_bytes}
use ts_dns.Inbound.Handler.{Group, group_less}

less_bytes_trans :
    (s t u : Bytes) → less_bytes s t ≡ true → less_bytes t u ≡ true → less_bytes s u ≡ true
unfolding less_bytes
less_bytes_trans [] [] u h k = cc
less_bytes_trans s (y ∷ t) [] h k = cc
less_bytes_trans [] (y ∷ t) (z ∷ u) h k = refl
less_bytes_trans (x ∷ s) [] u h k = cc
less_bytes_trans (x ∷ s) (y ∷ t) (z ∷ u) h k = ground (arith, less_bytes_trans s t u)

less_bytes-asym : (s t : Bytes) → less_bytes s t ≡ true → less_bytes t s ≡ false
unfolding less_bytes
less_bytes-asym [] [] h = refl
less_bytes-asym [] (y ∷ t) h = refl
less_bytes-asym (x ∷ s) [] h = cc
less_bytes-asym (x ∷ s) (y ∷ t) h = ground (arith, less_bytes-asym s t)

module _ {S : Type 0} where
  -- The test that sorts the groups is transitive.
  pub group_less_trans :
      (g1 g2 g3 : Group S)
      → group_less g1 g2 ≡ true
      → group_less g2 g3 ≡ true
      → group_less g1 g3 ≡ true
  unfolding group_less
  group_less_trans g1 g2 g3 h k = ground (arith, less_bytes_trans g1.name g2.name g3.name)

  -- Of two groups at most one is before the other, and no fallback group is before one that is not a
  -- fallback group.
  pub group_less-asym :
      (g1 g2 : Group S)
      → group_less g1 g2 ≡ true
      → (group_less g2 g1 ≡ false) × ((not g1.is_fallback || g2.is_fallback) ≡ true)
  unfolding group_less
  group_less-asym g1 g2 h = ground (arith, less_bytes-asym g1.name g2.name)
