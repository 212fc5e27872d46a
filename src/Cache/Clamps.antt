-- ===== src/Cache/Clamps.antt =====
-- The TTLs that `Set` stores.
use ts_dns.Common.{ℕ, ◌%◌, ◌^◌, ◌≤◌, ◌<◌, ◌≡◌, refl, ap₂, ◌∙◌, ◌⊎◌, inl, List, [], ◌∷◌, map, arith}
use ts_dns.Common.{if◌then◌else◌, ltb, All, In, ap, max, min}
use ts_dns.Dns.{Rr, ttl_of, with_ttl}
use ts_dns.Cache.{clamp, clamp_loop}

ttl_of-with_ttl : (rr : Rr) (t : ℕ) → ttl_of (with_ttl rr t) ≡ t
ttl_of-with_ttl rr t = ground arith

module _ (lo hi : ℕ) (order : lo ≤ hi) (bound : hi < 2 ^ 32) where
  clamp_bounds : (t : ℕ) → (lo ≤ clamp lo hi t) × (clamp lo hi t ≤ hi)
  unfolding clamp
  clamp_bounds t = ground arith

-- What the loop of `Set` makes of the answers `xs`: the records `rs`, and the least of `expire` and
-- of their TTLs.
pub record IsClamped (lo hi expire : ℕ) (xs rs : List Rr) (least : ℕ) : Type 0 where
  pub ttls : map ttl_of rs ≡ map (λ rr. clamp lo hi (ttl_of rr)) xs
  pub below_start : least ≤ expire
  pub below_all : All (λ rr. least ≤ ttl_of rr) rs
  pub attained : (least ≡ expire) ⊎ In least (map ttl_of rs)
  pub inside : All (λ rr. (lo ≤ ttl_of rr) × (ttl_of rr ≤ hi)) rs

IsClamped-cons :
    (lo hi expire : ℕ) (x y : Rr) (xs rs : List Rr) (least : ℕ)
    → ttl_of y ≡ clamp lo hi (ttl_of x)
    → lo ≤ ttl_of y
    → ttl_of y ≤ hi
    → IsClamped lo hi (if ltb (ttl_of y) expire then ttl_of y else expire) xs rs least
    → IsClamped lo hi expire (x ∷ xs) (y ∷ rs) least
IsClamped-cons lo hi expire x y xs rs least e p q c = record {
  ttls = ap₂ ◌∷◌ e c.ttls;
  below_start = ground (arith, c.below_start);
  below_all = (ground (arith, c.below_start), c.below_all);
  attained = ground (arith, c.attained);
  inside = ((p, q), c.inside);
}

module _ (lo hi : ℕ) (order : lo ≤ hi) (bound : hi < 2 ^ 32) where
  -- The loop of `Set`, under limits that fit 32 bits, stores for each answer its TTL moved into the
  -- limits, so that every stored TTL lies within them; the time to live that it computes is the least
  -- of the maximum and the stored TTLs.
  pub clamp_loop-IsClamped :
      (expire : ℕ) (xs : List Rr)
      → IsClamped lo hi expire xs (clamp_loop lo hi expire xs).0 (clamp_loop lo hi expire xs).1
  unfolding clamp_loop
  clamp_loop-IsClamped expire [] = record {
    ttls = refl;
    below_start = omega arith;
    below_all = tt;
    attained = inl refl;
    inside = tt;
  }
  clamp_loop-IsClamped expire (x ∷ xs) =
      let t = clamp lo hi (ttl_of x) in
      let y = with_ttl x (t % 2 ^ 32) in
      let limits = clamp_bounds lo hi order bound (ttl_of x) in
      let e : ttl_of y ≡ t = ttl_of-with_ttl x (t % 2 ^ 32) ∙ (omega (arith, limits)) in
      IsClamped-cons lo hi expire x y xs _ _ e (omega (arith, limits, e)) (omega (arith, limits, e))
        (rw e (clamp_loop-IsClamped (if ltb t expire then t else expire) xs))

-- The records with their TTLs moved into the limits.
abbrev pub limited : ℕ → ℕ → List Rr → List Rr
limited lo hi = map (λ rr. with_ttl rr (max lo (min hi (ttl_of rr))))

module _ (lo hi : ℕ) (order : lo ≤ hi) (bound : hi < 2 ^ 32) where
  clamp-max : (t : ℕ) → clamp lo hi t ≡ max lo (min hi t)
  unfolding clamp
  clamp-max t = ground arith

  clamp-word : (t : ℕ) → clamp lo hi t % 2 ^ 32 ≡ max lo (min hi t)
  clamp-word t = omega (arith, clamp-max t, clamp_bounds lo hi order bound t)

  -- The loop of `Set` moves every TTL into the limits.
  pub clamp_loop-limited :
      (expire : ℕ) (xs : List Rr) → (clamp_loop lo hi expire xs).0 ≡ limited lo hi xs
  unfolding clamp_loop
  clamp_loop-limited expire [] = refl
  clamp_loop-limited expire (x ∷ xs) =
      let t = clamp lo hi (ttl_of x) in
      ap₂ ◌∷◌ (ap (with_ttl x) (clamp-word (ttl_of x)))
        (clamp_loop-limited (if ltb t expire then t else expire) xs)

  -- The time to live that it computes is above what every moved TTL is above.
  pub least_above :
      (n expire : ℕ) (xs : List Rr)
      → n < expire
      → All (λ rr. n < max lo (min hi (ttl_of rr))) xs
      → n < (clamp_loop lo hi expire xs).1
  unfolding clamp_loop
  least_above n expire [] lt h = lt
  least_above n expire (x ∷ xs) lt h =
      let t = clamp lo hi (ttl_of x) in
      let above : n < t = omega (arith, h.0, clamp-max (ttl_of x)) in
      least_above n (if ltb t expire then t else expire) xs (ground arith) h.1

  pub below_max :
      (n : ℕ) (x : Rr) (xs : List Rr)
      → All (λ rr. n < max lo (min hi (ttl_of rr))) (x ∷ xs)
      → n < hi
  below_max n x xs h = ground (arith, h.0)
