-- ===== src/Cache/Shuffles.antt =====
-- cache/dns.go: the shuffle of `Get`.
use ts_dns.Common.{
  ℕ, zero, suc, ◌+◌, ◌-◌, ◌≡◌, refl, ap, ◌∙◌, inl, inr, Bool, true, false, Option, none, some,
  arith,
}
use ts_dns.Common.{
  List, [], ◌∷◌, if◌then◌else◌, ◌==◌, length, get_elem?, set, tally, Option-cases, Bool-cases,
}
use ts_dns.Dns.{Rr}
use ts_dns.Cache.{is_address, ip_indexes, swap, swap_at, swap_values, shuffle_loop, shuffle}

module _ {ℓ} {A : Type ℓ} where
  get_elem?-set :
      (xs : List A) (i k : ℕ) (x v : A)
      → get_elem? xs i ≡ some x
      → get_elem? (set xs i v) k ≡ (if i == k then some v else get_elem? xs k)
  get_elem?-set [] i k x v h = cc
  get_elem?-set (y ∷ xs) zero zero x v h = refl
  get_elem?-set (y ∷ xs) zero (suc k) x v h = ground arith
  get_elem?-set (y ∷ xs) (suc i) zero x v h = ground arith
  get_elem?-set (y ∷ xs) (suc i) (suc k) x v h = get_elem?-set xs i k x v h ∙ (ground arith)

  tally-set :
      (p : A → Bool) (xs : List A) (i : ℕ) (x v : A)
      → get_elem? xs i ≡ some x
      → tally p (set xs i v) + (if p x then 1 else 0) ≡ tally p xs + (if p v then 1 else 0)
  tally-set p [] i x v h = cc
  tally-set p (y ∷ xs) zero x v h = ground arith
  tally-set p (y ∷ xs) (suc i) x v h = omega (arith, tally-set p xs i x v h)

tally-swap : (p : Rr → Bool) (i j : ℕ) (xs : List Rr) → tally p (swap i j xs) ≡ tally p xs
unfolding swap
tally-swap p i j xs = elim (Option-cases (get_elem? xs i)) [
  | inl out ↦ rw (out, swap_values)
  | inr (x, ex) ↦ elim (Option-cases (get_elem? xs j)) [
    | inl out ↦ rw (ex, out, swap_values)
    | inr (y, ey) ↦
        rw (ex, ey, swap_values)
          (omega (
            arith,
            tally-set p xs i x y ex,
            tally-set p (set xs i y) j y x (get_elem?-set xs i j x y ex ∙ (ground arith)),
          ))
  ]
]

tally-swap_at :
    (p : Rr → Bool) (i j : Option ℕ) (xs : List Rr) → tally p (swap_at i j xs) ≡ tally p xs
tally-swap_at p none j xs = refl
tally-swap_at p (some i) none xs = refl
tally-swap_at p (some i) (some j) xs = tally-swap p i j xs

tally-shuffle_loop :
    (p : Rr → Bool) (n : ℕ) (draw : ℕ → ℕ) (idx : List ℕ) (xs : List Rr)
    → tally p (shuffle_loop n draw idx xs) ≡ tally p xs
unfolding shuffle_loop
tally-shuffle_loop p zero draw idx xs = refl
tally-shuffle_loop p (suc n) draw idx xs =
    let i = get_elem? idx (suc n) in
    let j = get_elem? idx (draw (suc n)) in
    tally-shuffle_loop p n draw idx (swap_at i j xs) ∙ tally-swap_at p i j xs

-- Every listed position holds an address record.
abbrev Holds : List ℕ → List Rr → Type 0
Holds idx xs =
    (n i : ℕ)
    → get_elem? idx n ≡ some i
    → (rr : Rr) × (get_elem? xs i ≡ some rr) × (is_address rr ≡ true)

swap_lem :
    (i j k : ℕ) (x y : Rr) (xs : List Rr)
    → get_elem? xs i ≡ some x
    → get_elem? xs j ≡ some y
    → get_elem? (swap i j xs) k
      ≡ (if j == k then some x else if i == k then some y else get_elem? xs k)
unfolding swap
swap_lem i j k x y xs ex ey =
    rw (ex, ey, swap_values)
      (get_elem?-set (set xs i y) j k y x (get_elem?-set xs i j x y ex ∙ (ground arith))
        ∙ ap (λ o. if j == k then some x else o) (get_elem?-set xs i k x y ex))

-- A position that holds no address keeps its record, and the listed positions hold addresses still.
Holds-swap_at :
    (idx : List ℕ) (xs : List Rr) (n m : ℕ)
    → Holds idx xs
    → Holds idx (swap_at (get_elem? idx n) (get_elem? idx m) xs)
      × ((k : ℕ) (rr : Rr)
          → get_elem? xs k ≡ some rr
          → is_address rr ≡ false
          → get_elem? (swap_at (get_elem? idx n) (get_elem? idx m) xs) k ≡ some rr)
Holds-swap_at idx xs n m h = by_positions (get_elem? idx n) (get_elem? idx m) (h n) (h m)
  where
    Filled : Option ℕ → Type 0
    Filled o =
        (i : ℕ) → o ≡ some i → (rr : Rr) × (get_elem? xs i ≡ some rr) × (is_address rr ≡ true)

    by_positions :
        (o p : Option ℕ)
        → Filled o
        → Filled p
        → Holds idx (swap_at o p xs)
          × ((k : ℕ) (rr : Rr)
              → get_elem? xs k ≡ some rr
              → is_address rr ≡ false
              → get_elem? (swap_at o p xs) k ≡ some rr)
    by_positions none p f g = (h, λ k rr e a. e)
    by_positions (some i) none f g = (h, λ k rr e a. e)
    by_positions (some i) (some j) f g =
        let (x, ex, ax) = f i refl in
        let (y, ey, ay) = g j refl in
        (
          λ q k e.
              let (rr, er, ar) = h q k e in
              rw (swap_lem i j k x y xs ex ey) (choose (j == k) (i == k) k x y rr ax ay er ar),
          λ k rr e a. swap_lem i j k x y xs ex ey ∙ (ground arith),
        )
      where
        choose :
            (b c : Bool) (k : ℕ) (x y rr : Rr)
            → is_address x ≡ true
            → is_address y ≡ true
            → get_elem? xs k ≡ some rr
            → is_address rr ≡ true
            → (r : Rr) × ((if b then some x else if c then some y else get_elem? xs k) ≡ some r)
              × (is_address r ≡ true)
        choose true c k x y rr ax ay er ar = (x, refl, ax)
        choose false true k x y rr ax ay er ar = (y, refl, ay)
        choose false false k x y rr ax ay er ar = (rr, er, ar)

shuffle_loop_keeps :
    (n : ℕ) (draw : ℕ → ℕ) (idx : List ℕ) (xs : List Rr) (k : ℕ) (rr : Rr)
    → Holds idx xs
    → get_elem? xs k ≡ some rr
    → is_address rr ≡ false
    → get_elem? (shuffle_loop n draw idx xs) k ≡ some rr
unfolding shuffle_loop
shuffle_loop_keeps zero draw idx xs k rr h e a = e
shuffle_loop_keeps (suc n) draw idx xs k rr h e a =
    let (h', kept) = Holds-swap_at idx xs (suc n) (draw (suc n)) h in
    shuffle_loop_keeps n draw idx
      (swap_at (get_elem? idx (suc n)) (get_elem? idx (draw (suc n))) xs) k rr h' (kept k rr e a) a

-- A position that is listed, counted from i, holds an address record.
abbrev Located : ℕ → List Rr → ℕ → Type 0
Located i xs k =
    (m : ℕ) × (rr : Rr) × (k ≡ i + m) × (get_elem? xs m ≡ some rr) × (is_address rr ≡ true)

Located-cons : (i : ℕ) (x : Rr) (xs : List Rr) (k : ℕ) → Located (suc i) xs k → Located i (x ∷ xs) k
Located-cons i x xs k (m, rr, e, er, ar) = (suc m, rr, omega arith, er, ar)

Located-first :
    (i : ℕ) (x : Rr) (xs : List Rr) (n k : ℕ)
    → is_address x ≡ true
    → ((q : ℕ) → get_elem? (ip_indexes (suc i) xs) q ≡ some k → Located (suc i) xs k)
    → get_elem? (i ∷ ip_indexes (suc i) xs) n ≡ some k
    → Located i (x ∷ xs) k
Located-first i x xs zero k a later h = (0, x, ground arith, refl, a)
Located-first i x xs (suc n) k a later h = Located-cons i x xs k (later n h)

ip_indexes-Located :
    (i : ℕ) (xs : List Rr) (n k : ℕ) → get_elem? (ip_indexes i xs) n ≡ some k → Located i xs k
unfolding ip_indexes
ip_indexes-Located i [] n k h = cc
ip_indexes-Located i (x ∷ xs) n k h = elim (Bool-cases (is_address x)) [
  | inr past ↦ Located-cons i x xs k (ip_indexes-Located (suc i) xs n k (rw past at h))
  | inl here ↦ Located-first i x xs n k here (λ q. ip_indexes-Located (suc i) xs q k) (rw here at h)
]

ip_indexes-Holds : (xs : List Rr) → Holds (ip_indexes 0 xs) xs
ip_indexes-Holds xs n i e =
    let (m, rr, same, er, ar) = ip_indexes-Located 0 xs n i e in
    (rr, (ap (get_elem? xs) (omega (arith, same))) ∙ er, ar)

-- The shuffle of the cached answers, whatever random numbers are drawn, keeps how many records pass
-- any test, so that it gives the same records in some order.
pub tally-shuffle :
    (draw : ℕ → ℕ) (xs : List Rr) (p : Rr → Bool) → tally p (shuffle draw xs) ≡ tally p xs
unfolding shuffle
tally-shuffle draw xs p =
    tally-shuffle_loop p (length (ip_indexes 0 xs) - 1) draw (ip_indexes 0 xs) xs

-- The shuffle of the cached answers, whatever random numbers are drawn, leaves every record that is
-- neither of type A nor of type AAAA in its position.
pub get_elem?-shuffle :
    (draw : ℕ → ℕ) (xs : List Rr) (k : ℕ) (rr : Rr)
    → get_elem? xs k ≡ some rr
    → is_address rr ≡ false
    → get_elem? (shuffle draw xs) k ≡ some rr
unfolding shuffle
get_elem?-shuffle draw xs k rr e a =
    shuffle_loop_keeps (length (ip_indexes 0 xs) - 1) draw (ip_indexes 0 xs) xs k rr
      (ip_indexes-Holds xs) e a
