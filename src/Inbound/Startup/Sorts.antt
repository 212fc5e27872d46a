-- ===== src/Inbound/Startup/Sorts.antt =====
-- Insertion sort, an instance of what is relied on of `sort.Slice`.
use ts_dns.Common.{
  ◌≡◌, refl, inl, inr, Bool, false, List, [], ◌∷◌, arith, if◌then◌else◌, tally, All, In, Bytes,
  Bool-cases,
}
use ts_dns.Hosts.{less_bytes}
use ts_dns.Inbound.Handler.{Group, group_less}
use ts_dns.Inbound.Handler.Orders.{group_less-asym}
use ts_dns.Inbound.Startup.Fallbacks.{Sorted, SortsGroups}

less_bytes_negative :
    (s t u : Bytes) → less_bytes s t ≡ false → less_bytes t u ≡ false → less_bytes s u ≡ false
unfolding less_bytes
less_bytes_negative [] [] [] h k = refl
less_bytes_negative [] [] (z ∷ u) h k = cc
less_bytes_negative [] (y ∷ t) u h k = cc
less_bytes_negative (x ∷ s) t [] h k = refl
less_bytes_negative (x ∷ s) [] (z ∷ u) h k = cc
less_bytes_negative (x ∷ s) (y ∷ t) (z ∷ u) h k = ground (arith, less_bytes_negative s t u)

module _ {S : Type 0} where
  group_less_negative :
      (g1 g2 g3 : Group S)
      → group_less g1 g2 ≡ false
      → group_less g2 g3 ≡ false
      → group_less g1 g3 ≡ false
  unfolding group_less
  group_less_negative g1 g2 g3 h k = ground (arith, less_bytes_negative g1.name g2.name g3.name)

  unfoldable pub insert : (Group S → Group S → Bool) → Group S → List (Group S) → List (Group S)
  insert less g [] = g ∷ []
  insert less g (y ∷ ys) = let rest = insert less g ys in if less y g then y ∷ rest else g ∷ y ∷ ys

  unfoldable pub sort : (Group S → Group S → Bool) → List (Group S) → List (Group S)
  unfolding insert
  sort less [] = []
  sort less (g ∷ gs) = insert less g (sort less gs)

  tally-insert :
      (less : Group S → Group S → Bool) (p : Group S → Bool) (g : Group S) (ys : List (Group S))
      → tally p (insert less g ys) ≡ tally p (g ∷ ys)
  unfolding insert
  tally-insert less p g [] = refl
  tally-insert less p g (y ∷ ys) = ground (arith, tally-insert less p g ys)

  tally-sort :
      (less : Group S → Group S → Bool) (p : Group S → Bool) (gs : List (Group S))
      → tally p (sort less gs) ≡ tally p gs
  unfolding sort
  tally-sort less p [] = refl
  tally-sort less p (g ∷ gs) =
      ground (arith, tally-insert less p g (sort less gs), tally-sort less p gs)

  In-insert :
      (less : Group S → Group S → Bool) (x g : Group S) (ys : List (Group S))
      → In x (insert less g ys)
      → In x (g ∷ ys)
  unfolding insert
  In-insert less x g [] i = i
  In-insert less x g (y ∷ ys) i = ground (arith, In-insert less x g ys)

  In-sort :
      (less : Group S → Group S → Bool) (x : Group S) (gs : List (Group S))
      → In x (sort less gs)
      → In x gs
  unfolding sort
  In-sort less x [] i = i
  In-sort less x (g ∷ gs) i = ground (arith, In-insert less x g (sort less gs) i, In-sort less x gs)

  All-insert :
      (less : Group S → Group S → Bool) (P : Group S → Bool) (g : Group S) (ys : List (Group S))
      → P g ≡ false
      → All (λ y. P y ≡ false) ys
      → All (λ y. P y ≡ false) (insert less g ys)
  unfolding insert
  All-insert less P g [] h a = (h, tt)
  All-insert less P g (y ∷ ys) h (l, ls) = elim (Bool-cases (less y g)) [
    | inl on ↦ rw on (l, All-insert less P g ys h ls)
    | inr off ↦ rw off (h, (l, ls))
  ]

  still_sorted :
      (g y : Group S) (ys : List (Group S))
      → group_less y g ≡ false
      → All (λ z. group_less z y ≡ false) ys
      → All (λ z. group_less z g ≡ false) ys
  still_sorted g y [] h a = tt
  still_sorted g y (z ∷ zs) h (l, ls) = (group_less_negative z y g l h, still_sorted g y zs h ls)

  Sorted-insert : (g : Group S) (ys : List (Group S)) → Sorted ys → Sorted (insert group_less g ys)
  unfolding insert
  Sorted-insert g [] s = (tt, tt)
  Sorted-insert g (y ∷ ys) (a, s) = elim (Bool-cases (group_less y g)) [
    | inl on ↦ rw on (
      All-insert group_less (λ z. group_less z y) g ys (group_less-asym y g on).0 a,
      Sorted-insert g ys s,
    )
    | inr off ↦ rw off ((off, still_sorted g y ys off a), (a, s))
  ]

  sort-Sorted : (gs : List (Group S)) → Sorted (sort group_less gs)
  unfolding sort
  sort-Sorted [] = tt
  sort-Sorted (g ∷ gs) = Sorted-insert g (sort group_less gs) (sort-Sorted gs)

  pub sort-SortsGroups : SortsGroups S sort
  sort-SortsGroups = record {
    sorted = sort-Sorted;
    counts = tally-sort group_less;
    same = In-sort group_less;
  }
