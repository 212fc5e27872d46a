-- ===== src/Utils/MinTtl.antt =====
-- The result of `GetMinTTL` against the TTLs that it is the least of.
use ts_dns.Common.{ℕ, ◌≤◌, ◌≡◌, refl, ap, sym, ◌∙◌, ◌⊎◌, inl, inr, Bool, true, false, not}
use ts_dns.Common.{some, List, [], ◌∷◌, ◌++◌, map, arith, ◌==◌, All, In, keep, Bool-cases}
use ts_dns.Dns.{Rr, header, ttl_of, type_opt, Msg}
use ts_dns.Utils.Records.{MinState, update_min, min_loop, min_loop_extra, get_min_ttl}

abbrev is_counted : Rr → Bool
is_counted rr = not ((header rr).rrtype == type_opt)

-- The TTLs that count: those of the answers, the authorities, and the extras but OPT.
abbrev pub counted : Msg → List ℕ
counted m = map ttl_of m.answer ++ map ttl_of m.ns ++ map ttl_of (keep is_counted m.extra)

fold_min : MinState → List ℕ → MinState
fold_min s [] = s
fold_min s (t ∷ ts) = fold_min (update_min s t) ts

min_loop-fold_min : (xs : List Rr) (s : MinState) → min_loop s xs ≡ fold_min s (map ttl_of xs)
unfolding min_loop fold_min
min_loop-fold_min [] s = refl
min_loop-fold_min (x ∷ xs) s = min_loop-fold_min xs (update_min s (ttl_of x))

min_loop_extra-fold_min :
    (xs : List Rr) (s : MinState)
    → min_loop_extra s xs ≡ fold_min s (map ttl_of (keep is_counted xs))
unfolding min_loop_extra fold_min
min_loop_extra-fold_min [] s = refl
min_loop_extra-fold_min (x ∷ xs) s = elim (Bool-cases ((header x).rrtype == type_opt)) [
  | inl yes_opt ↦ rw (yes_opt, min_loop_extra) (min_loop_extra-fold_min xs s)
  | inr no_opt ↦ rw (no_opt, min_loop_extra) (min_loop_extra-fold_min xs (update_min s (ttl_of x)))
]

fold_min-append :
    (xs ys : List ℕ) (s : MinState) → fold_min s (xs ++ ys) ≡ fold_min (fold_min s xs) ys
unfolding fold_min
fold_min-append [] ys s = refl
fold_min-append (x ∷ xs) ys s = fold_min-append xs ys (update_min s x)

record IsLeast (s : MinState) (ts : List ℕ) (r : MinState) : Type 0 where
  below_start : r.min_ttl ≤ s.min_ttl
  below_all : All (λ t. r.min_ttl ≤ t) ts
  attained : (r.min_ttl ≡ s.min_ttl) ⊎ In r.min_ttl ts

update_min-IsLeast :
    (s : MinState) (t : ℕ)
    → s.first ≡ false
    → ((update_min s t).first ≡ false) × IsLeast s (t ∷ []) (update_min s t)
unfolding update_min
update_min-IsLeast s t h = ground arith

IsLeast-trans :
    {s r q : MinState} (t : ℕ) (ts : List ℕ)
    → IsLeast s (t ∷ []) r
    → IsLeast r ts q
    → IsLeast s (t ∷ ts) q
IsLeast-trans t ts p q = record {
  below_start = omega (arith, p.below_start, q.below_start);
  below_all = (omega (arith, p.below_all.0, q.below_start), q.below_all);
  attained = elim q.attained [
    | inr later ↦ inr (inr later)
    | inl same ↦ elim p.attained [
      | inl start ↦ inl (same ∙ start)
      | inr (inl here) ↦ inr (inl (same ∙ here))
      | inr (inr impossible) ↦ absurd impossible
    ]
  ];
}

fold_min-IsLeast : (ts : List ℕ) (s : MinState) → s.first ≡ false → IsLeast s ts (fold_min s ts)
unfolding fold_min
fold_min-IsLeast [] s h = record { below_start = omega arith; below_all = tt; attained = inl refl }
fold_min-IsLeast (t ∷ ts) s h =
    let (off, step) = update_min-IsLeast s t h in
    IsLeast-trans t ts step (fold_min-IsLeast ts (update_min s t) off)

abbrev start : MinState
start = record { min_ttl = 0; first = true }

get_min_ttl-fold_min : (m : Msg) → get_min_ttl (some m) ≡ (fold_min start (counted m)).min_ttl
unfolding get_min_ttl
get_min_ttl-fold_min m =
    ap (λ s. s.min_ttl)
      (min_loop_extra-fold_min m.extra _
        ∙ ap (λ s. fold_min s (map ttl_of (keep is_counted m.extra)))
            (min_loop-fold_min m.ns _
              ∙ ap (λ s. fold_min s (map ttl_of m.ns)) (min_loop-fold_min m.answer start))
        ∙ sym (
            fold_min-append (map ttl_of m.answer ++ map ttl_of m.ns)
              (map ttl_of (keep is_counted m.extra)) start
            ∙ ap (λ s. fold_min s (map ttl_of (keep is_counted m.extra)))
                (fold_min-append (map ttl_of m.answer) (map ttl_of m.ns) start)))

fold_min-start :
    (t : ℕ) (ts : List ℕ)
    → All (λ u. (fold_min start (t ∷ ts)).min_ttl ≤ u) (t ∷ ts)
      × In (fold_min start (t ∷ ts)).min_ttl (t ∷ ts)
unfolding fold_min update_min
fold_min-start t ts =
    let least = fold_min-IsLeast ts (record { min_ttl = t; first = false }) refl in
    ((least.below_start, least.below_all), least.attained)

-- The result of `GetMinTTL` is one of the TTLs of the answers, the authorities and the extras other than
-- OPT, and at most each of them; it is 0 if there is no such record.
pub get_min_ttl-least :
    (m : Msg)
    → (All (λ t. get_min_ttl (some m) ≤ t) (counted m) × In (get_min_ttl (some m)) (counted m))
      ⊎ ((counted m ≡ []) × (get_min_ttl (some m) ≡ 0))
get_min_ttl-least m = rw (get_min_ttl-fold_min m) (by_cases (counted m))
  where
    by_cases :
        (ts : List ℕ)
        → (All (λ t. (fold_min start ts).min_ttl ≤ t) ts × In (fold_min start ts).min_ttl ts)
          ⊎ ((ts ≡ []) × ((fold_min start ts).min_ttl ≡ 0))
    by_cases [] = inr (refl, unfold fold_min in refl)
    by_cases (t ∷ ts) = inl (fold_min-start t ts)
