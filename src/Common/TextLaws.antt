-- ===== src/Common/TextLaws.antt =====
-- Laws of the text functions: splitting against joining, trimming, lower case, and lengths.
use Prim.Native.Nat.{ℕ, zero, suc, ◌≤◌, ◌<◌}
use mathlib.Core.Path.{◌≡◌, refl, sym, ap, ap₂, ◌∙◌}
use mathlib.Core.Logic.{inl, inr}
use mathlib.Core.Bool.{true, false}
use mathlib.Core.Option.{some}
use mathlib.Core.List.{List, [], ◌∷◌, ◌++◌}
use native.Mathlib.Omega.{arith}
use ts_dns.Common.Tests.{Option-cases, ◌==◌, ==_iff, Bool-cases}
use ts_dns.Common.Lists.{length, drop}
use ts_dns.Common.Text.{
  Bytes, dot, lower, to_lower, has_prefix, cons_first, split, join, trim_left, cons_unless,
  trim_right, trim, ends_with, drop_last, trim_suffix, find_after, cut_after, cut_before,
  after_last,
}

-- A split is never empty, and joining it gives the text back.
pub split-cons : (sep : ℕ) (s : Bytes) → (p : Bytes) × (ps : List Bytes) × (split sep s ≡ p ∷ ps)
unfolding split
split-cons sep [] = ([], [], refl)
split-cons sep (c ∷ s) = elim (Bool-cases (c == sep)) [
  | inl here ↦ ([], split sep s, rw here)
  | inr past ↦ let (p, ps, e) = split-cons sep s in (c ∷ p, ps, rw past (ap (cons_first c) e))
]

join-cons_first :
    (sep c : ℕ) (ps : List Bytes)
    → (p : Bytes) × (qs : List Bytes) × (ps ≡ p ∷ qs)
    → join sep (cons_first c ps) ≡ c ∷ join sep ps
unfolding join
join-cons_first sep c [] (p, qs, e) = cc
join-cons_first sep c (p ∷ []) _ = refl
join-cons_first sep c (p ∷ q ∷ ps) _ = refl

join-nil_cons :
    (sep : ℕ) (ps : List Bytes)
    → (p : Bytes) × (qs : List Bytes) × (ps ≡ p ∷ qs)
    → join sep ([] ∷ ps) ≡ sep ∷ join sep ps
unfolding join
join-nil_cons sep [] (p, qs, e) = cc
join-nil_cons sep (p ∷ ps) _ = refl

pub join-split : (sep : ℕ) (s : Bytes) → join sep (split sep s) ≡ s
unfolding split
join-split sep [] = unfold join in refl
join-split sep (c ∷ s) = elim (Bool-cases (c == sep)) [
  | inl here ↦ rw here (
      join-nil_cons sep (split sep s) (split-cons sep s)
      ∙ ap₂ ◌∷◌ (sym ((==_iff c sep).0 here)) (join-split sep s))
  | inr past ↦
      rw past
        (join-cons_first sep c (split sep s) (split-cons sep s) ∙ ap (◌∷◌ c) (join-split sep s))
]

-- Trimming twice is trimming once.
trim_left_idem : (c : ℕ) (s : Bytes) → trim_left c (trim_left c s) ≡ trim_left c s
unfolding trim_left
trim_left_idem c [] = refl
trim_left_idem c (x ∷ s) = elim (Bool-cases (x == c)) [
  | inl here ↦ rw (here, trim_left) (trim_left_idem c s)
  | inr past ↦ rw (past, trim_left, past)
]

trim_right-cons_unless :
    (c x : ℕ) (s : Bytes)
    → trim_right c s ≡ s
    → trim_right c (cons_unless (x == c) x s) ≡ cons_unless (x == c) x s
unfolding trim_right
trim_right-cons_unless c x [] h = elim (Bool-cases (x == c)) [
  | inl here ↦ rw here
  | inr past ↦ rw (past, trim_right, past)
]
trim_right-cons_unless c x (y ∷ s) h = rw h

trim_right_idem : (c : ℕ) (s : Bytes) → trim_right c (trim_right c s) ≡ trim_right c s
unfolding trim_right
trim_right_idem c [] = refl
trim_right_idem c (x ∷ s) = trim_right-cons_unless c x (trim_right c s) (trim_right_idem c s)

cons_unless-inv : (x : ℕ) (r s : Bytes) → cons_unless true x r ≡ x ∷ s → r ≡ s
cons_unless-inv x [] s h = cc
cons_unless-inv x (y ∷ t) s h = cc

-- A text that trimming at the right leaves alone keeps that when it is trimmed at the left.
trim_right-trim_left :
    (c : ℕ) (s : Bytes) → trim_right c s ≡ s → trim_right c (trim_left c s) ≡ trim_left c s
unfolding trim_left trim_right
trim_right-trim_left c [] h = refl
trim_right-trim_left c (x ∷ s) h = elim (Bool-cases (x == c)) [
  | inl here ↦
      rw (here, trim_left)
        (trim_right-trim_left c s (cons_unless-inv x (trim_right c s) s (rw here at h)))
  | inr past ↦ rw (past, trim_left) h
]

pub trim_idem : (c : ℕ) (s : Bytes) → trim c (trim c s) ≡ trim c s
unfolding trim
trim_idem c s =
    ap (trim_left c) (trim_right-trim_left c (trim_right c s) (trim_right_idem c s))
    ∙ trim_left_idem c (trim_right c s)

-- None of the cuts makes a text longer.
length-drop-le : (n : ℕ) (s : Bytes) → length (drop n s) ≤ length s
length-drop-le zero s = omega arith
length-drop-le (suc n) [] = omega arith
length-drop-le (suc n) (x ∷ s) = omega (arith, length-drop-le n s)

length-find_after : (pat s r : Bytes) → find_after pat s ≡ some r → length r ≤ length s
unfolding find_after
length-find_after pat [] r h = cc
length-find_after pat (c ∷ s) r h = elim (Bool-cases (has_prefix (c ∷ s) pat)) [
  | inl here ↦ ground (arith, length-drop-le (length pat) (c ∷ s))
  | inr past ↦ ground (arith, length-find_after pat s r)
]

pub length-cut_after : (pat s : Bytes) → length (cut_after pat s) ≤ length s
unfolding cut_after
length-cut_after pat s = elim (Option-cases (find_after pat s)) [
  | inl miss ↦ rw (miss, cut_after) (omega arith)
  | inr (r, hit) ↦ rw (hit, cut_after) (length-find_after pat s r hit)
]

pub length-cut_before : (c : ℕ) (s : Bytes) → length (cut_before c s) ≤ length s
unfolding cut_before
length-cut_before c [] = omega arith
length-cut_before c (x ∷ s) = ground (arith, length-cut_before c s)

length-drop_last : (s : Bytes) → length (drop_last s) ≤ length s
unfolding drop_last
length-drop_last [] = omega arith
length-drop_last (x ∷ []) = omega arith
length-drop_last (x ∷ y ∷ s) = omega (arith, length-drop_last (y ∷ s))

pub length-trim_suffix : (c : ℕ) (s : Bytes) → length (trim_suffix c s) ≤ length s
unfolding trim_suffix
length-trim_suffix c s = ground (arith, length-drop_last s)

pub length-after_last : (c : ℕ) (s r : Bytes) → after_last c s ≡ some r → length r < length s
unfolding after_last
length-after_last c [] r h = cc
length-after_last c (x ∷ s) r h = elim (Option-cases (after_last c s)) [
  | inl miss ↦ ground arith
  | inr (q, hit) ↦ ground (arith, length-after_last c s q hit)
]

-- The final dot, and lower case.
to_lower-snoc : (s : Bytes) → to_lower (s ++ dot ∷ []) ≡ to_lower s ++ dot ∷ []
unfolding to_lower
to_lower-snoc [] = refl
to_lower-snoc (x ∷ s) = ap (◌∷◌ (lower x)) (to_lower-snoc s)

ends_with-snoc : (c : ℕ) (s : Bytes) → ends_with c (s ++ c ∷ []) ≡ true
unfolding ends_with
ends_with-snoc c [] = ground arith
ends_with-snoc c (x ∷ []) = ground arith
ends_with-snoc c (x ∷ y ∷ s) = ends_with-snoc c (y ∷ s)

pub drop_last-snoc : (c : ℕ) (s : Bytes) → drop_last (s ++ c ∷ []) ≡ s
unfolding drop_last
drop_last-snoc c [] = refl
drop_last-snoc c (x ∷ []) = refl
drop_last-snoc c (x ∷ y ∷ s) = ap (◌∷◌ x) (drop_last-snoc c (y ∷ s))

lower-dot : (x : ℕ) → (lower x == dot) ≡ (x == dot)
unfolding lower
lower-dot x = ground arith

pub ends_with-to_lower : (s : Bytes) → ends_with dot (to_lower s) ≡ ends_with dot s
unfolding ends_with to_lower
ends_with-to_lower [] = refl
ends_with-to_lower (x ∷ []) = lower-dot x
ends_with-to_lower (x ∷ y ∷ s) = ends_with-to_lower (y ∷ s)

pub trim_suffix-snoc : (c : ℕ) (s : Bytes) → trim_suffix c (s ++ c ∷ []) ≡ s
unfolding trim_suffix
trim_suffix-snoc c s = rw (ends_with-snoc c s) (drop_last-snoc c s)

-- A final dot changes nothing in lower case without it.
pub trim_suffix-to_lower_snoc :
    (s : Bytes)
    → ends_with dot s ≡ false
    → trim_suffix dot (to_lower (s ++ dot ∷ [])) ≡ trim_suffix dot (to_lower s)
trim_suffix-to_lower_snoc s h =
    ap (trim_suffix dot) (to_lower-snoc s)
    ∙ trim_suffix-snoc dot (to_lower s)
    ∙ sym (trim_suffix_same (to_lower s) (ends_with-to_lower s ∙ h))
  where
    trim_suffix_same : (t : Bytes) → ends_with dot t ≡ false → trim_suffix dot t ≡ t
    trim_suffix_same t e = unfold trim_suffix in rw e
