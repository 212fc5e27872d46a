-- ===== src/Common/Machines.antt =====
-- Machines: a step function that may refuse an event, its runs, and what own steps come to.
use Prim.Native.Nat.{ℕ, zero, suc, ◌+◌, ◌≤◌, ◌<◌}
use mathlib.Core.Path.{◌≡◌, refl, sym, ap, ◌∙◌, subst}
use mathlib.Core.Logic.{◌⊎◌, inl, inr}
use mathlib.Core.Bool.{Bool, true}
use mathlib.Core.Option.{Option, none, some}
use mathlib.Core.List.{List, [], ◌∷◌}
use native.Mathlib.Omega.{arith}
use ts_dns.Common.Lists.{length, All}
use ts_dns.Common.Tests.{◌>>=◌, Option-cases}

pub some_inj : {A : Type 0} {x y : A} → some x ≡ some y → x ≡ y
some_inj h = cc

pub none_some : {A C : Type 0} {x : A} → none ≡ some x → C
none_some h = cc

-- The next of several attempts.
pub or_else : {A B C : Type 0} → A ⊎ C → (A → B ⊎ C) → B ⊎ C
or_else (inl a) f = f a
or_else (inr c) f = inr c

module _ {S E : Type 0} (step : S → E → Option S) where
  unfoldable pub run : S → List E → Option S
  run s [] = some s
  run s (e ∷ es) = step s e >>= λ s'. run s' es

  -- The first step of a run.
  run-cons :
      (s s' : S) (e : E) (es : List E)
      → run s (e ∷ es) ≡ some s'
      → (q : S) × (step s e ≡ some q) × (run q es ≡ some s')
  unfolding run
  run-cons s s' e es h = elim (Option-cases (step s e)) [
    | inl stuck ↦ none_some (sym (ap (λ o. o >>= λ q. run q es) stuck) ∙ h)
    | inr (q, moved) ↦ (q, moved, sym (ap (λ o. o >>= λ q. run q es) moved) ∙ h)
  ]

  module _ (P : S → Type 0) (kept : (s s' : S) (e : E) → step s e ≡ some s' → P s → P s') where
    -- What every step keeps, every run keeps.
    pub run-keeps : (es : List E) (s s' : S) → run s es ≡ some s' → P s → P s'
    unfolding run
    run-keeps [] s s' h p = subst P (some_inj h) p
    run-keeps (e ∷ es) s s' h p =
        let (q, moved, h') = run-cons s s' e es h in run-keeps es q s' h' (kept s q e moved p)

  module _ (Q : E → Type 0) (P : S → Type 0)
      (kept : (s s' : S) (e : E) → Q e → step s e ≡ some s' → P s → P s') where
    -- What the steps of some events keep, every run of such events keeps.
    pub run-keeps_among : (es : List E) (s s' : S) → All Q es → run s es ≡ some s' → P s → P s'
    unfolding run
    run-keeps_among [] s s' qs h p = subst P (some_inj h) p
    run-keeps_among (e ∷ es) s s' qs h p =
        let (q, moved, h') = run-cons s s' e es h in
        run-keeps_among es q s' qs.1 h' (kept s q e qs.0 moved p)

  -- Some own step can be taken.
  abbrev pub Moves : (E → Bool) → S → Type 0
  Moves is_own s = (e : E) × (s' : S) × (is_own e ≡ true) × (step s e ≡ some s')

  pub try_own :
      (is_own : E → Bool) (s : S) (e : E) → is_own e ≡ true → (step s e ≡ none) ⊎ Moves is_own s
  try_own is_own s e o = elim (Option-cases (step s e)) [
    | inl stuck ↦ inl stuck
    | inr (s', moved) ↦ inr (e, s', o, moved)
  ]

  module _ (is_own : E → Bool) (rank : S → ℕ) (P : S → Type 0)
      (kept : (s s' : S) (e : E) → is_own e ≡ true → step s e ≡ some s' → P s → P s')
      (lower : (s s' : S) (e : E) → is_own e ≡ true → step s e ≡ some s' → rank s' < rank s)
      (G : S → Type 0) (progress : (s : S) → P s → G s ⊎ Moves is_own s) where
    abbrev AllOwn : List E → Type 0
    AllOwn = All (λ e. is_own e ≡ true)

    run-rank :
        (es : List E) (s s' : S)
        → AllOwn es
        → run s es ≡ some s'
        → P s
        → (length es + rank s' ≤ rank s) × P s'
    unfolding run
    run-rank [] s s' o h p = subst (λ q. (0 + rank q ≤ rank s) × P q) (some_inj h) (omega arith, p)
    run-rank (e ∷ es) s s' (o, os) h p =
        let (q, moved, h') = run-cons s s' e es h in
        let (n, p') = run-rank es q s' os h' (kept s q e o moved p) in
        (omega (arith, lower s q e o moved, n), p')

    abbrev Settles : S → Type 0
    Settles s =
        (es : List E) × (s' : S) × AllOwn es
        × (run s es ≡ some s')
        × (length es + rank s' ≤ rank s)
        × G s'

    step-Settles : (s q : S) (e : E) → is_own e ≡ true → step s e ≡ some q → Settles q → Settles s
    unfolding run
    step-Settles s q e o moved (es, s', os, h, n, g) = (
      e ∷ es,
      s',
      (o, os),
      ap (λ o. o >>= λ q. run q es) moved ∙ h,
      omega (arith, lower s q e o moved, n),
      g,
    )

    settle : (fuel : ℕ) (s : S) → rank s ≤ fuel → P s → Settles s
    unfolding run
    settle zero s r p = elim (progress s p) [
      | inl g ↦ ([], s, tt, refl, omega arith, g)
      | inr (e, q, o, moved) ↦ absurd (omega (arith, lower s q e o moved, r))
    ]
    settle (suc fuel) s r p = elim (progress s p) [
      | inl g ↦ ([], s, tt, refl, omega arith, g)
      | inr (e, q, o, moved) ↦
          step-Settles s q e o moved
            (settle fuel q (omega (arith, lower s q e o moved, r)) (kept s q e o moved p))
    ]

    -- A run of own steps is at most as long as the rank, and within it can be continued to the goal.
    pub run-settles :
        (own : List E) (s s' : S)
        → P s
        → AllOwn own
        → run s own ≡ some s'
        → (more : List E) × (s'' : S) × AllOwn more
          × (run s' more ≡ some s'')
          × (length own + length more ≤ rank s)
          × G s''
    run-settles own s s' p os h =
        let (shorter, p') = run-rank own s s' os h p in
        let (more, s'', ms, h', n, g) = settle (rank s') s' (omega arith) p' in
        (more, s'', ms, h', omega (arith, shorter, n), g)
