-- ===== src/Inbound/Wrapper/Lifecycles.antt =====
-- The life cycle of the handlers behind a wrapper.
use ts_dns.Common.{
  ℕ, ◌+◌, ◌-◌, ◌≤◌, ◌<◌, ◌≡◌, refl, sym, ap, ◌∙◌, true, false, Option, none, some, List, [], ◌∷◌,
  arith,
}
use ts_dns.Common.{if◌then◌else◌, tally, ◌==◌, Bool-cases, inl, inr}
use mathlib.Core.Path.{subst}
use ts_dns.Inbound.Wrapper.{
  Wrapper, cons_old, reload_config, stop, remove_one, stop_handler, Step, reload, halt, finish_stop,
  Reachable, start, next, is_among, is_fresh,
}

-- How often a handler occurs in a list.
abbrev count : ℕ → List ℕ → ℕ
count i xs = tally (λ j. j == i) xs

count-remove_one :
    (i j : ℕ) (xs : List ℕ)
    → count i (remove_one j xs) ≡ (if j == i then count i xs - 1 else count i xs)
unfolding remove_one
count-remove_one i j [] = ground arith
count-remove_one i j (x ∷ xs) = ground (arith, count-remove_one i j xs)

count-is_among : (i : ℕ) (xs : List ℕ) → is_among i xs ≡ true → 0 < count i xs
count-is_among i [] h = cc
count-is_among i (x ∷ xs) h = ground (arith, count-is_among i xs)

count-not_among : (i : ℕ) (xs : List ℕ) → is_among i xs ≡ false → count i xs ≡ 0
count-not_among i [] h = refl
count-not_among i (x ∷ xs) h = ground (arith, count-not_among i xs)

is_among-count : (i : ℕ) (xs : List ℕ) → 0 < count i xs → is_among i xs ≡ true
is_among-count i [] h = ground arith
is_among-count i (x ∷ xs) h = ground (arith, is_among-count i xs)

abbrev held : Option ℕ → ℕ → ℕ
held none i = 0
held (some j) i = if j == i then 1 else 0

-- The wrapper's handler runs, what runs is the wrapper's or is due to be stopped, no handler is both,
-- and a stopped wrapper has none.
record IsSound (w : Wrapper) : Type 0 where
  kept : (i : ℕ) → held w.handler_ptr i ≤ count i w.running
  accounted : (i : ℕ) → count i w.running ≤ held w.handler_ptr i + count i w.due
  apart : (i : ℕ) → held w.handler_ptr i + count i w.due ≤ 1
  gone : w.stopped ≡ true → w.handler_ptr ≡ none

count-cons_old :
    (i : ℕ) (o : Option ℕ) (due : List ℕ) → count i (cons_old o due) ≡ held o i + count i due
count-cons_old i none due = omega arith
count-cons_old i (some j) due = refl

held_at : (i j : ℕ) (o : Option ℕ) → j ≡ i → held o i ≡ held o j
held_at i j o e = ap (held o) (sym e)

abbrev came_late : ℕ → Wrapper → Wrapper
came_late i w = record w { due = i ∷ w.due }

abbrev taken_over : ℕ → Wrapper → Wrapper
taken_over i w = record w {
  handler_ptr = some i;
  running = i ∷ w.running;
  due = cons_old w.handler_ptr w.due;
}

module _ (i : ℕ) (w : Wrapper) (s : IsSound w) (new_running : count i w.running ≡ 0)
    (new_due : count i w.due ≡ 0) where
  at_once : (j : ℕ) → (if i == j then 1 else 0) + (held w.handler_ptr j + count j w.due) ≤ 1
  at_once j = elim (Bool-cases (i == j)) [
    | inr off ↦ rw off (omega (arith, s.apart j))
    | inl on ↦
        let same : i ≡ j = ground arith in
        let none_held : held w.handler_ptr j ≡ 0 =
          ap (held w.handler_ptr) (sym same) ∙ omega (arith, s.kept i, new_running) in
        let none_due : count j w.due ≡ 0 = ap (λ k. count k w.due) (sym same) ∙ new_due in
        rw on (omega (arith, none_held, none_due))
  ]

  came_late-IsSound : IsSound (came_late i w)
  came_late-IsSound = record {
    kept = s.kept;
    accounted = λ j. omega (arith, s.accounted j);
    apart = λ j. omega (arith, at_once j);
    gone = s.gone;
  }

  taken_over-IsSound : w.stopped ≡ false → IsSound (taken_over i w)
  taken_over-IsSound off = record {
    kept = λ j. omega arith;
    accounted = λ j. omega (arith, s.accounted j, count-cons_old j w.handler_ptr w.due);
    apart = λ j. omega (arith, at_once j, count-cons_old j w.handler_ptr w.due);
    gone = λ on. cc;
  }

reload_config-IsSound :
    (i : ℕ) (w : Wrapper) → is_fresh i w ≡ true → IsSound w → IsSound (reload_config i w)
unfolding reload_config
reload_config-IsSound i w h s =
    let new_running : count i w.running ≡ 0 = count-not_among i w.running (ground arith) in
    let new_due : count i w.due ≡ 0 = count-not_among i w.due (ground arith) in
    elim (Bool-cases w.stopped) [
      | inl on ↦
          subst IsSound (ap (λ b. if b then came_late i w else taken_over i w) (sym on))
            (came_late-IsSound i w s new_running new_due)
      | inr off ↦
          subst IsSound (ap (λ b. if b then came_late i w else taken_over i w) (sym off))
            (taken_over-IsSound i w s new_running new_due off)
    ]

abbrev halted : Wrapper → Wrapper
halted w = record w { stopped = true; handler_ptr = none; due = cons_old w.handler_ptr w.due }

halted-IsSound : (w : Wrapper) → IsSound w → IsSound (halted w)
halted-IsSound w s = record {
  kept = λ j. omega arith;
  accounted = λ j. omega (arith, s.accounted j, count-cons_old j w.handler_ptr w.due);
  apart = λ j. omega (arith, s.apart j, count-cons_old j w.handler_ptr w.due);
  gone = λ on. refl;
}

stop-IsSound : (w : Wrapper) → IsSound w → IsSound (stop w)
unfolding stop
stop-IsSound w s = elim (Bool-cases w.stopped) [
  | inl on ↦ subst IsSound (ap (λ b. if b then w else halted w) (sym on)) s
  | inr off ↦ subst IsSound (ap (λ b. if b then w else halted w) (sym off)) (halted-IsSound w s)
]

stop_handler-IsSound :
    (i : ℕ) (w : Wrapper) → is_among i w.due ≡ true → IsSound w → IsSound (stop_handler i w)
unfolding stop_handler
stop_handler-IsSound i w h s =
    let due_now = count-is_among i w.due h in
    let not_held : held w.handler_ptr i ≡ 0 = omega (arith, due_now, s.apart i) in
    record {
      kept = λ j.
          ground
            (arith, s.kept j, held_at j i w.handler_ptr, not_held, count-remove_one j i w.running);
      accounted = λ j.
          ground (arith, s.accounted j, count-remove_one j i w.running, count-remove_one j i w.due);
      apart = λ j. ground (arith, s.apart j, count-remove_one j i w.due);
      gone = s.gone;
    }

Step-IsSound : (w w' : Wrapper) → Step w w' → IsSound w → IsSound w'
Step-IsSound _ _ (reload i w h) s = reload_config-IsSound i w h s
Step-IsSound _ _ (halt w) s = stop-IsSound w s
Step-IsSound _ _ (finish_stop i w h) s = stop_handler-IsSound i w h s

Reachable-IsSound : (w : Wrapper) → Reachable w → IsSound w
Reachable-IsSound _ start = record {
  kept = λ j. omega arith;
  accounted = λ j. omega arith;
  apart = λ j. omega arith;
  gone = λ on. cc;
}
Reachable-IsSound _ (next v w r step) = Step-IsSound v w step (Reachable-IsSound v r)

-- Whatever calls of `ReloadConfig` and `Stop` ran, in any interleaving of their steps, the handler
-- that queries are given to was started, has not been stopped, and is not due to be stopped.
pub handler_ptr-running :
    (w : Wrapper) (i : ℕ)
    → Reachable w
    → w.handler_ptr ≡ some i
    → (is_among i w.running ≡ true) × (is_among i w.due ≡ false) × (w.stopped ≡ false)
handler_ptr-running w i r e =
    let s = Reachable-IsSound w r in
    let here : held w.handler_ptr i ≡ 1 = ap (λ o. held o i) e ∙ ground arith in
    let none_due : count i w.due ≡ 0 = omega (arith, s.apart i, here) in
    (
      is_among-count i w.running (omega (arith, s.kept i, here)),
      ground (arith, count-is_among i w.due, none_due),
      ground (arith, s.gone, e),
    )

no_member : (xs : List ℕ) → ((i : ℕ) → count i xs ≤ 0) → xs ≡ []
no_member [] h = refl
no_member (x ∷ xs) h = ground (arith, h x)

-- After `Stop`, once the stops that are due have been done, no handler runs: each handler that
-- was ever started has been stopped, whatever calls of `ReloadConfig` ran beside it.
pub stopped-none_running :
    (w : Wrapper) → Reachable w → w.stopped ≡ true → w.due ≡ [] → w.running ≡ []
stopped-none_running w r on done =
    let s = Reachable-IsSound w r in
    let none_held : w.handler_ptr ≡ none = s.gone on in
    no_member w.running (λ i.
      let h : held w.handler_ptr i ≡ 0 = ap (λ o. held o i) none_held in
      let d : count i w.due ≡ 0 = ap (count i) done in omega (arith, s.accounted i, h, d))
