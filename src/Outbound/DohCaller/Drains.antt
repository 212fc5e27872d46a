-- ===== src/Outbound/DohCaller/Drains.antt =====
-- outbound/caller.go: what the steps that `run` and the calls of `getClient` take by themselves come to.
use ts_dns.Common.{
  ◌+◌, ◌*◌, ◌≤◌, ◌≡◌, refl, ◌⊎◌, Bool, true, false, some, List, [], ◌∷◌, arith, length, Bytes,
  Moves, run, run-keeps, run-settles, Bool-cases, inl, inr, All, any, run-keeps_among,
}
use ts_dns.Dns.{Msg, NetLib}
use ts_dns.Outbound.DohCaller.{DohState, Event, new_caller, step}
use ts_dns.Outbound.DohCaller.Tokens.{
  is_exited, is_give_up, IsCovered, step-IsCovered, IsExact, step-IsExact,
}
use ts_dns.Outbound.DohCaller.Ranks.{is_own, rank, step-rank, rank-bound}
use ts_dns.Outbound.DohCaller.Rests.{
  IsJammed, is_started, IsAtRest, rest-live, rest-canceled, step-is_started, own-not_give_up,
  progress,
}

any-All : (p : Event → Bool) (es : List Event) → any p es ≡ false → All (λ e. p e ≡ false) es
any-All p [] h = tt
any-All p (e ∷ es) h = ground (arith, any-All p es)

module _ (net : NetLib) (host : Bytes) (next : Msg) where
  module _ (gave_up : Bool) where
    -- No call is at a `select`, or, where a call gave up before, the caller is jammed; after `Exit`, the
    -- goroutine has ended too.
    abbrev pub IsSettled : DohState → Type 0
    IsSettled s =
        ((s.canceled ≡ false) × (s.asking ≡ 0) × (s.waiting ≡ 0))
        ⊎ ((s.canceled ≡ false) × (gave_up ≡ true) × IsJammed s)
        ⊎ ((s.canceled ≡ true) × (is_exited s.runner ≡ true) × (s.asking ≡ 0) × (s.waiting ≡ 0))

    -- What own steps keep.
    abbrev IsLive : DohState → Type 0
    IsLive s = (is_started s.runner ≡ true) × IsCovered s × ((gave_up ≡ true) ⊎ IsExact s)

    step-IsLive :
        (s s' : DohState) (e : Event)
        → is_own e ≡ true
        → step net host s e ≡ some s'
        → IsLive s
        → IsLive s'
    step-IsLive s s' e o h (b, c, inl stale) =
        (step-is_started net host next s s' e h b, step-IsCovered net host s s' e h c, inl stale)
    step-IsLive s s' e o h (b, c, inr exact) = (
      step-is_started net host next s s' e h b,
      step-IsCovered net host s s' e h c,
      inr (step-IsExact net host s s' e (own-not_give_up e o) h exact),
    )

    jam_stale :
        (s : DohState)
        → s.canceled ≡ false
        → (gave_up ≡ true) ⊎ IsExact s
        → IsJammed s
        → gave_up ≡ true
    jam_stale s live (inl stale) jam = stale
    jam_stale s live (inr exact) jam = ground arith

    rest-IsSettled : (s : DohState) → IsAtRest net host next s → IsLive s → IsSettled s
    rest-IsSettled s r (b, c, x) = elim (Bool-cases s.canceled) [
      | inl gone ↦ let h = rest-canceled net host next s r gone b in inr (inr (gone, h.0, h.1, h.2))
      | inr live ↦ elim (rest-live net host next s r live b c) [
        | inl free ↦ inl (live, free.0, free.1)
        | inr jam ↦ inr (inl (live, jam_stale s live x jam, jam))
      ]
    ]

    live_progress : (s : DohState) → IsLive s → IsSettled s ⊎ Moves (step net host) is_own s
    live_progress s l = elim (progress net host next s) [
      | inl rest ↦ inl (rest-IsSettled s rest l)
      | inr p ↦ inr p
    ]

  run-IsExact :
      (clients : List Bytes) (before : List Event) (s : DohState)
      → run (step net host) (new_caller clients) before ≡ some s
      → (any is_give_up before ≡ true) ⊎ IsExact s
  run-IsExact clients before s h = elim (Bool-cases (any is_give_up before)) [
    | inl stale ↦ inl stale
    | inr none_gave_up ↦ inr (
        run-keeps_among (step net host) (λ e. is_give_up e ≡ false) IsExact
          (λ s s' e o h d. step-IsExact net host s s' e o h d) before (new_caller clients) s
          (any-All is_give_up before none_gave_up) h (inr refl))
  ]

  -- Once a caller is started, whatever happened before: a run of the steps that the goroutine of `run` and the
  -- calls of `getClient` take by themselves, in any order and with any requests and replies, has at most nine
  -- steps, six more for each call at the first `select` and one more for each call at the second. It can be
  -- continued within this number, whatever request is sent next, to a state where no call is at a `select`,
  -- or, only if a call gave up at its second `select` before, where the caller is jammed: both channels are full, nobody waits for an answer, and the goroutine waits
  -- for room for its own. After `Exit` it ends where no call is at a `select` and the goroutine has ended.
  pub run-IsSettled :
      (clients : List Bytes) (before own : List Event) (s s' : DohState)
      → run (step net host) (new_caller clients) before ≡ some s
      → is_started s.runner ≡ true
      → All (λ e. is_own e ≡ true) own
      → run (step net host) s own ≡ some s'
      → (more : List Event) × (s'' : DohState) × All (λ e. is_own e ≡ true) more
        × (run (step net host) s' more ≡ some s'')
        × (length own + length more ≤ 9 + 6 * s.asking + s.waiting)
        × IsSettled (any is_give_up before) s''
  run-IsSettled clients before own s s' h b os h' =
      let gave_up = any is_give_up before in
      let covered =
        run-keeps (step net host) IsCovered (step-IsCovered net host) before (new_caller clients) s
          h (inr (ground arith, refl)) in
      let (more, s'', ms, h'', n, t) =
        run-settles (step net host) is_own rank (IsLive gave_up) (step-IsLive gave_up)
          (step-rank net host) (IsSettled gave_up) (live_progress gave_up) own s s'
          (b, covered, run-IsExact clients before s h) os h' in
      (more, s'', ms, h'', omega (arith, rank-bound s), t)
