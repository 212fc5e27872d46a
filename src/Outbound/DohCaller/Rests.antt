-- ===== src/Outbound/DohCaller/Rests.antt =====
-- outbound/caller.go: where `run` and the calls of `getClient` can take no step by themselves.
use ts_dns.Common.{
  ◌≡◌, refl, ◌⊎◌, Bool, true, false, none, some, [], arith, Bytes, is_some, Moves, try_own, or_else,
  inl,
}
use ts_dns.Dns.{Msg, NetLib}
use ts_dns.Outbound.DohCaller.{
  Runner, unstarted, satisfying, DohState, Event, start, tick, ticked, take, resolved, satisfied,
  dropped, halt, ask, send, turn_away, receive, give_up, cancel_ask, cancel_wait, exit, step,
}
use ts_dns.Outbound.DohCaller.Tokens.{is_exited, is_give_up, IsCovered}
use ts_dns.Outbound.DohCaller.Ranks.{is_own}

abbrev is_satisfying : Runner → Bool
is_satisfying satisfying = true
is_satisfying _ = false

-- Both channels are full, nobody waits for an answer, and the goroutine of `run` waits for room for its own.
abbrev pub IsJammed : DohState → Type 0
IsJammed s =
    (is_some s.require ≡ true)
    × (is_satisfying s.runner ≡ true)
    × (s.satisfy ≡ true)
    × (s.waiting ≡ 0)

abbrev pub is_started : Runner → Bool
is_started unstarted = false
is_started _ = true

pub own-not_give_up : (e : Event) → is_own e ≡ true → is_give_up e ≡ false
own-not_give_up e o = ground arith

module _ (net : NetLib) (host : Bytes) (next : Msg) where
  -- No own step can be taken.
  abbrev pub IsAtRest : DohState → Type 0
  IsAtRest s = (e : Event) → is_own e ≡ true → step net host s e ≡ none

  pub rest-live :
      (s : DohState)
      → IsAtRest s
      → s.canceled ≡ false
      → is_started s.runner ≡ true
      → IsCovered s
      → ((s.asking ≡ 0) × (s.waiting ≡ 0)) ⊎ IsJammed s
  unfolding step
  rest-live s rest live started c =
      let h1 = rest (ticked []) refl in
      let h2 = rest take refl in
      let h3 = rest (resolved []) refl in
      let h4 = rest satisfied refl in
      let h5 = rest receive refl in let h6 = rest (send next) refl in ground arith

  pub rest-canceled :
      (s : DohState)
      → IsAtRest s
      → s.canceled ≡ true
      → is_started s.runner ≡ true
      → (is_exited s.runner ≡ true) × (s.asking ≡ 0) × (s.waiting ≡ 0)
  unfolding step
  rest-canceled s rest gone started =
      let h1 = rest (ticked []) refl in
      let h2 = rest (resolved []) refl in
      let h3 = rest dropped refl in
      let h4 = rest halt refl in
      let h5 = rest cancel_ask refl in let h6 = rest cancel_wait refl in ground arith

  pub step-is_started :
      (s s' : DohState) (e : Event)
      → step net host s e ≡ some s'
      → is_started s.runner ≡ true
      → is_started s'.runner ≡ true
  unfolding step
  step-is_started s s' start h b = ground arith
  step-is_started s s' tick h b = ground arith
  step-is_started s s' (ticked replies) h b = ground arith
  step-is_started s s' take h b = ground arith
  step-is_started s s' (resolved replies) h b = ground arith
  step-is_started s s' satisfied h b = ground arith
  step-is_started s s' dropped h b = ground arith
  step-is_started s s' halt h b = ground arith
  step-is_started s s' ask h b = ground arith
  step-is_started s s' (send req) h b = ground arith
  step-is_started s s' turn_away h b = ground arith
  step-is_started s s' receive h b = ground arith
  step-is_started s s' give_up h b = ground arith
  step-is_started s s' cancel_ask h b = ground arith
  step-is_started s s' cancel_wait h b = ground arith
  step-is_started s s' exit h b = ground arith

  module _ (s : DohState) (h1 : step net host s (ticked []) ≡ none)
      (h2 : step net host s take ≡ none) (h3 : step net host s (resolved []) ≡ none)
      (h4 : step net host s satisfied ≡ none) (h5 : step net host s dropped ≡ none)
      (h6 : step net host s halt ≡ none) (h7 : step net host s receive ≡ none)
      (h8 : step net host s (send next) ≡ none) (h9 : step net host s cancel_ask ≡ none)
      (h10 : step net host s cancel_wait ≡ none) where
    all_stuck : IsAtRest s
    unfolding step
    all_stuck (ticked replies) o = ground arith
    all_stuck take o = h2
    all_stuck (resolved replies) o = ground arith
    all_stuck satisfied o = h4
    all_stuck dropped o = h5
    all_stuck halt o = h6
    all_stuck receive o = h7
    all_stuck (send req) o = ground arith
    all_stuck cancel_ask o = h9
    all_stuck cancel_wait o = h10
    all_stuck start o = cc
    all_stuck tick o = cc
    all_stuck ask o = cc
    all_stuck turn_away o = cc
    all_stuck give_up o = cc
    all_stuck exit o = cc

  pub progress : (s : DohState) → IsAtRest s ⊎ Moves (step net host) is_own s
  progress s = or_else (try_own (step net host) is_own s (ticked []) refl) λ h1.
      or_else (try_own (step net host) is_own s take refl) λ h2.
        or_else (try_own (step net host) is_own s (resolved []) refl) λ h3.
          or_else (try_own (step net host) is_own s satisfied refl) λ h4.
            or_else (try_own (step net host) is_own s dropped refl) λ h5.
              or_else (try_own (step net host) is_own s halt refl) λ h6.
                or_else (try_own (step net host) is_own s receive refl) λ h7.
                  or_else (try_own (step net host) is_own s (send next) refl) λ h8.
                    or_else (try_own (step net host) is_own s cancel_ask refl) λ h9.
                      or_else (try_own (step net host) is_own s cancel_wait refl)
                        λ h10. inl (all_stuck s h1 h2 h3 h4 h5 h6 h7 h8 h9 h10)
