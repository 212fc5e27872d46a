-- ===== src/Outbound/DohCaller/Tokens.antt =====
-- outbound/caller.go: the two channels between `getClient` and `run`.
use ts_dns.Common.{
  ℕ, ◌+◌, ◌≤◌, ◌≡◌, refl, ◌⊎◌, Bool, true, false, some, List, arith, Bytes, is_some, run, run-keeps,
  inr,
}
use ts_dns.Dns.{NetLib}
use ts_dns.Outbound.DohCaller.{
  Runner, unstarted, idle, ticking, resolving, satisfying, exited, DohState, Event, start, tick,
  ticked, take, resolved, satisfied, dropped, halt, ask, send, turn_away, receive, give_up,
  cancel_ask, cancel_wait, exit, new_caller, step,
}

abbrev pub one : Bool → ℕ
one true = 1
one false = 0

-- Whether the runner has taken a request and not yet answered it.
abbrev pub is_busy : Runner → Bool
is_busy unstarted = false
is_busy idle = false
is_busy ticking = false
is_busy (resolving req) = true
is_busy satisfying = true
is_busy exited = false

abbrev pub is_exited : Runner → Bool
is_exited unstarted = false
is_exited idle = false
is_exited ticking = false
is_exited (resolving req) = false
is_exited satisfying = false
is_exited exited = true

abbrev pub tokens : DohState → ℕ
tokens s = one (is_some s.require) + one (is_busy s.runner) + one s.satisfy

abbrev pub IsCovered : DohState → Type 0
IsCovered s = (s.canceled ≡ true) ⊎ ((s.waiting ≤ tokens s) × (is_exited s.runner ≡ false))

abbrev pub is_give_up : Event → Bool
is_give_up give_up = true
is_give_up _ = false

-- No answer is on its way that nobody waits for.
abbrev pub IsExact : DohState → Type 0
IsExact s = (s.canceled ≡ true) ⊎ (s.waiting ≡ tokens s)

module _ (net : NetLib) (host : Bytes) where
  pub step-IsExact :
      (s s' : DohState) (e : Event)
      → is_give_up e ≡ false
      → step net host s e ≡ some s'
      → IsExact s
      → IsExact s'
  unfolding step
  step-IsExact s s' start o h c = ground arith
  step-IsExact s s' tick o h c = ground arith
  step-IsExact s s' (ticked replies) o h c = ground arith
  step-IsExact s s' take o h c = ground arith
  step-IsExact s s' (resolved replies) o h c = ground arith
  step-IsExact s s' satisfied o h c = ground arith
  step-IsExact s s' dropped o h c = ground arith
  step-IsExact s s' halt o h c = ground arith
  step-IsExact s s' ask o h c = ground arith
  step-IsExact s s' (send req) o h c = ground arith
  step-IsExact s s' turn_away o h c = ground arith
  step-IsExact s s' receive o h c = ground arith
  step-IsExact s s' cancel_ask o h c = ground arith
  step-IsExact s s' cancel_wait o h c = ground arith
  step-IsExact s s' exit o h c = ground arith
  step-IsExact s s' give_up o h c = cc

  pub step-IsCovered :
      (s s' : DohState) (e : Event) → step net host s e ≡ some s' → IsCovered s → IsCovered s'
  unfolding step
  step-IsCovered s s' start h c = ground arith
  step-IsCovered s s' tick h c = ground arith
  step-IsCovered s s' (ticked replies) h c = ground arith
  step-IsCovered s s' take h c = ground arith
  step-IsCovered s s' (resolved replies) h c = ground arith
  step-IsCovered s s' satisfied h c = ground arith
  step-IsCovered s s' dropped h c = ground arith
  step-IsCovered s s' halt h c = ground arith
  step-IsCovered s s' ask h c = ground arith
  step-IsCovered s s' (send req) h c = ground arith
  step-IsCovered s s' turn_away h c = ground arith
  step-IsCovered s s' receive h c = ground arith
  step-IsCovered s s' give_up h c = ground arith
  step-IsCovered s s' cancel_ask h c = ground arith
  step-IsCovered s s' cancel_wait h c = ground arith
  step-IsCovered s s' exit h c = ground arith

  -- Until `Exit`, at most three calls of `getClient` wait for a resolution at a time, never more than there are
  -- requests and answers on their way to them, and the goroutine of `run` has not ended.
  pub run-tokens :
      (clients : List Bytes) (es : List Event) (s : DohState)
      → run (step net host) (new_caller clients) es ≡ some s
      → s.canceled ≡ false
      → (s.waiting ≤ tokens s) × (tokens s ≤ 3) × (is_exited s.runner ≡ false)
  run-tokens clients es s h live = still s live (
      run-keeps (step net host) IsCovered step-IsCovered es (new_caller clients) s h
        (inr (ground arith, refl)))
    where
      still :
          (s : DohState)
          → s.canceled ≡ false
          → IsCovered s
          → (s.waiting ≤ tokens s) × (tokens s ≤ 3) × (is_exited s.runner ≡ false)
      still s live c = ground arith
