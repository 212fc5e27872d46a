-- ===== src/Outbound/DohCaller/Ranks.antt =====
-- outbound/caller.go: the steps that `run` and the calls of `getClient` take by themselves, and how many they are.
use ts_dns.Common.{ℕ, ◌+◌, ◌*◌, ◌<◌, ◌≤◌, ◌≡◌, Bool, true, false, some, arith, Bytes, is_some}
use ts_dns.Dns.{NetLib}
use ts_dns.Outbound.DohCaller.{
  Runner, unstarted, idle, ticking, resolving, satisfying, exited, DohState, Event, start, tick,
  ticked, take, resolved, satisfied, dropped, halt, ask, send, turn_away, receive, give_up,
  cancel_ask, cancel_wait, exit, step,
}
use ts_dns.Outbound.DohCaller.Tokens.{one}

-- A step that needs no new call, no end of a context and no tick.
abbrev pub is_own : Event → Bool
is_own (ticked replies) = true
is_own take = true
is_own (resolved replies) = true
is_own satisfied = true
is_own dropped = true
is_own halt = true
is_own (send req) = true
is_own receive = true
is_own cancel_ask = true
is_own cancel_wait = true
is_own _ = false

abbrev runner_rank : Runner → ℕ
runner_rank unstarted = 1
runner_rank idle = 1
runner_rank ticking = 2
runner_rank (resolving req) = 4
runner_rank satisfying = 3
runner_rank exited = 0

abbrev pub rank : DohState → ℕ
rank s =
    6 * s.asking + 4 * one (is_some s.require) + runner_rank s.runner + one s.satisfy + s.waiting

pub rank-bound : (s : DohState) → rank s ≤ 9 + 6 * s.asking + s.waiting
rank-bound s = ground arith

module _ (net : NetLib) (host : Bytes) where
  pub step-rank :
      (s s' : DohState) (e : Event)
      → is_own e ≡ true
      → step net host s e ≡ some s'
      → rank s' < rank s
  unfolding step
  step-rank s s' (ticked replies) o h = ground arith
  step-rank s s' take o h = ground arith
  step-rank s s' (resolved replies) o h = ground arith
  step-rank s s' satisfied o h = ground arith
  step-rank s s' dropped o h = ground arith
  step-rank s s' halt o h = ground arith
  step-rank s s' (send req) o h = ground arith
  step-rank s s' receive o h = ground arith
  step-rank s s' cancel_ask o h = ground arith
  step-rank s s' cancel_wait o h = ground arith
  step-rank s s' start o h = cc
  step-rank s s' tick o h = cc
  step-rank s s' ask o h = cc
  step-rank s s' turn_away o h = cc
  step-rank s s' give_up o h = cc
  step-rank s s' exit o h = cc
