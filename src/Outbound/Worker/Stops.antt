-- ===== src/Outbound/Worker/Stops.antt =====
-- outbound/groups.go: a group's goroutines after `Stop`.
use ts_dns.Common.{
  ℕ, ◌+◌, ◌≤◌, ◌<◌, ◌≡◌, refl, ◌⊎◌, sym, ap, ◌∙◌, Bool, true, false, Option, none, some, List, [],
  ◌++◌, arith, length, All, append-nil, run, run-keeps, run-settles, Moves, try_own, or_else,
  some_inj, inl,
}
use mathlib.Core.Path.{subst}
use ts_dns.Dns.{Msg, NetLib}
use ts_dns.Outbound.Worker.{
  IpSets, Worker, unstarted, listening, draining, ended, Updater, absent, waiting, refreshing,
  quitted, GroupState, new_group, capacity, post_process, Event, begin, post, take, notice, finish,
  tick, refreshed, quit, stop, step, has_ended, is_stopped,
}
use ts_dns.Outbound.Worker.Queues.{IsFifo, step-IsFifo, run-IsFifo, post-IsSameRun}

-- A step of the group's goroutines, which needs no response, no tick and no call.
abbrev pub is_own : Event → Bool
is_own take = true
is_own notice = true
is_own finish = true
is_own refreshed = true
is_own quit = true
is_own _ = false

abbrev worker_rank : Worker → ℕ
worker_rank unstarted = 0
worker_rank listening = 2
worker_rank draining = 1
worker_rank ended = 0

abbrev updater_rank : Updater → ℕ
updater_rank absent = 0
updater_rank waiting = 1
updater_rank refreshing = 2
updater_rank quitted = 0

abbrev pub rank : GroupState → ℕ
rank s = length s.queue + worker_rank s.worker + updater_rank s.updater

abbrev is_started : Worker → Bool
is_started unstarted = false
is_started _ = true

module _ (net : NetLib) (sets : IpSets) where
  step-rank :
      (s s' : GroupState) (e : Event)
      → is_own e ≡ true
      → step net sets s e ≡ some s'
      → rank s' < rank s
  unfolding step
  step-rank s s' take o h = ground arith
  step-rank s s' notice o h = ground arith
  step-rank s s' finish o h = ground arith
  step-rank s s' refreshed o h = ground arith
  step-rank s s' quit o h = ground arith
  step-rank s s' (begin url list) o h = cc
  step-rank s s' (post resp) o h = cc
  step-rank s s' tick o h = cc
  step-rank s s' stop o h = cc

  -- `Stop` closes `stopCh` only in a started group.
  abbrev IsOrdered : GroupState → Type 0
  IsOrdered s = (s.stop_closed ≡ false) ⊎ (is_started s.worker ≡ true)

  post-IsOrdered :
      (resp : Option Msg) (s : GroupState) → IsOrdered s → IsOrdered (post_process net sets s resp)
  post-IsOrdered resp s o =
      let (closed, worker, updater, handled) = post-IsSameRun net sets resp s in
      ground (arith, closed, worker, o)

  step-IsOrdered :
      (s s' : GroupState) (e : Event) → step net sets s e ≡ some s' → IsOrdered s → IsOrdered s'
  unfolding step
  step-IsOrdered s s' (begin url list) h o = ground arith
  step-IsOrdered s s' (post resp) h o = subst IsOrdered (some_inj h) (post-IsOrdered resp s o)
  step-IsOrdered s s' take h o = ground arith
  step-IsOrdered s s' notice h o = ground arith
  step-IsOrdered s s' finish h o = ground arith
  step-IsOrdered s s' tick h o = ground arith
  step-IsOrdered s s' refreshed h o = ground arith
  step-IsOrdered s s' quit h o = ground arith
  step-IsOrdered s s' stop h o = ground arith

  -- What holds between `Stop` and the end of the goroutines.
  abbrev IsStopping : GroupState → Type 0
  IsStopping s =
      ((s.stop_closed ≡ true)
        × (is_started s.worker ≡ true)
        × ((has_ended s.worker ≡ false) ⊎ (s.queue ≡ [])))
      × IsFifo s

  step-IsStopping :
      (s s' : GroupState) (e : Event)
      → is_own e ≡ true
      → step net sets s e ≡ some s'
      → IsStopping s
      → IsStopping s'
  unfolding step
  step-IsStopping s s' e o h (p, f) = (go e o h p, step-IsFifo net sets s s' e h f)
    where
      go :
          (e : Event)
          → is_own e ≡ true
          → step net sets s e ≡ some s'
          → (s.stop_closed ≡ true)
            × (is_started s.worker ≡ true)
            × ((has_ended s.worker ≡ false) ⊎ (s.queue ≡ []))
          → (s'.stop_closed ≡ true)
            × (is_started s'.worker ≡ true)
            × ((has_ended s'.worker ≡ false) ⊎ (s'.queue ≡ []))
      go take o h p = ground arith
      go notice o h p = ground arith
      go finish o h p = ground arith
      go refreshed o h p = ground arith
      go quit o h p = ground arith
      go (begin url list) o h p = cc
      go (post resp) o h p = cc
      go tick o h p = cc
      go stop o h p = cc

  -- The goroutines have ended, and every task that entered the channel was handled, in order.
  abbrev pub IsDone : GroupState → Type 0
  IsDone s = (is_stopped s ≡ true) × (s.handled ≡ s.accepted)

  all_stuck :
      (s : GroupState)
      → IsStopping s
      → step net sets s take ≡ none
      → step net sets s notice ≡ none
      → step net sets s finish ≡ none
      → step net sets s refreshed ≡ none
      → step net sets s quit ≡ none
      → (is_stopped s ≡ true) × (s.queue ≡ [])
  unfolding step is_stopped
  all_stuck s p h1 h2 h3 h4 h5 = ground arith

  progress : (s : GroupState) → IsStopping s → IsDone s ⊎ Moves (step net sets) is_own s
  progress s p = or_else (try_own (step net sets) is_own s take refl) λ h1.
      or_else (try_own (step net sets) is_own s notice refl) λ h2.
        or_else (try_own (step net sets) is_own s finish refl) λ h3.
          or_else (try_own (step net sets) is_own s refreshed refl) λ h4.
            or_else (try_own (step net sets) is_own s quit refl) λ h5.
              let (stopped, empty) = all_stuck s p h1 h2 h3 h4 h5 in
              inl (stopped, sym (p.1.0 ∙ ap (λ q. s.handled ++ q) empty ∙ append-nil s.handled))

  -- After `Stop` of a started group, whatever happened before: as long as its worker has not ended, the steps that its
  -- goroutines take by themselves, in any order, are at most 1028 in number and can be continued within
  -- these to the end of both goroutines, for which `Stop` waits; then every task that had entered
  -- the channel has been handled, in order.
  pub run-IsDone :
      (before own : List Event) (s s' : GroupState)
      → run (step net sets) new_group before ≡ some s
      → s.stop_closed ≡ true
      → has_ended s.worker ≡ false
      → All (λ e. is_own e ≡ true) own
      → run (step net sets) s own ≡ some s'
      → (more : List Event) × (s'' : GroupState) × All (λ e. is_own e ≡ true) more
        × (run (step net sets) s' more ≡ some s'')
        × (length own + length more ≤ 1028)
        × IsDone s''
  run-IsDone before own s s' h closed busy os h' =
      let fifo = run-IsFifo net sets before s h in
      let ordered =
        run-keeps (step net sets) IsOrdered step-IsOrdered before new_group s h (inl refl) in
      let (more, s'', ms, h'', n, d) =
        run-settles (step net sets) is_own rank IsStopping step-IsStopping step-rank IsDone progress
          own s s' (after_stop s closed busy ordered, fifo) os h' in
      (more, s'', ms, h'', omega (arith, n, rank-bound s fifo.1), d)
    where
      after_stop :
          (s : GroupState)
          → s.stop_closed ≡ true
          → has_ended s.worker ≡ false
          → IsOrdered s
          → (s.stop_closed ≡ true)
            × (is_started s.worker ≡ true)
            × ((has_ended s.worker ≡ false) ⊎ (s.queue ≡ []))
      after_stop s closed busy o = ground arith

      rank-bound : (s : GroupState) → length s.queue ≤ capacity → rank s ≤ 1028
      rank-bound s n = ground arith
