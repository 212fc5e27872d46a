-- ===== src/Outbound/DohCaller/Jams.antt =====
-- outbound/caller.go: calls of `getClient` that give up leave their answers, until `run` cannot go on.
use ts_dns.Common.{
  ◌≡◌, refl, ap, ◌∙◌, false, Bool, true, none, some, Option, List, [], ◌∷◌, arith, Bytes, run,
  run-keeps_among, All,
}
use ts_dns.Dns.{Msg, NetLib}
use ts_dns.Outbound.DohCaller.{
  satisfying, DohState, Event, start, tick, ticked, take, resolved, satisfied, dropped, halt, ask,
  send, turn_away, receive, give_up, cancel_ask, cancel_wait, exit, new_caller, collect, step,
}
use ts_dns.Outbound.DohCaller.Rests.{IsJammed}
use ts_dns.Outbound.DohCaller.Resolves.{no_address}

abbrev pub is_exit : Event → Bool
is_exit exit = true
is_exit _ = false

abbrev pub IsDead : DohState → Type 0
IsDead s = IsJammed s × (s.canceled ≡ false) × (s.clients ≡ [])

-- The first call gives up while its request is resolved, the second before its request is taken, the
-- third after it has sent its own; both resolutions end with the given replies.
abbrev last_part : Msg → List (Option Msg) → List Event
last_part r3 replies = ask ∷ send r3 ∷ give_up ∷ resolved replies ∷ []

abbrev pub three_calls : Msg → Msg → Msg → List (Option Msg) → List (Option Msg) → List Event
three_calls r1 r2 r3 replies1 replies2 =
    start
    ∷ ask
    ∷ send r1
    ∷ take
    ∷ give_up
    ∷ ask
    ∷ send r2
    ∷ give_up
    ∷ resolved replies1
    ∷ satisfied
    ∷ take
    ∷ last_part r3 replies2

abbrev jammed_with : Msg → List Bytes → DohState
jammed_with r3 clients = record {
  clients = clients;
  require = some r3;
  satisfy = true;
  canceled = false;
  runner = satisfying;
  asking = 0;
  waiting = 0;
}

abbrev pub jammed : Msg → DohState
jammed r3 = jammed_with r3 []

abbrev resolved_once : Msg → List Bytes → DohState
resolved_once r2 clients = record (new_caller clients) { require = some r2; runner = satisfying }

module _ (net : NetLib) (host : Bytes) where
  step-IsDead :
      (s s' : DohState) (e : Event)
      → is_exit e ≡ false
      → step net host s e ≡ some s'
      → IsDead s
      → IsDead s'
  unfolding step
  step-IsDead s s' start o h d = ground arith
  step-IsDead s s' tick o h d = ground arith
  step-IsDead s s' (ticked replies) o h d = ground arith
  step-IsDead s s' take o h d = ground arith
  step-IsDead s s' (resolved replies) o h d = ground arith
  step-IsDead s s' satisfied o h d = ground arith
  step-IsDead s s' dropped o h d = ground arith
  step-IsDead s s' halt o h d = ground arith
  step-IsDead s s' ask o h d = ground arith
  step-IsDead s s' (send req) o h d = ground arith
  step-IsDead s s' turn_away o h d = ground arith
  step-IsDead s s' receive o h d = ground arith
  step-IsDead s s' give_up o h d = ground arith
  step-IsDead s s' cancel_ask o h d = ground arith
  step-IsDead s s' cancel_wait o h d = ground arith
  step-IsDead s s' exit o h d = cc

  three_calls_lem :
      (r1 r2 r3 : Msg) (replies1 replies2 : List (Option Msg))
      → net.parse_ip host ≡ none
      → collect net replies1 ≡ []
      → collect net replies2 ≡ []
      → run (step net host) (new_caller []) (three_calls r1 r2 r3 replies1 replies2)
        ≡ some (jammed r3)
  unfolding run step
  three_calls_lem r1 r2 r3 replies1 replies2 name nothing1 nothing2 =
      ap
        (λ cs. run (step net host) (resolved_once r2 cs) (satisfied ∷ take ∷ last_part r3 replies2))
        (no_address net host (some r1) replies1 name nothing1)
      ∙ ap (λ cs. some (jammed_with r3 cs)) (no_address net host (some r2) replies2 name nothing2)

  -- Three calls of `getClient` that give up can stop a caller for good. The host is a name, and the resolutions of
  -- the first two calls find no address: the first call gives up while its request is resolved, the
  -- second before its request is taken, the third after it has sent its own, although the answer to the first
  -- call is there for it, since `select` may choose the end of its context. Then both channels are full and
  -- the goroutine of `run` waits for room for its answer. Whatever happens afterwards short of `Exit`, it
  -- stays so: there is no client, and no later call of `getClient` can send its request.
  pub run-IsJammed :
      (r1 r2 r3 : Msg) (replies1 replies2 : List (Option Msg)) (later : List Event) (s : DohState)
      → net.parse_ip host ≡ none
      → collect net replies1 ≡ []
      → collect net replies2 ≡ []
      → All (λ e. is_exit e ≡ false) later
      → run (step net host) (jammed r3) later ≡ some s
      → (run (step net host) (new_caller []) (three_calls r1 r2 r3 replies1 replies2)
          ≡ some (jammed r3))
        × IsJammed s
        × (s.clients ≡ [])
        × ((req : Msg) → step net host s (send req) ≡ none)
  unfolding step
  run-IsJammed r1 r2 r3 replies1 replies2 later s name nothing1 nothing2 os h =
      let dead =
        run-keeps_among (step net host) (λ e. is_exit e ≡ false) IsDead
          (λ s s' e o h d. step-IsDead s s' e o h d) later (jammed r3) s os h
          ((refl, refl, refl, refl), refl, refl) in
      (
        three_calls_lem r1 r2 r3 replies1 replies2 name nothing1 nothing2,
        dead.0,
        dead.2,
        λ req. ground arith,
      )
