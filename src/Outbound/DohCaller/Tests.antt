-- ===== src/Outbound/DohCaller/Tests.antt =====
-- The theorems about the DNS-over-HTTPS caller at concrete runs.
use ts_dns.Common.{
  ◌+◌, ◌*◌, ◌≤◌, ◌≡◌, refl, true, false, Option, none, some, List, [], ◌∷◌, All, length, run, Bytes,
  codes, is_some, arith,
}
use ts_dns.Dns.{a, Msg}
use ts_dns.Outbound.Addresses.{clients_of}
use ts_dns.Outbound.Hijack.{is_nil}
use ts_dns.Outbound.DohCaller.{
  DohState, Event, start, take, resolved, satisfied, ask, send, receive, turn_away, give_up,
  new_caller, resolve_requests, collect, resolve, step, get_client, idle, resolving, satisfying,
}
use ts_dns.Outbound.DohCaller.Tokens.{is_exited, tokens, run-tokens}
use ts_dns.Outbound.DohCaller.Drains.{IsSettled, run-IsSettled}
use ts_dns.Outbound.DohCaller.Rests.{IsJammed}
use ts_dns.Outbound.DohCaller.Jams.{three_calls, jammed, run-IsJammed}
use ts_dns.Outbound.DohCaller.Ranks.{is_own}
use ts_dns.Outbound.DohCaller.Resolves.{resolve-resolve_requests, run-get_client, get_client-stale}
use ts_dns.Samples.{sample_net, hdr, ask as question}

abbrev host : Bytes
host = codes "dns.cn"

abbrev query : Msg
query = question (codes "x.cn.") 1

-- Two calls wait, and a resolution is under way.
abbrev asked : List Event
asked = start ∷ ask ∷ ask ∷ send query ∷ take ∷ send query ∷ []

abbrev asking_two : DohState
asking_two = record (new_caller []) { require = some query; runner = resolving query; waiting = 2 }

asked_two : run (step sample_net host) (new_caller []) asked ≡ some asking_two
unfolding run step
asked_two = refl

run-tokens_example :
    (asking_two.waiting ≤ tokens asking_two)
    × (tokens asking_two ≤ 3)
    × (is_exited asking_two.runner ≡ false)
run-tokens_example = run-tokens sample_net host [] asked asking_two asked_two refl

abbrev reply : Msg
reply = record query { answer = a (hdr 1 60) (codes "9.9.9.9") ∷ [] }

abbrev replies : List (Option Msg)
replies = none ∷ some reply ∷ []

abbrev found : DohState
found = record asking_two { runner = satisfying; clients = codes "9.9.9.9" ∷ [] }

found_one : run (step sample_net host) asking_two (resolved replies ∷ []) ≡ some found
unfolding run step
found_one = refl

run-IsSettled_example :
    (more : List Event) × (s : DohState) × All (λ e. is_own e ≡ true) more
    × (run (step sample_net host) found more ≡ some s)
    × (1 + length more ≤ 9 + 6 * 0 + 2)
    × IsSettled sample_net host query false s
run-IsSettled_example =
    run-IsSettled sample_net host query [] asked (resolved replies ∷ []) asking_two found asked_two
      refl (refl, tt) found_one

resolve-resolve_requests_example :
    All (λ req. resolve sample_net host (some req) replies [] ≡ []) (resolve_requests host)
unfolding resolve_requests
resolve-resolve_requests_example = resolve-resolve_requests sample_net host [] replies refl

abbrev answered : DohState
answered = record found { runner = idle; satisfy = false; waiting = 1 }

answered_one : run (step sample_net host) found (satisfied ∷ receive ∷ []) ≡ some answered
unfolding run step
answered_one = refl

run-get_client_example :
    (is_nil answered.clients ≡ false) × (is_some (get_client answered 0) ≡ true)
run-get_client_example =
    run-get_client sample_net host (satisfied ∷ receive ∷ []) found answered 0 refl answered_one
      (omega arith)

abbrev resolver : DohState
resolver = record (new_caller (codes "9.9.9.9" ∷ [])) { runner = idle }

started :
    run
      (step sample_net (codes "9.9.9.9"))
      (new_caller (clients_of sample_net (codes "9.9.9.9")))
      (start ∷ [])
    ≡ some resolver
unfolding run step
started = refl

get_client-stale_example :
    (s : DohState) × (run (step sample_net host) (new_caller []) (
        start
        ∷ ask
        ∷ send query
        ∷ take
        ∷ give_up
        ∷ resolved (none ∷ [])
        ∷ satisfied
        ∷ ask
        ∷ send query
        ∷ receive
        ∷ [])
      ≡ some s)
    × (s.require ≡ some query)
    × (s.runner ≡ idle)
    × (get_client s 0 ≡ none)
unfolding collect
get_client-stale_example = get_client-stale sample_net host query query 0 (none ∷ []) refl refl

abbrev asking_jammed : DohState
asking_jammed = record (jammed query) { asking = 1 }

jammed_runs :
    run (step sample_net host) (jammed query) (ask ∷ ask ∷ turn_away ∷ []) ≡ some asking_jammed
unfolding run step
jammed_runs = refl

run-IsJammed_example :
    (run
        (step sample_net host)
        (new_caller [])
        (three_calls query query query (none ∷ []) (none ∷ []))
      ≡ some (jammed query))
    × IsJammed asking_jammed
    × (asking_jammed.clients ≡ [])
    × ((req : Msg) → step sample_net host asking_jammed (send req) ≡ none)
unfolding collect
run-IsJammed_example =
    run-IsJammed sample_net host query query query (none ∷ []) (none ∷ [])
      (ask ∷ ask ∷ turn_away ∷ []) asking_jammed refl refl refl (refl, (refl, (refl, tt)))
      jammed_runs
