-- ===== src/Outbound/Queries.antt =====
-- outbound/groups.go: how a group asks its callers (`Handle`, `runCallerAttempt`, `firstResponse`,
-- `fastestResp`). The callers, the measuring of addresses and the deadline are parameters. The callers
-- run at the same time: an arrival is a caller with the time at which its result is there, the list of
-- arrivals is the order in which the results come before the context ends, and what callers that come
-- later do to the statistics is not part of the result.
use ts_dns.Common.{
  ℕ, suc, zero, Bool, true, false, not, ◌&&◌, ◌||◌, ◌==◌, leb, Option, none, some, List, [], ◌∷◌,
  ◌++◌, length, ◌+◌,
}
use ts_dns.Common.{if◌then◌else◌, any, Bytes, eq_bytes, to_lower, is_some}
use ts_dns.Dns.{
  Subnet, Rr, a, aaaa, cname, opt, other, type_a, type_aaaa, Question, Msg, DnsLib, NetLib,
}
use ts_dns.Utils.Ecs.{set_default_ecs, remove_edns_cookie}
use ts_dns.Utils.Loops.{delete_where}
use ts_dns.Outbound.Hijack.{HijackRule, process_hijack_rules}
use ts_dns.Outbound.CallerStats.{
  Stats, candidates_for_host, record_caller_success, record_caller_failure,
}
mod Arrivals
mod Tests

-- What `Call` returns: a message, `context.Canceled`, or another error or a nil message.
pub data CallResult : Type 0 where
  answered : Msg → CallResult
  canceled failed : CallResult

-- The fields of `groupImpl` that `Handle` reads.
pub record GroupConf : Type 0 where
  pub disable_qtypes : List ℕ
  pub no_cookie : Bool
  pub with_ecs : Option Subnet
  pub hijack_rules : List HijackRule
  pub callers : ℕ
  pub fastest_ip : Bool
  pub max_ping_ips : ℕ

abbrev pub first_qtype : List Question → ℕ
first_qtype [] = 0
first_qtype (q ∷ qs) = q.qtype

-- The text of an answer's address, if it is of the type asked for.
abbrev pub address_of : NetLib → ℕ → Rr → Bytes
address_of net qtype (a h ip) = if qtype == type_a then net.ip_string ip else []
address_of net qtype (aaaa h ip) = if qtype == type_aaaa then net.ip_string ip else []
address_of net qtype (cname h t) = []
address_of net qtype (opt h os) = []
address_of net qtype (other h raw) = []

-- Whether the last loop of `fastestResp` deletes a record.
abbrev pub is_slower : NetLib → ℕ → Bytes → Rr → Bool
is_slower net qtype fastest (a h ip) = qtype == type_a && not (eq_bytes (net.ip_string ip) fastest)
is_slower net qtype fastest (aaaa h ip) =
    qtype == type_aaaa && not (eq_bytes (net.ip_string ip) fastest)
is_slower net qtype fastest (cname h t) = false
is_slower net qtype fastest (opt h os) = false
is_slower net qtype fastest (other h raw) = false

-- The loop that collects addresses, at most `limit` and each once, with those it has.
unfoldable pub collect_ips : NetLib → ℕ → ℕ → List Bytes → List Rr → List Bytes
unfolding eq_bytes
collect_ips net qtype limit found [] = found
collect_ips net qtype limit found (rr ∷ rest) =
    let ip = address_of net qtype rr in
    let skipped = collect_ips net qtype limit found rest in
    let longer = collect_ips net qtype limit (found ++ ip ∷ []) rest in
    if eq_bytes ip [] || any (eq_bytes ip) found
    then skipped
    else if leb limit (length (found ++ ip ∷ []))
    then found ++ ip ∷ []
    else longer

abbrev pub ping_limit : ℕ → ℕ
ping_limit zero = 15
ping_limit (suc n) = suc n

module _ (dns : DnsLib) (net : NetLib) (g : GroupConf) (call : ℕ → Msg → CallResult) where
  -- `queryHost` of a request.
  abbrev pub query_host : Msg → Bytes
  query_host req = elim req.question [ [] ↦ [] | q ∷ qs ↦ to_lower (dns.fqdn q.name) ]

  -- `runCallerAttempt`.
  abbrev attempt_with : Bytes → ℕ × ℕ → Stats → CallResult → Stats × Option Msg
  attempt_with host (i, t) s (answered m) =
      (s, process_hijack_rules dns g.hijack_rules (some m) true)
  attempt_with host (i, t) s canceled = (s, none)
  attempt_with host (i, t) s failed = (record_caller_failure g.callers host i t s, none)

  unfoldable pub run_caller_attempt : Bytes → Msg → ℕ × ℕ → Stats → Stats × Option Msg
  unfolding process_hijack_rules record_caller_failure
  run_caller_attempt host req (i, t) s = attempt_with host (i, t) s (call i req)

  -- The loop of `firstResponse`, and the first one of `fastestResp`: the arrival that gave the message.
  unfoldable pub first_arrival : Bytes → Msg → List (ℕ × ℕ) → Stats → Stats × Option (Msg × ℕ × ℕ)
  unfolding run_caller_attempt
  first_arrival host req [] s = (s, none)
  first_arrival host req ((i, t) ∷ rest) s =
      let (s', r) = run_caller_attempt host req (i, t) s in
      elim r [ none ↦ first_arrival host req rest s' | some m ↦ (s', some (m, i, t)) ]

  -- `firstResponse`.
  abbrev record_success : Bytes → Stats × Option (Msg × ℕ × ℕ) → Stats × Option Msg
  record_success host (s, none) = (s, none)
  record_success host (s, some (m, i, t)) = (record_caller_success g.callers host i t s, some m)

  unfoldable pub first_response : Bytes → Msg → List (ℕ × ℕ) → Stats → Stats × Option Msg
  unfolding first_arrival record_caller_success
  first_response host req arrivals s = record_success host (first_arrival host req arrivals s)

  -- What `fastestResp` makes of the message; `measure` is `FastestPingIP` within what is left of
  -- the deadline, `none` its error or a deadline that has passed.
  unfoldable pub keep_fastest : (List Bytes → Option Bytes) → ℕ → Msg → Msg
  unfolding collect_ips delete_where eq_bytes
  keep_fastest measure qtype m =
      let ips = collect_ips net qtype (ping_limit g.max_ping_ips) [] m.answer in
      if leb (length ips) 1 then m else elim (measure ips) [
        | none ↦ m
        | some fastest ↦ record m { answer = delete_where (is_slower net qtype fastest) m.answer }
      ]

  -- How long the pings take: none are sent for fewer than two addresses.
  abbrev ping_time : (List Bytes → Option Bytes × ℕ) → ℕ → Msg → ℕ
  ping_time measure qtype m =
      let ips = collect_ips net qtype (ping_limit g.max_ping_ips) [] m.answer in
      if leb (length ips) 1 then 0 else (measure ips).1

  abbrev record_fastest :
      (List Bytes → Option Bytes × ℕ)
      → Bytes
      → ℕ
      → Stats × Option (Msg × ℕ × ℕ)
      → Stats × Option Msg
  record_fastest measure host qtype (s, none) = (s, none)
  record_fastest measure host qtype (s, some (m, i, t)) = (
    record_caller_success g.callers host i (t + ping_time measure qtype m) s,
    some (keep_fastest (λ ips. (measure ips).0) qtype m),
  )

  -- `fastestResp`: the success is recorded after the pings, which take the time that `measure` gives beside
  -- its result.
  unfoldable pub fastest_resp :
      (List Bytes → Option Bytes × ℕ) → Bytes → ℕ → Msg → List (ℕ × ℕ) → Stats → Stats × Option Msg
  unfolding first_arrival keep_fastest record_caller_success collect_ips
  fastest_resp measure host qtype req arrivals s =
      record_fastest measure host qtype (first_arrival host req arrivals s)

  -- The request as `Handle` sends it out.
  unfoldable pub outgoing : Msg → Option Msg
  unfolding remove_edns_cookie set_default_ecs process_hijack_rules
  outgoing req =
      let plain = if g.no_cookie then remove_edns_cookie (some req) else some req in
      process_hijack_rules dns g.hijack_rules (set_default_ecs dns plain g.with_ecs) false

  -- The rest of `Handle`, for the candidates' arrivals.
  abbrev pub ask_candidates :
      (List Bytes → Option Bytes × ℕ)
      → (List ℕ → List (ℕ × ℕ))
      → Msg
      → Stats × List ℕ
      → Stats × Option Msg
  ask_candidates measure arrive req (s, []) = (s, none)
  ask_candidates measure arrive req (s, c ∷ cs) =
      let qtype = first_qtype req.question in
      let arrivals = arrive (c ∷ cs) in
      if (qtype == type_a || qtype == type_aaaa) && g.fastest_ip
      then fastest_resp measure (query_host req) qtype req arrivals s
      else first_response (query_host req) req arrivals s

  abbrev pub handle_outgoing :
      (List Bytes → Option Bytes × ℕ)
      → (List ℕ → List (ℕ × ℕ))
      → ℕ
      → Stats
      → Option Msg
      → Stats × Option Msg
  handle_outgoing measure arrive now s none = (s, none)
  handle_outgoing measure arrive now s (some req) =
      ask_candidates measure arrive req (candidates_for_host g.callers (query_host req) now s)

  -- `Handle`.
  unfoldable pub handle :
      (List Bytes → Option Bytes × ℕ)
      → (List ℕ → List (ℕ × ℕ))
      → ℕ
      → Msg
      → Stats
      → Stats × Option Msg
  unfolding outgoing fastest_resp first_response candidates_for_host to_lower
  handle measure arrive now req s =
      if any (λ q. any (λ t. t == q.qtype) g.disable_qtypes) req.question
      then (s, none)
      else handle_outgoing measure arrive now s (outgoing req)
