-- ===== src/Outbound/DohCaller.antt =====
-- outbound/caller.go: `DoHCallerV2`: `Start`, `run`, `resolve`, `getClient`, `Exit`. A client is the host that it
-- dials. The goroutine of `run` and the calls of `getClient` take turns in steps: a channel operation, or
-- a read or write of `clients` under the lock. Only `run` writes `clients`, so its read of them is one
-- step with the receive before it. Both channels have one place. A call's context may end at any time.
use ts_dns.Common.{
  ℕ, suc, ◌+◌, ◌-◌, Bool, true, false, not, ◌&&◌, ◌||◌, Option, none, some, List, [], ◌∷◌, ◌++◌,
  if◌then◌else◌, leb, length, map, Bytes, codes, dot, equal_fold, get_elem?, is_some, ◌>>=◌,
}
use ts_dns.Dns.{Rr, a, aaaa, cname, opt, other, type_a, type_aaaa, Question, Msg, NetLib}
use ts_dns.Outbound.Hijack.{is_nil}
mod Tokens
mod Ranks
mod Rests
mod Drains
mod Jams
mod Resolves
mod Tests

-- Where the goroutine of `run` stands.
pub data Runner : Type 0 where
  unstarted : Runner
  idle : Runner
  ticking : Runner
  resolving : Msg → Runner
  satisfying : Runner
  exited : Runner

-- A caller, with the numbers of its `getClient` calls at the first and at the second `select`.
pub record DohState : Type 0 where
  pub clients : List Bytes
  pub require : Option Msg
  pub satisfy : Bool
  pub canceled : Bool
  pub runner : Runner
  pub asking : ℕ
  pub waiting : ℕ

-- What happens next. The replies of a resolution come in the order of their arrival, a nil message for
-- one that times out. A call leaves its first `select` by `send`, `turn_away` (its context has ended) or
-- `cancel_ask`, and its second one by `receive`, `give_up` (its context has ended) or `cancel_wait`.
pub data Event : Type 0 where
  start : Event
  tick : Event
  ticked : List (Option Msg) → Event
  take : Event
  resolved : List (Option Msg) → Event
  satisfied : Event
  dropped : Event
  halt : Event
  ask : Event
  send : Msg → Event
  turn_away : Event
  receive : Event
  give_up : Event
  cancel_ask : Event
  cancel_wait : Event
  exit : Event

-- As `NewDoHCallerV2` leaves it.
abbrev pub new_caller : List Bytes → DohState
new_caller clients = record {
  clients = clients;
  require = none;
  satisfy = false;
  canceled = false;
  runner = unstarted;
  asking = 0;
  waiting = 0;
}

-- The requests that `resolve` gives to the resolver.
abbrev pub address_request : Bytes → ℕ → Msg
address_request host qtype = record {
  id = 0xffff;
  rcode = 0;
  question = record { name = host ++ dot ∷ []; qtype = qtype; qclass = 1 } ∷ [];
  answer = [];
  ns = [];
  extra = [];
}

unfoldable pub resolve_requests : Bytes → List Msg
resolve_requests host = map (address_request host) (type_a ∷ type_aaaa ∷ [])

-- The recursion guard of `resolve`.
abbrev asks_name : List Question → Bytes → Bool
asks_name [] name = false
asks_name (q ∷ qs) name = equal_fold q.name name

unfoldable pub is_recursive : Bytes → Option Msg → Bool
unfolding equal_fold
is_recursive host none = false
is_recursive host (some req) = asks_name req.question (host ++ dot ∷ [])

module _ (net : NetLib) where
  unfoldable pub addresses : List Rr → List Bytes
  addresses [] = []
  addresses (a h ip ∷ rest) = net.ip_string ip ∷ addresses rest
  addresses (aaaa h ip ∷ rest) = net.ip_string ip ∷ addresses rest
  addresses (cname h t ∷ rest) = addresses rest
  addresses (opt h os ∷ rest) = addresses rest
  addresses (other h raw ∷ rest) = addresses rest

  unfoldable pub collect : List (Option Msg) → List Bytes
  unfolding addresses
  collect [] = []
  collect (none ∷ replies) = collect replies
  collect (some m ∷ replies) = addresses m.answer ++ collect replies

  -- `resolve`: the clients that it leaves.
  abbrev replace : List Bytes → List Bytes → List Bytes
  replace clients [] = clients
  replace clients (c ∷ cs) = c ∷ cs

  unfoldable pub resolve : Bytes → Option Msg → List (Option Msg) → List Bytes → List Bytes
  unfolding collect is_recursive
  resolve host src_req replies clients = elim (net.parse_ip host) [
    | some ip ↦ net.ip_string ip ∷ []
    | none ↦ if is_recursive host src_req then clients else replace clients (collect replies)
  ]

  -- One step; `none` when it cannot be taken now.
  unfoldable pub step : Bytes → DohState → Event → Option DohState
  unfolding resolve
  step host s start = elim s.runner [ unstarted ↦ some (record s { runner = idle }) | _ ↦ some s ]
  step host s tick = elim s.runner [ idle ↦ some (record s { runner = ticking }) | _ ↦ none ]
  step host s (ticked replies) = elim s.runner [
    | ticking ↦ some (record s { runner = idle; clients = resolve host none replies s.clients })
    | _ ↦ none
  ]
  step host s take = elim s.runner [
    | idle ↦ elim s.require [
      | none ↦ none
      | some req ↦ some (record s {
        require = none;
        runner = if is_nil s.clients then resolving req else satisfying;
      })
    ]
    | _ ↦ none
  ]
  step host s (resolved replies) = elim s.runner [
    | resolving req ↦
        some (record s { runner = satisfying; clients = resolve host (some req) replies s.clients })
    | _ ↦ none
  ]
  step host s satisfied = elim s.runner [
    | satisfying ↦ if s.satisfy then none else some (record s { runner = idle; satisfy = true })
    | _ ↦ none
  ]
  step host s dropped = elim s.runner [
    | satisfying ↦ if s.canceled then some (record s { runner = idle }) else none
    | _ ↦ none
  ]
  step host s halt = elim s.runner [
    | idle ↦ if s.canceled then some (record s { runner = exited }) else none
    | _ ↦ none
  ]
  step host s ask = if is_nil s.clients then some (record s { asking = suc s.asking }) else none
  step host s (send req) = elim s.require [
    | some other_req ↦ none
    | none ↦
        if leb 1 s.asking
        then some (record s { asking = s.asking - 1; require = some req; waiting = suc s.waiting })
        else none
  ]
  step host s turn_away = if leb 1 s.asking then some (record s { asking = s.asking - 1 }) else none
  step host s receive =
      if leb 1 s.waiting && s.satisfy
      then some (record s { waiting = s.waiting - 1; satisfy = false })
      else none
  step host s give_up =
      if leb 1 s.waiting then some (record s { waiting = s.waiting - 1 }) else none
  step host s cancel_ask =
      if leb 1 s.asking && s.canceled then some (record s { asking = s.asking - 1 }) else none
  step host s cancel_wait =
      if leb 1 s.waiting && s.canceled then some (record s { waiting = s.waiting - 1 }) else none
  step host s exit = some (record s { canceled = true })

-- What `getClient` returns, at once or after `receive`, for the number that `fastrand` gives; `none` is nil.
unfoldable pub get_client : DohState → ℕ → Option Bytes
get_client s random = get_elem? s.clients random
