-- ===== src/Outbound/DohCaller/Resolves.antt =====
-- outbound/caller.go: what `resolve` does to the clients, and what `getClient` gets.
use ts_dns.Common.{
  ℕ, zero, suc, ◌<◌, ◌≡◌, refl, sym, ap, true, false, Option, none, some, List, [], ◌∷◌, ◌++◌,
  arith, Bytes, dot, is_some, length, get_elem?, run, run-keeps, All,
}
use mathlib.Core.Path.{subst}
use ts_dns.Dns.{type_a, type_aaaa, Msg, Ip, NetLib}
use ts_dns.Outbound.Hijack.{is_nil}
use ts_dns.Outbound.Hijack.Suffixes.{equal_fold_self}
use ts_dns.Outbound.Addresses.{clients_of}
use ts_dns.Outbound.DohCaller.{
  Runner, idle, resolving, satisfying, DohState, Event, start, tick, ticked, take, resolved,
  satisfied, dropped, halt, ask, send, turn_away, receive, give_up, cancel_ask, cancel_wait, exit,
  new_caller, address_request, resolve_requests, is_recursive, collect, resolve, step, get_client,
}

pub get_elem?-is_some :
    {A : Type 0} (xs : List A) (i : ℕ) → i < length xs → is_some (get_elem? xs i) ≡ true
get_elem?-is_some [] i h = ground arith
get_elem?-is_some (x ∷ xs) zero h = refl
get_elem?-is_some (x ∷ xs) (suc i) h = get_elem?-is_some xs i (omega (arith, h))

module _ (net : NetLib) (host : Bytes) where
  -- The guard against recursion knows both requests that `resolve` itself sends: when one of them comes
  -- back to the caller, no reply changes the clients. The host is a name, not an address.
  pub resolve-resolve_requests :
      (clients : List Bytes) (replies : List (Option Msg))
      → net.parse_ip host ≡ none
      → All (λ req. resolve net host (some req) replies clients ≡ clients) (resolve_requests host)
  unfolding resolve resolve_requests is_recursive
  resolve-resolve_requests clients replies name = (own type_a, (own type_aaaa, tt))
    where
      own :
          (qtype : ℕ)
          → resolve net host (some (address_request host qtype)) replies clients ≡ clients
      own qtype = ground (arith, name, equal_fold_self (host ++ dot ∷ []))

  abbrev request_of : Runner → Option Msg
  request_of (resolving req) = some req
  request_of _ = none

  resolved_clients :
      (s s' : DohState) (replies : List (Option Msg))
      → step net host s (resolved replies) ≡ some s'
      → s'.clients ≡ resolve net host (request_of s.runner) replies s.clients
  unfolding step
  resolved_clients s s' replies h = ground arith

  -- The clients of a run.
  module _ (P : List Bytes → Type 0)
      (kept : (o : Option Msg) (replies : List (Option Msg)) (clients : List Bytes)
        → P clients
        → P (resolve net host o replies clients)) where
    step-clients :
        (s s' : DohState) (e : Event) → step net host s e ≡ some s' → P s.clients → P s'.clients
    unfolding step
    step-clients s s' start h c = ground arith
    step-clients s s' tick h c = ground arith
    step-clients s s' (ticked replies) h c = ground (arith, kept none replies s.clients c)
    step-clients s s' take h c = ground arith
    step-clients s s' (resolved replies) h c =
        subst P (sym (resolved_clients s s' replies h))
          (kept (request_of s.runner) replies s.clients c)
    step-clients s s' satisfied h c = ground arith
    step-clients s s' dropped h c = ground arith
    step-clients s s' halt h c = ground arith
    step-clients s s' ask h c = ground arith
    step-clients s s' (send req) h c = ground arith
    step-clients s s' turn_away h c = ground arith
    step-clients s s' receive h c = ground arith
    step-clients s s' give_up h c = ground arith
    step-clients s s' cancel_ask h c = ground arith
    step-clients s s' cancel_wait h c = ground arith
    step-clients s s' exit h c = ground arith

    run-clients :
        (es : List Event) (s s' : DohState)
        → run (step net host) s es ≡ some s'
        → P s.clients
        → P s'.clients
    run-clients = run-keeps (step net host) (λ s. P s.clients) step-clients

  resolve-not_nil :
      (o : Option Msg) (replies : List (Option Msg)) (clients : List Bytes)
      → is_nil clients ≡ false
      → is_nil (resolve net host o replies clients) ≡ false
  unfolding resolve
  resolve-not_nil o replies clients h = ground arith

  -- A caller that has a client never loses its last one, whatever its resolutions give, so from
  -- then on `getClient` returns a client for every number below their count.
  pub run-get_client :
      (es : List Event) (s s' : DohState) (random : ℕ)
      → is_nil s.clients ≡ false
      → run (step net host) s es ≡ some s'
      → random < length s'.clients
      → (is_nil s'.clients ≡ false) × (is_some (get_client s' random) ≡ true)
  unfolding get_client
  run-get_client es s s' random h r lt = (
    run-clients (λ cs. is_nil cs ≡ false) resolve-not_nil es s s' r h,
    get_elem?-is_some s'.clients random lt,
  )

  resolve-address :
      (ip : Ip) (o : Option Msg) (replies : List (Option Msg)) (clients : List Bytes)
      → net.parse_ip host ≡ some ip
      → resolve net host o replies clients ≡ net.ip_string ip ∷ []
  unfolding resolve
  resolve-address ip o replies clients h = rw (h, resolve) refl

  -- The caller of a URL whose host is an address has the client of this address in every state that it
  -- reaches, and no call asks for a resolution.
  pub run-clients_of :
      (ip : Ip) (es : List Event) (s : DohState)
      → net.parse_ip host ≡ some ip
      → run (step net host) (new_caller (clients_of net host)) es ≡ some s
      → (s.clients ≡ net.ip_string ip ∷ []) × (step net host s ask ≡ none)
  unfolding step
  run-clients_of ip es s h r =
      let start : clients_of net host ≡ net.ip_string ip ∷ [] = rw (h, clients_of) refl in
      let same =
        run-clients (λ cs. cs ≡ net.ip_string ip ∷ [])
          (λ o replies cs e. resolve-address ip o replies cs h) es
          (new_caller (clients_of net host)) s r start in
      (same, rw same refl)

  pub no_address :
      (o : Option Msg) (replies : List (Option Msg))
      → net.parse_ip host ≡ none
      → collect net replies ≡ []
      → resolve net host o replies [] ≡ []
  unfolding resolve
  no_address o replies name nothing = ground arith

  abbrev after : List Bytes → DohState
  after clients = record (new_caller clients) { runner = satisfying }

  abbrev stale_caller : Msg → DohState
  stale_caller req = record (new_caller []) { require = some req; runner = idle }

  -- An answer that nobody fetched is taken by the next call: a call gives up after its request was taken,
  -- its resolution finds no address, and then the next call of `getClient` returns nil while its own
  -- request still waits to be taken. This holds for any two requests and replies without addresses.
  pub get_client-stale :
      (old req : Msg) (random : ℕ) (replies : List (Option Msg))
      → net.parse_ip host ≡ none
      → collect net replies ≡ []
      → (s : DohState) × (run (step net host) (new_caller []) (
            start
            ∷ ask
            ∷ send old
            ∷ take
            ∷ give_up
            ∷ resolved replies
            ∷ satisfied
            ∷ ask
            ∷ send req
            ∷ receive
            ∷ [])
          ≡ some s)
        × (s.require ≡ some req)
        × (s.runner ≡ idle)
        × (get_client s random ≡ none)
  unfolding run step resolve get_client
  get_client-stale old req random replies name nothing = (
    stale_caller req,
    ap (λ cs. run (step net host) (after cs) (satisfied ∷ ask ∷ send req ∷ receive ∷ []))
        (no_address (some old) replies name nothing),
    refl,
    refl,
    refl,
  )
