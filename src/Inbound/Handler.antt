-- ===== src/Inbound/Handler.antt =====
-- inbound/handler.go: `handle`, `ServeDNS` of `handlerImpl`, and the order of the groups. What a query
-- can change outside of the handler (the cache, the groups' statistics, the IP sets) is a state `S`; the
-- hosts, the cache, the groups and the redirector are interfaces, as they are in the source. The logging
-- and the deadline of the context are left out; a group that runs out of time gives no result.
use ts_dns.Common.{
  ℕ, Bool, true, false, not, ◌||◌, ◌==◌, Option, none, some, List, [], ◌∷◌, if◌then◌else◌, any,
  Bytes,
}
use ts_dns.Hosts.{less_bytes}
use ts_dns.Dns.{Question, Msg, DnsLib}
mod Handles
pub mod Orders
mod Tests

-- `outbound.IGroup`; the message of a `HandleResult`.
pub record Group (S : Type 0) : Type 0 where
  pub name : Bytes
  pub is_fallback : Bool
  pub has_gfw_list : Bool
  pub match : S → Msg → Bool
  pub handle : S → Msg → S × Option Msg
  pub post_process : S → Msg → Option Msg → S

-- `handlerImpl`, with the interfaces that it calls. A Go map of query types is a list.
pub record Handler (S : Type 0) : Type 0 where
  pub disable_qtypes : List ℕ
  pub hosts_get : Msg → Option Msg
  pub cache_get : S → Msg → S × Option Msg
  pub cache_set : S → Msg → Option Msg → S
  pub group_list : List (Group S)
  pub fallback_group : Group S
  pub redirector : Option (Group S → Msg → Option Msg → Option (Group S))

abbrev pub rcode_format_error : ℕ
rcode_format_error = 1

abbrev pub rcode_server_failure : ℕ
rcode_server_failure = 2

abbrev pub rcode_refused : ℕ
rcode_refused = 5

abbrev pub new_msg : Msg
new_msg = record { id = 0; rcode = 0; question = []; answer = []; ns = []; extra = [] }

abbrev pub is_disabled : List ℕ → Question → Bool
is_disabled types q = any (λ t. t == q.qtype) types

abbrev pub differ : Bool → Bool → Bool
differ true b = not b
differ false b = b

-- The less-than test of `newHandle` on the groups.
unfoldable pub group_less : {S : Type 0} → Group S → Group S → Bool
unfolding less_bytes
group_less g1 g2 =
    if differ g1.is_fallback g2.is_fallback
    then not g1.is_fallback
    else if differ g1.has_gfw_list g2.has_gfw_list
    then not g1.has_gfw_list
    else less_bytes g1.name g2.name

-- The loop over the groups: the first that matches, or the fallback group.
unfoldable pub matched_group : {S : Type 0} → Group S → S → Msg → List (Group S) → Group S
matched_group fallback s req [] = fallback
matched_group fallback s req (g ∷ rest) =
    let later = matched_group fallback s req rest in if g.match s req then g else later

-- `resp = result.Msg`, if there is a result.
abbrev pub or_else : Option Msg → Option Msg → Option Msg
or_else (some m) old = some m
or_else none old = old

module _ {S : Type 0} (dns : DnsLib) (h : Handler S) where
  -- The end of `handle`.
  unfoldable pub finish : Group S → S → Msg → Option Msg → S × Option Msg
  finish matched s req resp = (h.cache_set (matched.post_process s req resp) req resp, resp)

  -- The call of the redirector, and what follows it.
  abbrev pub redirected : Option (Group S) → Group S → S → Msg → Option Msg → S × Option Msg
  redirected none matched s req resp = finish matched s req resp
  redirected (some g) matched s req resp =
      let (s', result) = g.handle s req in finish g s' req (or_else result resp)

  unfoldable pub redirect : Group S → S → Msg → Option Msg → S × Option Msg
  unfolding finish
  redirect matched s req resp = elim h.redirector [
    | none ↦ finish matched s req resp
    | some r ↦ redirected (r matched req resp) matched s req resp
  ]

  -- The part of `handle` that asks a group.
  unfoldable pub ask_group : S → Msg → S × Option Msg
  unfolding matched_group redirect
  ask_group s req =
      let matched = matched_group h.fallback_group s req h.group_list in
      let (s', result) = matched.handle s req in redirect matched s' req result

  abbrev pub ask_cache : S × Option Msg → Msg → S × Option Msg
  ask_cache (s, some m) req = (s, some m)
  ask_cache (s, none) req = ask_group s req

  abbrev pub handle_question : S → Msg → List Question → S × Option Msg
  handle_question s req [] = (s, some (dns.set_rcode new_msg req rcode_format_error))
  handle_question s req (q ∷ qs) =
      if any (is_disabled h.disable_qtypes) (q ∷ qs)
      then (s, some (dns.set_rcode new_msg req rcode_refused))
      else elim (h.hosts_get req) [
        | some m ↦ (s, some m)
        | none ↦ ask_cache (h.cache_get s req) req
      ]

  -- `handle`.
  unfoldable pub handle : S → Msg → S × Option Msg
  unfolding ask_group
  handle s req = handle_question s req req.question

  abbrev pub or_failure : Msg → S × Option Msg → S × Msg
  or_failure req (s, some m) = (s, m)
  or_failure req (s, none) = (s, dns.set_rcode new_msg req rcode_server_failure)

  -- `ServeDNS`: the message that it writes.
  unfoldable pub serve_dns : S → Msg → S × Msg
  unfolding handle
  serve_dns s req = or_failure req (handle s req)
