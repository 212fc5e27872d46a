-- ===== src/Inbound/Startup.antt =====
-- inbound/handler.go: `newHandle`, without the query timeout. The hosts, the cache and the redirector are built by
-- their own components, which may fail; here they are options. `sort.Slice` is a parameter.
use ts_dns.Common.{
  ℕ, ◌*◌, ◌+◌, Bool, true, false, not, ◌&&◌, ◌||◌, Option, none, some, List, [], ◌∷◌, map,
  if◌then◌else◌, leb, Bytes, ℤ, ◌>>=◌,
}
use ts_dns.Dns.{Msg, DnsLib, NetLib}
use ts_dns.Regexp.{RegexpLib}
use ts_dns.Inbound.Handler.{Group, Handler, group_less}
use ts_dns.Outbound.Durations.{of_word}
use ts_dns.Outbound.Builds.{
  GroupSection, GroupImpl, BuildLib, has_gfw_list, match_group, disabled_qtypes, build_groups,
}
mod Chains
mod Fallbacks
mod Sorts
mod Tests

-- The fields of `config.Conf` that `newHandle` itself reads.
pub record HandlerConf : Type 0 where
  pub disable_ipv6 : Bool
  pub disable_qtypes : List Bytes
  pub groups : List (Bytes × GroupSection)

module _ {S : Type 0} where
  -- The loop that looks for the fallback group: the last one.
  unfoldable pub fallback_of : Option (Group S) → List (Group S) → Option (Group S)
  fallback_of found [] = found
  fallback_of found (g ∷ gs) = fallback_of (if g.is_fallback then some g else found) gs

module _ {P I S : Type 0} (re : RegexpLib) (dns : DnsLib) (net : NetLib)
    (lib : BuildLib re.Regexp P I) where
  open re use {Regexp}

  -- A built group as the handler sees it, with what it does with a query.
  abbrev pub as_group :
      (GroupImpl Regexp P I → S → Msg → S × Option Msg)
      → (GroupImpl Regexp P I → S → Msg → Option Msg → S)
      → GroupImpl Regexp P I
      → Group S
  as_group handle post g = record {
    name = g.name;
    is_fallback = g.fallback;
    has_gfw_list = has_gfw_list g;
    match = λ s req. match_group re dns net lib g req;
    handle = handle g;
    post_process = post g;
  }

  module _ (sort : (Group S → Group S → Bool) → List (Group S) → List (Group S))
      (handle : GroupImpl Regexp P I → S → Msg → S × Option Msg)
      (post : GroupImpl Regexp P I → S → Msg → Option Msg → S) (hosts : Option (Msg → Option Msg))
      (cache : Option ((S → Msg → S × Option Msg) × (S → Msg → Option Msg → S)))
      (redirector : List (Group S)
        → Option (Option (Group S → Msg → Option Msg → Option (Group S)))) where
    -- `newHandle`.
    unfoldable pub new_handle : HandlerConf → Option (Handler S)
    unfolding fallback_of disabled_qtypes build_groups group_less
    new_handle conf = do
      types ← disabled_qtypes re dns net lib conf.disable_ipv6 conf.disable_qtypes
      hosts_get ← hosts
      (cache_get, cache_set) ← cache
      built ← build_groups re dns net lib conf.groups
      let groups = map (λ e. as_group handle post e.1) built
      fallback ← fallback_of none groups
      chosen ← redirector groups
      some (record {
        disable_qtypes = types;
        hosts_get = hosts_get;
        cache_get = cache_get;
        cache_set = cache_set;
        group_list = sort group_less groups;
        fallback_group = fallback;
        redirector = chosen;
      })
