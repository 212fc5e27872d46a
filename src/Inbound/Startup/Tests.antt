-- ===== src/Inbound/Startup/Tests.antt =====
-- The theorem about a new handler at a configuration of two groups.
use ts_dns.Common.{ℕ, ◌≡◌, refl, true, false, Option, none, some, List, [], ◌∷◌, ◌++◌, All, Bytes}
use ts_dns.Dns.{Msg}
use ts_dns.Inbound.Handler.{Group, Handler}
use ts_dns.Inbound.Startup.{HandlerConf, new_handle}
use ts_dns.Inbound.Startup.Sorts.{sort, sort-SortsGroups}
use ts_dns.Inbound.Startup.Fallbacks.{new_handle-fallback}
use ts_dns.Outbound.Builds.{GroupImpl}
use ts_dns.Outbound.Builds.Samples.{system, sections}
use ts_dns.Samples.{sample_dns, sample_net, sample_regexp}

abbrev conf : HandlerConf
conf = record { disable_ipv6 = true; disable_qtypes = []; groups = sections }

abbrev handle : GroupImpl Bytes Bytes Bytes → ℕ → Msg → ℕ × Option Msg
handle g s req = (s, none)

abbrev post : GroupImpl Bytes Bytes Bytes → ℕ → Msg → Option Msg → ℕ
post g s req resp = s

abbrev cache : (ℕ → Msg → ℕ × Option Msg) × (ℕ → Msg → Option Msg → ℕ)
cache = ((λ s req. (s, none)), (λ s req resp. s))

abbrev built :
    (h : Handler ℕ) × (new_handle sample_regexp sample_dns sample_net system sort handle post
        (some (λ req. none))
        (some cache)
        (λ gs. some none)
        conf
      ≡ some h)
unfolding new_handle sort
built = (_, refl)

new_handle-fallback_example :
    (init : List (Group ℕ)) × (built.0.group_list ≡ init ++ built.0.fallback_group ∷ [])
    × All (λ g. g.is_fallback ≡ false) init
    × (built.0.fallback_group.is_fallback ≡ true)
new_handle-fallback_example =
    new_handle-fallback sample_regexp sample_dns sample_net system sort handle post
      (some (λ req. none)) (some cache) (λ gs. some none) conf built.0 sort-SortsGroups built.1
