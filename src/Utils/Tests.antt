-- ===== src/Utils/Tests.antt =====
-- Runs of the functions of utils/dns.go, and the theorems about them at concrete inputs.
use ts_dns.Common.{◌≡◌, refl, some, [], ◌∷◌, if◌then◌else◌, codes}
use ts_dns.Common.{is_some}
use ts_dns.Dns.{Subnet, cookie, opt, a, aaaa, Msg}
use ts_dns.Utils.Ecs.{format_ecs, set_default_ecs, remove_edns_cookie, find_ecs, format_subnet}
use ts_dns.Utils.Records.{remove_a, get_min_ttl}
use ts_dns.Utils.Loops.{delete_where}
use ts_dns.Utils.DefaultEcs.{format_ecs-set_default_ecs}
use ts_dns.Samples.{sample_dns, sample_net, sample_decimal, hdr, ask}

abbrev home : Subnet
home = record { family = 1; source_netmask = 8; address = codes "10.0.0.0" }

abbrev asked : Msg
asked = record (ask (codes "x.cn.") 1) { extra = opt (hdr 41 0) (cookie [] ∷ []) ∷ [] }

set_then_format :
    format_ecs sample_net sample_decimal (set_default_ecs sample_dns (some asked) (some home))
    ≡ codes "10.0.0.0/8"
unfolding format_ecs set_default_ecs
set_then_format = refl

cookie_is_removed :
    remove_edns_cookie (some asked) ≡ some (record asked { extra = opt (hdr 41 0) [] ∷ [] })
unfolding remove_edns_cookie delete_where
cookie_is_removed = refl

abbrev answered : Msg
answered = record asked {
  answer = a (hdr 1 300) (codes "1.1.1.1") ∷ aaaa (hdr 28 60) (codes "::1") ∷ [];
}

least_of_answered : get_min_ttl (some answered) ≡ 60
unfolding get_min_ttl
least_of_answered = refl

a_is_removed :
    remove_a (some answered)
    ≡ some (record answered { answer = aaaa (hdr 28 60) (codes "::1") ∷ [] })
unfolding remove_a delete_where
a_is_removed = refl

abbrev parsed : Subnet
parsed = record { family = 1; source_netmask = 32; address = codes "1.2.3.4" }

format_ecs-set_default_ecs_example :
    format_ecs sample_net sample_decimal (set_default_ecs sample_dns (some asked) (some home)) ≡ (
      if is_some (find_ecs asked.extra)
      then format_ecs sample_net sample_decimal (some asked)
      else format_subnet sample_net sample_decimal home)
format_ecs-set_default_ecs_example =
    format_ecs-set_default_ecs sample_dns sample_net sample_decimal asked home
