-- ===== src/Outbound/Queries/Tests.antt =====
-- A group of three callers, of which the first fails and the last answers first.
use ts_dns.Common.{ℕ, ◌≡◌, refl, true, Option, none, some, List, [], ◌∷◌}
use ts_dns.Common.{Bytes, codes, eq_bytes, if◌then◌else◌, ◌==◌}
use ts_dns.Dns.{a, Msg}
use ts_dns.Outbound.CallerStats.{Stats}
use ts_dns.Outbound.Queries.{CallResult, answered, failed, GroupConf, handle}
use ts_dns.Samples.{sample_dns, sample_net, hdr, ask}

abbrev conf : GroupConf
conf = record {
  disable_qtypes = 28 ∷ [];
  no_cookie = true;
  with_ecs = none;
  hijack_rules = [];
  callers = 3;
  fastest_ip = true;
  max_ping_ips = 0;
}

abbrev two_ips : Msg
two_ips = record (ask (codes "x.cn.") 1) {
  answer = a (hdr 1 60) (codes "1.1.1.1") ∷ a (hdr 1 60) (codes "2.2.2.2") ∷ [];
}

abbrev call : ℕ → Msg → CallResult
call i req =
    if i == 2 then answered two_ips else if i == 1 then answered (ask (codes "x.cn.") 1) else failed

abbrev nothing : Stats
nothing = record { host_stats = []; last_cleanup = none }

abbrev arrivals : List (ℕ × ℕ)
arrivals = (0, 5) ∷ (2, 6) ∷ (1, 7) ∷ []

abbrev second : List Bytes → Option Bytes × ℕ
second ips = (some (codes "2.2.2.2"), 20)

handle_keeps_fastest :
    (handle sample_dns sample_net conf call second
      (λ cs. arrivals)
      4
      (ask (codes "x.cn.") 1)
      nothing).1
    ≡ some (record two_ips { answer = a (hdr 1 60) (codes "2.2.2.2") ∷ [] })
unfolding handle eq_bytes
handle_keeps_fastest = refl
