-- ===== src/Outbound/CallerStats/Tests.antt =====
-- The theorems about the choice of callers at concrete statistics.
use ts_dns.Common.{◌≡◌, refl, true, none, some, [], ◌∷◌, arith}
use ts_dns.Common.{if◌then◌else◌, codes, eq_bytes, lookup}
use ts_dns.Outbound.CallerStats.{
  HostStats, Stats, active, candidates_for_host, record_caller_success, record_caller_failure,
  ensure_host_stats, succeed, choose_candidates, all_caller_candidates, same_index,
}
use ts_dns.Outbound.CallerStats.Sticks.{
  candidates_for_host-record_caller_success, candidates_for_host-record_caller_failure,
}

abbrev nothing : Stats
nothing = record { host_stats = []; last_cleanup = none }

abbrev entry : HostStats
entry = record {
  active_index = some 1;
  state = active;
  seen = true;
  last_used = some 5;
  reselect_after = some 900;
}

abbrev one_host : Stats
one_host = record { host_stats = (codes "x.cn.", entry) ∷ []; last_cleanup = some 5 }

all_at_first : (candidates_for_host 3 (codes "x.cn.") 5 nothing).1 ≡ 0 ∷ 1 ∷ 2 ∷ []
unfolding candidates_for_host
all_at_first = refl

candidates_for_host-record_caller_success_example :
    (candidates_for_host 3
      (codes "x.cn.")
      900
      (record_caller_success 3 (codes "x.cn.") 2 7 nothing)).1
    ≡ 2 ∷ []
unfolding succeed ensure_host_stats
candidates_for_host-record_caller_success_example =
    candidates_for_host-record_caller_success 3 (codes "x.cn.") 2 7 900 nothing (omega arith)
      (omega arith) refl

candidates_for_host-record_caller_failure_example :
    (candidates_for_host 3
      (codes "x.cn.")
      9
      (record_caller_failure 3 (codes "x.cn.") 1 7 one_host)).1
    ≡ (if same_index (some 1) 1 then all_caller_candidates 3 else choose_candidates 3 9 entry)
unfolding lookup eq_bytes
candidates_for_host-record_caller_failure_example =
    candidates_for_host-record_caller_failure 3 (codes "x.cn.") 1 7 9 one_host entry (omega arith)
      refl refl (omega arith)
