-- ===== src/Outbound/CallerStats/Sticks.antt =====
-- outbound/groups.go: the choice of candidates after a success or a failure.
use ts_dns.Common.{ℕ, ◌+◌, ◌-◌, ◌≤◌, ◌<◌, ◌≡◌, refl, ap, ◌∙◌, true, false, not, none, some}
use ts_dns.Common.{[], ◌∷◌, arith, if◌then◌else◌, leb, ltb, Bytes, lookup, insert}
use ts_dns.Outbound.CallerStats.{
  HostStats, Stats, before, is_stale, same_index, choose_candidates, candidates_for_host,
  all_caller_candidates, ensure_host_stats, succeed, fail, record_caller_success,
  record_caller_failure, stats_ttl,
}
use ts_dns.Outbound.CallerStats.Keeps.{lookup-insert_self, candidates_for_host-kept}

lookup-record_caller_success :
    (count : ℕ) (host : Bytes) (i now : ℕ) (s : Stats)
    → i < count
    → lookup host (record_caller_success count host i now s).host_stats
      ≡ some (succeed i now (ensure_host_stats host now s))
unfolding record_caller_success
lookup-record_caller_success count host i now s h =
    let in_range : leb count i ≡ false = ground arith in
    ap
      (λ b.
        lookup host
          (if b then s else record s {
            host_stats = insert host (succeed i now (ensure_host_stats host now s)) s.host_stats;
          }).host_stats)
      in_range
    ∙ lookup-insert_self host (succeed i now (ensure_host_stats host now s)) s.host_stats

ensure_host_stats-last_used :
    (host : Bytes) (now : ℕ) (s : Stats) → (ensure_host_stats host now s).last_used ≡ some now
unfolding ensure_host_stats
ensure_host_stats-last_used host now s = ground arith

succeed-choice :
    (count i now t : ℕ) (e : HostStats)
    → i < count
    → before t (succeed i now e).reselect_after ≡ true
    → choose_candidates count t (succeed i now e) ≡ i ∷ []
unfolding choose_candidates succeed
succeed-choice count i now t e h early =
    let in_range : ltb i count ≡ true = ground arith in
    ap
      (λ b.
        if not b
        then all_caller_candidates count
        else if ltb i count
        then i ∷ []
        else all_caller_candidates count)
      early
    ∙ ap (λ b. if b then i ∷ [] else all_caller_candidates count) in_range

succeed_fresh :
    (i now t : ℕ) (e : HostStats)
    → e.last_used ≡ some now
    → t ≤ now + stats_ttl
    → is_stale t (succeed i now e) ≡ false
unfolding succeed
succeed_fresh i now t e used day =
    let on_time : ltb stats_ttl (t - now) ≡ false = ground arith in
    ap (λ o. elim o [ none ↦ false | some u ↦ ltb stats_ttl (t - u) ]) used ∙ on_time

-- After a caller of the group answered a host, that caller alone is tried for the host, at each time
-- before the entry's reselection time and not later than a day after the answer.
pub candidates_for_host-record_caller_success :
    (count : ℕ) (host : Bytes) (i now t : ℕ) (s : Stats)
    → i < count
    → t ≤ now + stats_ttl
    → before t (succeed i now (ensure_host_stats host now s)).reselect_after ≡ true
    → (candidates_for_host count host t (record_caller_success count host i now s)).1 ≡ i ∷ []
candidates_for_host-record_caller_success count host i now t s h day early =
    let e = ensure_host_stats host now s in
    candidates_for_host-kept count host t (record_caller_success count host i now s)
      (succeed i now e) (lookup-record_caller_success count host i now s h)
      (succeed_fresh i now t e (ensure_host_stats-last_used host now s) day)
    ∙ succeed-choice count i now t e h early

lookup-record_caller_failure :
    (count : ℕ) (host : Bytes) (i now : ℕ) (s : Stats)
    → i < count
    → lookup host (record_caller_failure count host i now s).host_stats
      ≡ some (fail i (ensure_host_stats host now s))
unfolding record_caller_failure
lookup-record_caller_failure count host i now s h =
    let in_range : leb count i ≡ false = ground arith in
    ap
      (λ b.
        lookup host
          (if b then s else record s {
            host_stats = insert host (fail i (ensure_host_stats host now s)) s.host_stats;
          }).host_stats)
      in_range
    ∙ lookup-insert_self host (fail i (ensure_host_stats host now s)) s.host_stats

ensure_host_stats-lookup :
    (host : Bytes) (now : ℕ) (s : Stats) (e : HostStats)
    → lookup host s.host_stats ≡ some e
    → ensure_host_stats host now s ≡ record e { last_used = some now }
unfolding ensure_host_stats
ensure_host_stats-lookup host now s e h = rw (h, ensure_host_stats) refl

-- After the caller that a host is kept on failed for it, all callers of the group are tried, for as
-- long as the entry is kept (a day), and after another caller of the group failed, the choice is the
-- one that there was.
pub candidates_for_host-record_caller_failure :
    (count : ℕ) (host : Bytes) (i now t : ℕ) (s : Stats) (e : HostStats)
    → i < count
    → lookup host s.host_stats ≡ some e
    → e.seen ≡ true
    → t ≤ now + stats_ttl
    → (candidates_for_host count host t (record_caller_failure count host i now s)).1 ≡ (
        if same_index e.active_index i
        then all_caller_candidates count
        else choose_candidates count t e)
unfolding fail choose_candidates
candidates_for_host-record_caller_failure count host i now t s e h found seen day =
    let e' : HostStats = record e { last_used = some now } in
    let fresh : is_stale t (fail i e') ≡ false = ground arith in
    candidates_for_host-kept count host t (record_caller_failure count host i now s) (fail i e')
      (lookup-record_caller_failure count host i now s h
        ∙ ap (λ x. some (fail i x)) (ensure_host_stats-lookup host now s e found))
      fresh
    ∙ ground arith
