-- ===== src/Outbound/CallerStats/Keeps.antt =====
-- What the clean-up and the updates of the caller statistics keep.
use ts_dns.Common.{ℕ, zero, suc, ◌+◌, ◌≤◌, ◌<◌, ◌≡◌, ◌≢◌, ap, false, Option, none, some}
use ts_dns.Common.{List, [], ◌∷◌, arith, All, Bytes, eq_bytes_self, lookup, insert, lookup-insert}
use ts_dns.Outbound.CallerStats.{
  HostStats, Stats, is_stale, drop_stale, cleanup_host_stats, range_from, all_caller_candidates,
  active_candidate, choose_candidates, candidates_of, candidates_for_host,
}

lookup-drop_stale :
    (host : Bytes) (now : ℕ) (m : List (Bytes × HostStats)) (e : HostStats)
    → lookup host m ≡ some e
    → is_stale now e ≡ false
    → lookup host (drop_stale now m) ≡ some e
unfolding lookup drop_stale
lookup-drop_stale host now [] e h fresh = absurd (ground arith)
lookup-drop_stale host now ((k, v) ∷ m) e h fresh = ground (arith, lookup-drop_stale host now m e)

pub lookup-cleanup_host_stats :
    (host : Bytes) (now : ℕ) (s : Stats) (e : HostStats)
    → lookup host s.host_stats ≡ some e
    → is_stale now e ≡ false
    → lookup host (cleanup_host_stats now s).host_stats ≡ some e
unfolding cleanup_host_stats
lookup-cleanup_host_stats host now s e h fresh =
    ground (arith, lookup-drop_stale host now s.host_stats e h fresh)

pub lookup-insert_self :
    {V : Type 0} (host : Bytes) (v : V) (m : List (Bytes × V))
    → lookup host (insert host v m) ≡ some v
lookup-insert_self host v m = ground (arith, lookup-insert host host v m, eq_bytes_self host)

-- The candidates for a host whose entry the clean-up keeps.
pub candidates_for_host-kept :
    (count : ℕ) (host : Bytes) (now : ℕ) (s : Stats) (e : HostStats)
    → lookup host s.host_stats ≡ some e
    → is_stale now e ≡ false
    → (candidates_for_host count host now s).1 ≡ choose_candidates count now e
unfolding candidates_for_host choose_candidates
candidates_for_host-kept count host now s e h fresh =
    ap (λ o. (candidates_of count host now (cleanup_host_stats now s) o).1)
      (lookup-cleanup_host_stats host now s e h fresh)

range_from-bound : (i n k : ℕ) → i + n ≤ k → All (λ j. j < k) (range_from i n)
unfolding range_from
range_from-bound i zero k h = tt
range_from-bound i (suc n) k h = (omega arith, range_from-bound (suc i) n k (omega arith))

abbrev pub AreSome : ℕ → List ℕ → Type 0
AreSome count cs = All (λ i. i < count) cs × (cs ≢ [])

range_from-some : (i n : ℕ) → 0 < n → range_from i n ≢ []
unfolding range_from
range_from-some i zero h = absurd (omega arith)
range_from-some i (suc n) h = λ e. cc

all_caller_candidates-some : (count : ℕ) → 0 < count → AreSome count (all_caller_candidates count)
unfolding all_caller_candidates
all_caller_candidates-some count h =
    (range_from-bound 0 count count (omega arith), range_from-some 0 count h)

active_candidate-some :
    (count : ℕ) (o : Option ℕ) → 0 < count → AreSome count (active_candidate count o)
active_candidate-some count none h = all_caller_candidates-some count h
active_candidate-some count (some i) h = ground (arith, all_caller_candidates-some count h)

pub choose_candidates-some :
    (count now : ℕ) (e : HostStats) → 0 < count → AreSome count (choose_candidates count now e)
unfolding choose_candidates
choose_candidates-some count now e h =
    ground (arith, all_caller_candidates-some count h, active_candidate-some count e.active_index h)

candidates_of-some :
    (count : ℕ) (host : Bytes) (now : ℕ) (s : Stats) (o : Option HostStats)
    → 0 < count
    → AreSome count (candidates_of count host now s o).1
candidates_of-some count host now s none h = all_caller_candidates-some count h
candidates_of-some count host now s (some e) h =
    choose_candidates-some count now (record e { last_used = some now }) h

-- In every state of the statistics, a group that has callers tries at least one for a host, and each
-- that it tries is one of the group's.
pub candidates_for_host-AreSome :
    (count : ℕ) (host : Bytes) (now : ℕ) (s : Stats)
    → 0 < count
    → AreSome count (candidates_for_host count host now s).1
unfolding candidates_for_host
candidates_for_host-AreSome count host now s h =
    candidates_of-some count host now (cleanup_host_stats now s)
      (lookup host (cleanup_host_stats now s).host_stats) h
