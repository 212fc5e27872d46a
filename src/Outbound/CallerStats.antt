-- ===== src/Outbound/CallerStats.antt =====
-- outbound/groups.go: which of a group's callers are tried for a host (`candidatesForHost`,
-- `recordCallerSuccess`, `recordCallerFailure`, `ensureHostStatsLocked`, `cleanupHostStatsLocked`).
-- The mutex makes each a single step. Times are nanoseconds; the zero `time.Time` and the index -1
-- are `none`, and a difference of times that would be negative is 0, which every comparison here treats
-- alike. A caller is its index among the group's `count` callers.
use ts_dns.Common.{
  ℕ, zero, suc, ◌+◌, ◌-◌, ◌*◌, Bool, true, false, not, ◌&&◌, ◌||◌, Option, none, some, List, [],
  ◌∷◌, ◌++◌,
}
use ts_dns.Common.{if◌then◌else◌, ltb, leb, ◌==◌, Bytes, lookup, insert}
mod Keeps
mod Sticks
mod Tests

pub data CallerState : Type 0 where
  idle active : CallerState

abbrev pub reselect_interval : ℕ
reselect_interval = 3600 * 1_000_000_000

abbrev pub stats_ttl : ℕ
stats_ttl = 24 * (3600 * 1_000_000_000)

abbrev pub cleanup_interval : ℕ
cleanup_interval = 5 * (60 * 1_000_000_000)

-- `hostCallerStats`.
pub record HostStats : Type 0 where
  pub active_index : Option ℕ
  pub state : CallerState
  pub seen : Bool
  pub last_used : Option ℕ
  pub reselect_after : Option ℕ

-- The fields of `groupImpl` that the mutex guards.
pub record Stats : Type 0 where
  pub host_stats : List (Bytes × HostStats)
  pub last_cleanup : Option ℕ

abbrev pub is_active : CallerState → Bool
is_active active = true
is_active idle = false

-- `now.Before(t)`.
abbrev pub before : ℕ → Option ℕ → Bool
before now none = false
before now (some t) = ltb now t

-- Whether `cleanupHostStatsLocked` deletes an entry.
abbrev pub is_stale : ℕ → HostStats → Bool
is_stale now e = elim e.last_used [ none ↦ false | some t ↦ ltb stats_ttl (now - t) ]

unfoldable pub drop_stale : ℕ → List (Bytes × HostStats) → List (Bytes × HostStats)
drop_stale now [] = []
drop_stale now ((h, e) ∷ m) =
    let rest = drop_stale now m in if is_stale now e then rest else (h, e) ∷ rest

abbrev pub cleaned_lately : ℕ → Option ℕ → Bool
cleaned_lately now none = false
cleaned_lately now (some t) = ltb (now - t) cleanup_interval

-- `cleanupHostStatsLocked`.
unfoldable pub cleanup_host_stats : ℕ → Stats → Stats
unfolding drop_stale
cleanup_host_stats now s =
    if cleaned_lately now s.last_cleanup
    then s
    else record { host_stats = drop_stale now s.host_stats; last_cleanup = some now }

abbrev pub new_stats : HostStats
new_stats = record {
  active_index = none;
  state = idle;
  seen = false;
  last_used = none;
  reselect_after = none;
}

-- `ensureHostStatsLocked`: the entry as it is after `lastUsed` was set.
unfoldable pub ensure_host_stats : Bytes → ℕ → Stats → HostStats
unfolding lookup
ensure_host_stats host now s = elim (lookup host s.host_stats) [
  | none ↦ record new_stats { last_used = some now }
  | some e ↦ record e { last_used = some now }
]

-- `allCallerCandidates`.
unfoldable pub range_from : ℕ → ℕ → List ℕ
range_from i zero = []
range_from i (suc n) = i ∷ range_from (suc i) n

abbrev pub same_index : Option ℕ → ℕ → Bool
same_index none i = false
same_index (some j) i = j == i

-- The update of `recordCallerSuccess` to the entry.
unfoldable pub succeed : ℕ → ℕ → HostStats → HostStats
succeed i now e =
    let reset : Bool =
      not e.seen
      || (not (is_active e.state)
          || (not (same_index e.active_index i) || not (before now e.reselect_after))) in
    record e {
      active_index = some i;
      state = active;
      seen = true;
      reselect_after = if reset then some (now + reselect_interval) else e.reselect_after;
    }

-- The update of `recordCallerFailure` to the entry.
unfoldable pub fail : ℕ → HostStats → HostStats
fail i e =
    if not e.seen || same_index e.active_index i
    then record e { active_index = none; state = idle; seen = true }
    else e

module _ (count : ℕ) where
  unfoldable pub all_caller_candidates : List ℕ
  unfolding range_from
  all_caller_candidates = range_from 0 count

  abbrev pub active_candidate : Option ℕ → List ℕ
  active_candidate none = all_caller_candidates
  active_candidate (some i) = if ltb i count then i ∷ [] else all_caller_candidates

  -- The choice of `candidatesForHost` on an entry that is there.
  unfoldable pub choose_candidates : ℕ → HostStats → List ℕ
  unfolding all_caller_candidates
  choose_candidates now e =
      if not e.seen
      then all_caller_candidates
      else if is_active e.state && not (before now e.reselect_after)
      then all_caller_candidates
      else if is_active e.state
      then active_candidate e.active_index
      else all_caller_candidates

  -- `candidatesForHost`.
  abbrev candidates_of : Bytes → ℕ → Stats → Option HostStats → Stats × List ℕ
  candidates_of host now s none = (s, all_caller_candidates)
  candidates_of host now s (some e) =
      let e' = record e { last_used = some now } in
      (record s { host_stats = insert host e' s.host_stats }, choose_candidates now e')

  unfoldable pub candidates_for_host : Bytes → ℕ → Stats → Stats × List ℕ
  unfolding cleanup_host_stats choose_candidates lookup insert
  candidates_for_host host now s =
      let s' = cleanup_host_stats now s in candidates_of host now s' (lookup host s'.host_stats)

  -- `recordCallerSuccess`.
  unfoldable pub record_caller_success : Bytes → ℕ → ℕ → Stats → Stats
  unfolding succeed ensure_host_stats insert
  record_caller_success host i now s = if leb count i then s else record s {
    host_stats = insert host (succeed i now (ensure_host_stats host now s)) s.host_stats;
  }

  -- `recordCallerFailure`.
  unfoldable pub record_caller_failure : Bytes → ℕ → ℕ → Stats → Stats
  unfolding fail ensure_host_stats insert
  record_caller_failure host i now s = if leb count i then s else record s {
    host_stats = insert host (fail i (ensure_host_stats host now s)) s.host_stats;
  }
