-- ===== src/Outbound/Worker/Tests.antt =====
-- The theorems about a group's IP set worker at concrete runs.
use ts_dns.Common.{
  ◌+◌, ◌≤◌, ◌≡◌, refl, true, false, none, some, List, [], ◌∷◌, ◌++◌, All, length, run, Bytes, codes,
  arith, ℤ, take as take_first,
}
use ts_dns.Dns.{a, aaaa, Msg}
use ts_dns.Outbound.Worker.{
  Task, IpSets, GroupState, new_group, ip_set, capacity, post_process, draining, listening, absent,
  Event, begin, post, take, notice, stop, step,
}
use ts_dns.Outbound.Worker.Queues.{IsFifo, IsSameRun, tasks_of, post_process-take, run-IsFifo}
use ts_dns.Outbound.Worker.Stops.{is_own, IsDone, run-IsDone}
use ts_dns.Samples.{sample_net, hdr, ask}

abbrev sets : IpSets
sets = record { timeout4 = some (ℤ.pos 60); timeout6 = none }

-- Two IPv4 addresses, and one for which there is no IP set.
abbrev response : Msg
response = record (ask (codes "x.cn.") 1) {
  answer =
      a (hdr 1 60) (codes "1.1.1.1")
      ∷ aaaa (hdr 28 60) (codes "::1")
      ∷ a (hdr 1 60) (codes "2.2.2.2")
      ∷ [];
}

abbrev task : Bytes → Task
task val = record { val = val; timeout = ℤ.pos 60; target = ip_set }

two_tasks :
    tasks_of sample_net sets response.answer ≡ task (codes "1.1.1.1") ∷ task (codes "2.2.2.2") ∷ []
two_tasks = refl

post_process-take_example :
    let s' = post_process sample_net sets new_group (some response) in
    (s'.queue ≡ take_first capacity ([] ++ tasks_of sample_net sets response.answer))
    × IsSameRun new_group s'
post_process-take_example = post_process-take sample_net sets response new_group (omega arith)

-- The group is stopped while two tasks wait.
abbrev stopping : List Event
stopping = begin false false ∷ post (some response) ∷ stop ∷ []

abbrev stopped : GroupState
stopped = record {
  queue = task (codes "1.1.1.1") ∷ task (codes "2.2.2.2") ∷ [];
  stop_closed = true;
  worker = listening;
  updater = absent;
  accepted = task (codes "1.1.1.1") ∷ task (codes "2.2.2.2") ∷ [];
  handled = [];
}

reached_stopped : run (step sample_net sets) new_group stopping ≡ some stopped
unfolding run step
reached_stopped = refl

run-IsFifo_example : IsFifo stopped
run-IsFifo_example = run-IsFifo sample_net sets stopping stopped reached_stopped

abbrev drained : GroupState
drained = record stopped {
  queue = task (codes "2.2.2.2") ∷ [];
  worker = draining;
  handled = task (codes "1.1.1.1") ∷ [];
}

reached_drained : run (step sample_net sets) stopped (notice ∷ take ∷ []) ≡ some drained
unfolding run step
reached_drained = refl

run-IsDone_example :
    (more : List Event) × (s : GroupState) × All (λ e. is_own e ≡ true) more
    × (run (step sample_net sets) drained more ≡ some s)
    × (2 + length more ≤ 1028)
    × IsDone sample_net sets s
run-IsDone_example =
    run-IsDone sample_net sets stopping (notice ∷ take ∷ []) stopped drained reached_stopped refl
      refl (refl, (refl, tt)) reached_drained
