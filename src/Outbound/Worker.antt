-- ===== src/Outbound/Worker.antt =====
-- outbound/groups.go: `PostProcess`, `Start`, `Stop`. The goroutines of a started group are the IP set's worker and,
-- with a URL, the one that refreshes the GFW list; they, the calls of `PostProcess` and `Stop` take turns in
-- steps, each a channel operation or a task's end. The ghost fields list what was put into the channel and
-- what the IP sets were given. One `PostProcess` makes its sends, one for each address, in one step: a run
-- where other steps come between them is a run with the response split into several. A group is started once. The callers that `Start` and `Stop` also start and stop have their own module.
use ts_dns.Common.{
  ℕ, suc, ◌+◌, ◌-◌, Bool, true, false, not, ◌&&◌, ◌||◌, Option, none, some, List, [], ◌∷◌, ◌++◌,
  if◌then◌else◌, ltb, length, Bytes, is_some, ℤ,
}
use ts_dns.Dns.{Ip, Rr, a, aaaa, cname, opt, other, Msg, NetLib}
use ts_dns.Outbound.Hijack.{is_nil}
mod Queues
mod Stops
mod Tests

-- `ipSetTask`, for one of the group's two IP sets.
pub data Target : Type 0 where
  ip_set : Target
  ip_set6 : Target

pub record Task : Type 0 where
  pub val : Bytes
  pub timeout : ℤ
  pub target : Target

-- The IP sets of a group, each with the timeout that `GetTimeout` gives.
pub record IpSets : Type 0 where
  pub timeout4 : Option ℤ
  pub timeout6 : Option ℤ

pub data Worker : Type 0 where
  unstarted listening draining ended : Worker

pub data Updater : Type 0 where
  absent waiting refreshing quitted : Updater

pub record GroupState : Type 0 where
  pub queue : List Task
  pub stop_closed : Bool
  pub worker : Worker
  pub updater : Updater
  pub accepted : List Task
  pub handled : List Task

-- As `BuildGroups` leaves it.
abbrev pub new_group : GroupState
new_group = record {
  queue = [];
  stop_closed = false;
  worker = unstarted;
  updater = absent;
  accepted = [];
  handled = [];
}

abbrev pub capacity : ℕ
capacity = 1024

abbrev task_for : Bytes → Option ℤ → Target → List Task
task_for val none target = []
task_for [] (some timeout) target = []
task_for (c ∷ val) (some timeout) target =
    record { val = c ∷ val; timeout = timeout; target = target } ∷ []

-- The tasks of a response.
abbrev pub task_of : NetLib → IpSets → Rr → List Task
task_of net sets (a h ip) = task_for (net.ip_string ip) sets.timeout4 ip_set
task_of net sets (aaaa h ip) = task_for (net.ip_string ip) sets.timeout6 ip_set6
task_of net sets (cname h t) = []
task_of net sets (opt h os) = []
task_of net sets (other h raw) = []

-- A send that does not block: a full channel drops the task.
unfoldable pub push_one : GroupState → Task → GroupState
push_one s t =
    if ltb (length s.queue) capacity
    then record s { queue = s.queue ++ t ∷ []; accepted = s.accepted ++ t ∷ [] }
    else s

unfoldable pub push : GroupState → List Task → GroupState
unfolding push_one
push s [] = s
push s (t ∷ ts) = push (push_one s t) ts

module _ (net : NetLib) (sets : IpSets) where
  -- The loop of `PostProcess`.
  unfoldable pub post_answers : GroupState → List Rr → GroupState
  unfolding push
  post_answers s [] = s
  post_answers s (rr ∷ rest) = post_answers (push s (task_of net sets rr)) rest

  unfoldable pub post_process : GroupState → Option Msg → GroupState
  unfolding post_answers
  post_process s none = s
  post_process s (some resp) = post_answers s resp.answer

-- What happens next: `begin` is `Start`, with whether there is a URL and a list; `finish` is the `default` of
-- the worker's last loop.
pub data Event : Type 0 where
  begin : Bool → Bool → Event
  post : Option Msg → Event
  take : Event
  notice : Event
  finish : Event
  tick : Event
  refreshed : Event
  quit : Event
  stop : Event

abbrev is_taking : Worker → Bool
is_taking unstarted = false
is_taking listening = true
is_taking draining = true
is_taking ended = false

abbrev first_state : Bool → Bool → Updater
first_state false has_list = absent
first_state true true = waiting
first_state true false = refreshing

module _ (net : NetLib) (sets : IpSets) where
  -- One step; `none` when it cannot be taken now, or panics, as a second `Stop` does.
  unfoldable pub step : GroupState → Event → Option GroupState
  unfolding post_process
  step s (begin has_url has_list) = elim s.worker [
    | unstarted ↦ some (record s { worker = listening; updater = first_state has_url has_list })
    | _ ↦ none
  ]
  step s (post resp) = some (post_process net sets s resp)
  step s take = elim s.queue [
    | [] ↦ none
    | t ∷ ts ↦
        if is_taking s.worker
        then some (record s { queue = ts; handled = s.handled ++ t ∷ [] })
        else none
  ]
  step s notice = elim s.worker [
    | listening ↦ if s.stop_closed then some (record s { worker = draining }) else none
    | _ ↦ none
  ]
  step s finish = elim s.worker [
    | draining ↦ if is_nil s.queue then some (record s { worker = ended }) else none
    | _ ↦ none
  ]
  step s tick = elim s.updater [ waiting ↦ some (record s { updater = refreshing }) | _ ↦ none ]
  step s refreshed = elim s.updater [
    | refreshing ↦ some (record s { updater = waiting })
    | _ ↦ none
  ]
  step s quit = elim s.updater [
    | waiting ↦ if s.stop_closed then some (record s { updater = quitted }) else none
    | _ ↦ none
  ]
  step s stop = elim s.worker [
    | unstarted ↦ some s
    | _ ↦ if s.stop_closed then none else some (record s { stop_closed = true })
  ]

-- Whether the channel `stopped` is closed, on which `Stop` waits.
abbrev has_left : Updater → Bool
has_left absent = true
has_left waiting = false
has_left refreshing = false
has_left quitted = true

abbrev pub has_ended : Worker → Bool
has_ended unstarted = false
has_ended listening = false
has_ended draining = false
has_ended ended = true

unfoldable pub is_stopped : GroupState → Bool
is_stopped s = has_ended s.worker && has_left s.updater
