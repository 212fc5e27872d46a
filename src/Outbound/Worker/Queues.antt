-- ===== src/Outbound/Worker/Queues.antt =====
-- outbound/groups.go: the channel of a group's IP set tasks.
use ts_dns.Common.{
  ℕ, zero, suc, ◌+◌, ◌≤◌, ◌≡◌, refl, sym, ap, ap₂, ◌∙◌, Option, none, some, List, [], ◌∷◌, ◌++◌,
  arith, ltb, length, length-append, take as take_first, append-nil, append_assoc, Bool-cases, inl,
  inr, run, run-keeps, some_inj, append-snoc, take-append_length,
}
use mathlib.Core.Path.{subst}
use ts_dns.Dns.{Rr, Msg, NetLib}
use ts_dns.Outbound.Worker.{
  Task, IpSets, GroupState, new_group, capacity, task_of, push_one, push, post_answers,
  post_process, Event, begin, post, take, notice, finish, tick, refreshed, quit, stop, step,
}

-- What was put into the channel is what the worker has handled and then what waits, in this order.
abbrev pub IsFifo : GroupState → Type 0
IsFifo s = (s.accepted ≡ s.handled ++ s.queue) × (length s.queue ≤ capacity)

push_one-IsFifo : (t : Task) (s : GroupState) → IsFifo s → IsFifo (push_one s t)
unfolding push_one
push_one-IsFifo t s (e, n) = elim (Bool-cases (ltb (length s.queue) capacity)) [
  | inl room ↦
      let longer : length (s.queue ++ t ∷ []) ≡ length s.queue + 1 =
        length-append s.queue (t ∷ []) in
      rw room (
        ap (λ xs. xs ++ t ∷ []) e ∙ append_assoc s.handled s.queue (t ∷ []),
        ground (arith, longer),
      )
  | inr full ↦ rw full (e, n)
]

push-IsFifo : (ts : List Task) (s : GroupState) → IsFifo s → IsFifo (push s ts)
unfolding push
push-IsFifo [] s f = f
push-IsFifo (t ∷ ts) s f = push-IsFifo ts (push_one s t) (push_one-IsFifo t s f)

-- What `PostProcess` keeps of the goroutines.
abbrev pub IsSameRun : GroupState → GroupState → Type 0
IsSameRun s s' =
    (s'.stop_closed ≡ s.stop_closed)
    × (s'.worker ≡ s.worker)
    × (s'.updater ≡ s.updater)
    × (s'.handled ≡ s.handled)

push_one-IsSameRun : (t : Task) (s : GroupState) → IsSameRun s (push_one s t)
unfolding push_one
push_one-IsSameRun t s = ground arith

kept_alike : (s t u : GroupState) → IsSameRun s t → IsSameRun t u → IsSameRun s u
kept_alike s t u (a, b, c, d) (a', b', c', d') = (a' ∙ a, b' ∙ b, c' ∙ c, d' ∙ d)

push-IsSameRun : (ts : List Task) (s : GroupState) → IsSameRun s (push s ts)
unfolding push
push-IsSameRun [] s = (refl, refl, refl, refl)
push-IsSameRun (t ∷ ts) s =
    kept_alike s (push_one s t) (push (push_one s t) ts) (push_one-IsSameRun t s)
      (push-IsSameRun ts (push_one s t))

take-short : {A : Type 0} (n : ℕ) (xs : List A) → length xs ≤ n → take_first n xs ≡ xs
take-short zero [] h = refl
take-short (suc n) [] h = refl
take-short zero (x ∷ xs) h = absurd (omega (arith, h))
take-short (suc n) (x ∷ xs) h = ap (◌∷◌ x) (take-short n xs (omega (arith, h)))

take-full : (xs ys : List Task) → length xs ≡ capacity → take_first capacity (xs ++ ys) ≡ xs
take-full xs ys e = ap (λ n. take_first n (xs ++ ys)) (sym e) ∙ take-append_length xs ys

push_one-length :
    (t : Task) (s : GroupState) → length s.queue ≤ capacity → length (push_one s t).queue ≤ capacity
unfolding push_one
push_one-length t s n = elim (Bool-cases (ltb (length s.queue) capacity)) [
  | inl room ↦ rw room (ground (arith, length-append s.queue (t ∷ [])))
  | inr full ↦ rw full n
]

-- A list cut to the capacity, task by task.
push_one-take :
    (t : Task) (rest : List Task) (s : GroupState)
    → length s.queue ≤ capacity
    → take_first capacity ((push_one s t).queue ++ rest) ≡ take_first capacity (s.queue ++ t ∷ rest)
unfolding push_one
push_one-take t rest s n = elim (Bool-cases (ltb (length s.queue) capacity)) [
  | inl room ↦ rw room (ap (take_first capacity) (append-snoc s.queue t rest))
  | inr full ↦
      let e : length s.queue ≡ capacity = ground arith in
      rw full (take-full s.queue rest e ∙ sym (take-full s.queue (t ∷ rest) e))
]

push-take :
    (ts : List Task) (s : GroupState)
    → length s.queue ≤ capacity
    → (push s ts).queue ≡ take_first capacity (s.queue ++ ts)
unfolding push
push-take [] s n =
    sym (ap (take_first capacity) (append-nil s.queue) ∙ take-short capacity s.queue n)
push-take (t ∷ ts) s n =
    push-take ts (push_one s t) (push_one-length t s n) ∙ push_one-take t ts s n

push-append : (ts us : List Task) (s : GroupState) → push s (ts ++ us) ≡ push (push s ts) us
unfolding push
push-append [] us s = refl
push-append (t ∷ ts) us s = push-append ts us (push_one s t)

module _ (net : NetLib) (sets : IpSets) where
  -- The tasks of a message's answers.
  abbrev pub tasks_of : List Rr → List Task
  tasks_of [] = []
  tasks_of (rr ∷ rest) = task_of net sets rr ++ tasks_of rest

  post_answers-push :
      (rest : List Rr) (s : GroupState) → post_answers net sets s rest ≡ push s (tasks_of rest)
  unfolding post_answers push
  post_answers-push [] s = refl
  post_answers-push (rr ∷ rest) s =
      post_answers-push rest (push s (task_of net sets rr))
      ∙ sym (push-append (task_of net sets rr) (tasks_of rest) s)

  post_process-push :
      (resp : Msg) (s : GroupState)
      → post_process net sets s (some resp) ≡ push s (tasks_of resp.answer)
  unfolding post_process
  post_process-push resp s = post_answers-push resp.answer s

  -- `PostProcess` appends the tasks of the response's answers in order, as far as there is room for them: what
  -- then waits is the first 1024 of what waited and these tasks. It touches neither goroutine.
  pub post_process-take :
      (resp : Msg) (s : GroupState)
      → length s.queue ≤ capacity
      → let s' = post_process net sets s (some resp) in
        (s'.queue ≡ take_first capacity (s.queue ++ tasks_of resp.answer)) × IsSameRun s s'
  post_process-take resp s n =
      let e = post_process-push resp s in
      (
        ap (λ q. q.queue) e ∙ push-take (tasks_of resp.answer) s n,
        subst (IsSameRun s) (sym e) (push-IsSameRun (tasks_of resp.answer) s),
      )

  post-IsFifo :
      (resp : Option Msg) (s : GroupState) → IsFifo s → IsFifo (post_process net sets s resp)
  unfolding post_process
  post-IsFifo none s f = f
  post-IsFifo (some resp) s f =
      subst IsFifo (sym (post_process-push resp s)) (push-IsFifo (tasks_of resp.answer) s f)

  pub post-IsSameRun :
      (resp : Option Msg) (s : GroupState) → IsSameRun s (post_process net sets s resp)
  unfolding post_process
  post-IsSameRun none s = (refl, refl, refl, refl)
  post-IsSameRun (some resp) s =
      subst (IsSameRun s) (sym (post_process-push resp s)) (push-IsSameRun (tasks_of resp.answer) s)

  took :
      (s s' : GroupState) (t : Task) (ts : List Task)
      → s.queue ≡ t ∷ ts
      → step net sets s take ≡ some s'
      → (s'.queue ≡ ts) × (s'.handled ≡ s.handled ++ t ∷ []) × (s'.accepted ≡ s.accepted)
  unfolding step
  took s s' t ts q h = ground arith

  none_to_take : (s s' : GroupState) → s.queue ≡ [] → step net sets s take ≡ some s' → IsFifo s'
  unfolding step
  none_to_take s s' q h = ground arith

  took-IsFifo :
      (s s' : GroupState) (q : List Task)
      → s.queue ≡ q
      → step net sets s take ≡ some s'
      → IsFifo s
      → IsFifo s'
  took-IsFifo s s' [] q h f = none_to_take s s' q h
  took-IsFifo s s' (t ∷ ts) q h (e, n) =
      let (queue, handled, accepted) = took s s' t ts q h in
      (
        accepted
            ∙ e
            ∙ ap (λ q. s.handled ++ q) q
            ∙ sym (append-snoc s.handled t ts)
            ∙ ap₂ (λ xs ys. xs ++ ys) (sym handled) (sym queue),
        ground (arith, queue, q, n),
      )

  pub step-IsFifo :
      (s s' : GroupState) (e : Event) → step net sets s e ≡ some s' → IsFifo s → IsFifo s'
  unfolding step
  step-IsFifo s s' (begin url list) h f = ground arith
  step-IsFifo s s' (post resp) h f = subst IsFifo (some_inj h) (post-IsFifo resp s f)
  step-IsFifo s s' take h f = took-IsFifo s s' s.queue refl h f
  step-IsFifo s s' notice h f = ground arith
  step-IsFifo s s' finish h f = ground arith
  step-IsFifo s s' tick h f = ground arith
  step-IsFifo s s' refreshed h f = ground arith
  step-IsFifo s s' quit h f = ground arith
  step-IsFifo s s' stop h f = ground arith

  -- In every state that a group reaches, the tasks that entered the channel are those handled and then those that
  -- wait, in the order in which they came, and at most 1024 wait.
  pub run-IsFifo :
      (es : List Event) (s : GroupState) → run (step net sets) new_group es ≡ some s → IsFifo s
  run-IsFifo es s h =
      run-keeps (step net sets) IsFifo step-IsFifo es new_group s h (refl, ground arith)
