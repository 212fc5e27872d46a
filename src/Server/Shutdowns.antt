-- ===== src/Server/Shutdowns.antt =====
-- cmd/main.go: failed starts, and the shutdown of `runPlain` and `runDoH`.
use ts_dns.Common.{
  ℕ, suc, ◌+◌, ◌≤◌, ◌<◌, ◌≡◌, refl, ◌⊎◌, inl, inr, ap, ◌∙◌, Bool, true, false, not, ◌||◌, Option,
  some, List, [], ◌∷◌, arith, keep, length, All, run, run-keeps, run-settles, Moves,
}
use ts_dns.Server.{
  Network, both, udp, tcp, Service, Handle, same_service, Failure, Phase, serving, stopping,
  returned, ServerState, Start, refused, started, close_all, start_plain, start_doh, Event, fail,
  ended, interrupt, report, finish, leave, is_running, without, step,
}

same_self : (v : Service) → same_service v v ≡ true
same_self v = ground arith

-- How a run starts.
abbrev pub IsStart : (Handle → Bool) → Bool → Network → Bool → Start → Type 0
IsStart can cert_loads network doh_http r =
    (start_plain can network doh_http ≡ r) ⊎ (start_doh can cert_loads network doh_http ≡ r)

plain_refused :
    (can : Handle → Bool) (network : Network) (doh_http : Bool) (e : Failure) (hs : List Handle)
    → start_plain can network doh_http ≡ refused e hs
    → hs ≡ []
unfolding start_plain
plain_refused can both doh_http e hs h = ground arith
plain_refused can udp doh_http e hs h = ground arith
plain_refused can tcp doh_http e hs h = ground arith

doh_refused :
    (can : Handle → Bool) (cert_loads : Bool) (network : Network) (doh_http : Bool) (e : Failure)
    (hs : List Handle)
    → start_doh can cert_loads network doh_http ≡ refused e hs
    → hs ≡ []
unfolding start_doh
doh_refused can cert_loads both doh_http e hs h = ground arith
doh_refused can cert_loads udp doh_http e hs h = ground arith
doh_refused can cert_loads tcp doh_http e hs h = ground arith

-- A start that fails, in `runPlain` or in `runDoH`, leaves nothing open.
pub start-refused :
    (can : Handle → Bool) (cert_loads : Bool) (network : Network) (doh_http : Bool) (e : Failure)
    (hs : List Handle)
    → IsStart can cert_loads network doh_http (refused e hs)
    → hs ≡ []
start-refused can cert_loads network doh_http e hs (inl h) =
    plain_refused can network doh_http e hs h
start-refused can cert_loads network doh_http e hs (inr h) =
    doh_refused can cert_loads network doh_http e hs h

-- The shutdown would close everything, or it has done so.
abbrev IsSound : ServerState → Type 0
IsSound s =
    ((s.phase ≡ serving) × (close_all s.closes s.open_handles ≡ []))
    ⊎ ((r : Option Failure) × (s.phase ≡ stopping r) × (s.open_handles ≡ []))
    ⊎ ((r : Option Failure) × (s.phase ≡ returned r))

plain_sound :
    (can : Handle → Bool) (network : Network) (doh_http : Bool) (s : ServerState)
    → start_plain can network doh_http ≡ started s
    → (s.phase ≡ serving) × (close_all s.closes s.open_handles ≡ [])
unfolding start_plain
plain_sound can both doh_http s h = ground arith
plain_sound can udp doh_http s h = ground arith
plain_sound can tcp doh_http s h = ground arith

doh_sound :
    (can : Handle → Bool) (cert_loads : Bool) (network : Network) (doh_http : Bool)
    (s : ServerState)
    → start_doh can cert_loads network doh_http ≡ started s
    → (s.phase ≡ serving) × (close_all s.closes s.open_handles ≡ [])
unfolding start_doh
doh_sound can cert_loads both doh_http s h = ground arith
doh_sound can cert_loads udp doh_http s h = ground arith
doh_sound can cert_loads tcp doh_http s h = ground arith

start-IsSound :
    (can : Handle → Bool) (cert_loads : Bool) (network : Network) (doh_http : Bool)
    (s : ServerState)
    → IsStart can cert_loads network doh_http (started s)
    → IsSound s
start-IsSound can cert_loads network doh_http s (inl h) = inl (plain_sound can network doh_http s h)
start-IsSound can cert_loads network doh_http s (inr h) =
    inl (doh_sound can cert_loads network doh_http s h)

step-IsSound : (s s' : ServerState) (e : Event) → step s e ≡ some s' → IsSound s → IsSound s'
unfolding step
step-IsSound s s' (fail v) h i = ground arith
step-IsSound s s' (ended v) h i = ground arith
step-IsSound s s' interrupt h i = ground arith
step-IsSound s s' report h i = ground arith
step-IsSound s s' finish h i = ground arith
step-IsSound s s' leave h i = ground arith

length-keep : {A : Type 0} (p : A → Bool) (xs : List A) → length (keep p xs) ≤ length xs
length-keep p [] = omega arith
length-keep p (x ∷ xs) = ground (arith, length-keep p xs)

length-without :
    (v : Service) (xs : List Service) → is_running v xs ≡ true → length (without v xs) < length xs
unfolding is_running without
length-without v [] h = cc
length-without v (w ∷ xs) h =
    ground (arith, length-without v xs, length-keep (λ w. not (same_service v w)) xs)

-- A step that needs no signal and no failure, after the shutdown.
abbrev pub is_own : Event → Bool
is_own (fail v) = false
is_own (ended v) = true
is_own interrupt = false
is_own report = false
is_own finish = false
is_own leave = true

abbrev phase_rank : Phase → ℕ
phase_rank serving = 2
phase_rank (stopping r) = 1
phase_rank (returned r) = 0

abbrev rank : ServerState → ℕ
rank s = length s.running + phase_rank s.phase

step-rank :
    (s s' : ServerState) (e : Event) → is_own e ≡ true → step s e ≡ some s' → rank s' < rank s
unfolding step
step-rank s s' (ended v) o h = ground (arith, length-without v s.running)
step-rank s s' leave o h = ground arith
step-rank s s' (fail v) o h = cc
step-rank s s' interrupt o h = cc
step-rank s s' report o h = cc
step-rank s s' finish o h = cc

-- `run` has returned this, all services have ended, and nothing is open.
abbrev pub IsReturned : Option Failure → ServerState → Type 0
IsReturned result s = (s.phase ≡ returned result) × (s.running ≡ []) × (s.open_handles ≡ [])

module _ (result : Option Failure) where
  abbrev IsLeaving : ServerState → Type 0
  IsLeaving s =
      ((s.phase ≡ stopping result) ⊎ ((s.phase ≡ returned result) × (s.running ≡ [])))
      × (s.open_handles ≡ [])

  step-IsLeaving :
      (s s' : ServerState) (e : Event)
      → is_own e ≡ true
      → step s e ≡ some s'
      → IsLeaving s
      → IsLeaving s'
  unfolding step
  step-IsLeaving s s' (ended v) o h l = ground arith
  step-IsLeaving s s' leave o h l = ground arith
  step-IsLeaving s s' (fail v) o h l = cc
  step-IsLeaving s s' interrupt o h l = cc
  step-IsLeaving s s' report o h l = cc
  step-IsLeaving s s' finish o h l = cc

  can_leave : (s : ServerState) → s.phase ≡ stopping result → s.running ≡ [] → Moves step is_own s
  unfolding step
  can_leave s p e = (leave, record s { phase = returned result }, refl, ground arith)

  can_end :
      (s : ServerState) (v : Service) (vs : List Service)
      → s.running ≡ v ∷ vs
      → s.open_handles ≡ []
      → Moves step is_own s
  unfolding step is_running
  can_end s v vs e o =
      let running : is_running v s.running ≡ true =
        ap (is_running v) e ∙ ap (λ b. b || is_running v vs) (same_self v) in
      (ended v, record s { running = without v s.running }, refl, ground (arith, running, e, o))

  progress : (s : ServerState) → IsLeaving s → IsReturned result s ⊎ Moves step is_own s
  progress s (inr (p, e), o) = inl (p, e, o)
  progress s (inl p, o) = next s.running refl
    where
      next : (vs : List Service) → s.running ≡ vs → IsReturned result s ⊎ Moves step is_own s
      next [] e = inr (can_leave s p e)
      next (v ∷ vs) e = inr (can_end s v vs e o)

  leaving : (s : ServerState) → s.phase ≡ stopping result → IsSound s → IsLeaving s
  leaving s p i = ground arith

  -- Once a signal or an error has made `runPlain` or `runDoH` shut down, whatever happened before: its services
  -- end and it leaves by itself, in any order, with at most one step for each service and one more, so
  -- that it returns that result; then no service runs and nothing that it opened is open.
  pub run-IsReturned :
      (can : Handle → Bool) (cert_loads : Bool) (network : Network) (doh_http : Bool)
      (before own : List Event) (s₀ s s' : ServerState)
      → IsStart can cert_loads network doh_http (started s₀)
      → run step s₀ before ≡ some s
      → s.phase ≡ stopping result
      → All (λ e. is_own e ≡ true) own
      → run step s own ≡ some s'
      → (more : List Event) × (s'' : ServerState) × All (λ e. is_own e ≡ true) more
        × (run step s' more ≡ some s'')
        × (length own + length more ≤ suc (length s.running))
        × IsReturned result s''
  run-IsReturned can cert_loads network doh_http before own s₀ s s' i h p os h' =
      let sound =
        run-keeps step IsSound step-IsSound before s₀ s h
          (start-IsSound can cert_loads network doh_http s₀ i) in
      let (more, s'', ms, h'', n, d) =
        run-settles step is_own rank IsLeaving step-IsLeaving step-rank (IsReturned result) progress
          own s s' (leaving s p sound) os h' in
      (more, s'', ms, h'', ground (arith, n, p), d)
