-- ===== src/Inbound/Wrapper.antt =====
-- inbound/handler.go: `handlerWrapper`. A configured handler is a number, and a ghost list holds those
-- that were started and not yet stopped. `lifecycleMu` makes the middle part of `ReloadConfig` and
-- of `Stop` one step; the call `old.stop()` behind it is a step of its own, and other calls may run
-- between the two. A configuration that cannot be built changes nothing.
use ts_dns.Common.{
  ℕ, Bool, true, false, Option, none, some, List, [], ◌∷◌, if◌then◌else◌, ◌==◌, any, not, ◌||◌, ◌≡◌,
}
use ts_dns.Dns.{Msg, DnsLib}
use ts_dns.Inbound.Handler.{new_msg, rcode_server_failure}
mod Lifecycles
mod Tests

-- `handlerWrapper`, with the handlers that run and the calls of `stop` that are due.
pub record Wrapper : Type 0 where
  pub stopped : Bool
  pub handler_ptr : Option ℕ
  pub running : List ℕ
  pub due : List ℕ

abbrev pub new_wrapper : Wrapper
new_wrapper = record { stopped = false; handler_ptr = none; running = []; due = [] }

abbrev pub cons_old : Option ℕ → List ℕ → List ℕ
cons_old none due = due
cons_old (some i) due = i ∷ due

-- `ReloadConfig` with the built handler i, up to the second unlock. A handler that comes too late is
-- not started, and its `stop` is due as well.
unfoldable pub reload_config : ℕ → Wrapper → Wrapper
reload_config i w = if w.stopped then record w { due = i ∷ w.due } else record w {
  handler_ptr = some i;
  running = i ∷ w.running;
  due = cons_old w.handler_ptr w.due;
}

-- `Stop`, up to the second unlock.
unfoldable pub stop : Wrapper → Wrapper
stop w =
    if w.stopped
    then w
    else record w { stopped = true; handler_ptr = none; due = cons_old w.handler_ptr w.due }

-- One occurrence of a number less.
unfoldable pub remove_one : ℕ → List ℕ → List ℕ
remove_one i [] = []
remove_one i (j ∷ js) = let rest = remove_one i js in if j == i then js else j ∷ rest

-- `old.stop()`, or `h.stop()` of the handler that came too late.
unfoldable pub stop_handler : ℕ → Wrapper → Wrapper
unfolding remove_one
stop_handler i w = record w { running = remove_one i w.running; due = remove_one i w.due }

-- `ServeDNS`: what is written, given what each handler would write.
unfoldable pub serve_wrapped : DnsLib → (ℕ → Msg → Msg) → Wrapper → Msg → Msg
serve_wrapped dns serve w req = elim w.handler_ptr [
  | none ↦ dns.set_rcode new_msg req rcode_server_failure
  | some i ↦ serve i req
]

abbrev pub is_among : ℕ → List ℕ → Bool
is_among i = any (λ j. j == i)

abbrev pub is_fresh : ℕ → Wrapper → Bool
is_fresh i w = not (is_among i w.running || is_among i w.due)

-- The steps of concurrent calls, in any order. Each reload builds a handler of its own.
pub data Step : Wrapper → Wrapper → Type 0 where
  reload : (i : ℕ) (w : Wrapper) → is_fresh i w ≡ true → Step w (reload_config i w)
  halt : (w : Wrapper) → Step w (stop w)
  finish_stop : (i : ℕ) (w : Wrapper) → is_among i w.due ≡ true → Step w (stop_handler i w)

pub data Reachable : Wrapper → Type 0 where
  start : Reachable new_wrapper
  next : (w w' : Wrapper) → Reachable w → Step w w' → Reachable w'
