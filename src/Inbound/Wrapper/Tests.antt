-- ===== src/Inbound/Wrapper/Tests.antt =====
-- The theorems about the wrapper after a reload, a stop that overtakes it, and the handlers' ends.
use ts_dns.Common.{◌≡◌, refl, true, false, none, some, [], ◌∷◌}
use ts_dns.Inbound.Wrapper.{
  Wrapper, new_wrapper, reload_config, stop, stop_handler, Reachable, start, next, reload, halt,
  finish_stop, is_among,
}
use ts_dns.Inbound.Wrapper.Lifecycles.{handler_ptr-running, stopped-none_running}

abbrev serving : Wrapper
serving = record { stopped = false; handler_ptr = some 1; running = 1 ∷ []; due = [] }

reaches_serving : Reachable serving
unfolding reload_config
reaches_serving = next _ _ start (reload 1 new_wrapper refl)

handler_ptr-running_example :
    (is_among 1 (1 ∷ []) ≡ true) × (is_among 1 [] ≡ false) × (false ≡ false)
handler_ptr-running_example = handler_ptr-running serving 1 reaches_serving refl

abbrev ended : Wrapper
ended = record { stopped = true; handler_ptr = none; running = []; due = [] }

-- A second handler comes after the wrapper was stopped.
reaches_ended : Reachable ended
unfolding reload_config stop stop_handler
reaches_ended =
    let r1 = next _ _ reaches_serving (halt serving) in
    let r2 = next _ _ r1 (reload 2 (stop serving) refl) in
    let r3 = next _ _ r2 (finish_stop 1 (reload_config 2 (stop serving)) refl) in
    next _ _ r3 (finish_stop 2 (stop_handler 1 (reload_config 2 (stop serving))) refl)

stopped-none_running_example : ended.running ≡ []
stopped-none_running_example = stopped-none_running ended reaches_ended refl refl
