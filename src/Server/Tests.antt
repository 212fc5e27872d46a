-- ===== src/Server/Tests.antt =====
-- The theorems about the servers at a run with every service.
use ts_dns.Common.{
  suc, ◌+◌, ◌≤◌, ◌≡◌, refl, inl, inr, Bool, true, none, some, List, [], ◌∷◌, All, length, run,
  codes, not,
}
use ts_dns.Server.{
  both, udp, parse_listen, Handle, tcp_server, udp_service, ServerState, started, refused,
  listen_tcp, start_plain, start_doh, Event, ended, interrupt, step, same_handle, stopping,
}
use ts_dns.Server.Shutdowns.{start-refused, is_own, IsReturned, run-IsReturned}

upper : parse_listen (codes ":53/UDP") ≡ some (codes ":53", udp)
unfolding parse_listen
upper = refl

abbrev all_but_tcp : Handle → Bool
all_but_tcp h = not (same_handle h tcp_server)

abbrev left_open : List Handle
left_open = []

tcp_in_use : start_plain all_but_tcp both true ≡ refused listen_tcp left_open
unfolding start_plain
tcp_in_use = refl

start-refused_example : left_open ≡ []
start-refused_example =
    start-refused all_but_tcp true both true listen_tcp left_open (inl tcp_in_use)

abbrev everything : Handle → Bool
everything h = true

abbrev first : (s : ServerState) × (start_doh everything true both true ≡ started s)
unfolding start_doh
first = (_, refl)

abbrev stopped :
    (s : ServerState) × (run step first.0 (interrupt ∷ []) ≡ some s) × (s.phase ≡ stopping none)
unfolding run step start_doh
stopped = (_, refl, refl)

abbrev left : (s : ServerState) × (run step stopped.0 (ended udp_service ∷ []) ≡ some s)
unfolding run step start_doh
left = (_, refl)

run-IsReturned_example :
    (more : List Event) × (s : ServerState) × All (λ e. is_own e ≡ true) more
    × (run step left.0 more ≡ some s)
    × (1 + length more ≤ suc (length stopped.0.running))
    × IsReturned none s
run-IsReturned_example =
    run-IsReturned none everything true both true (interrupt ∷ []) (ended udp_service ∷ []) first.0
      stopped.0 left.0 (inr first.1) stopped.1 stopped.2 (refl, tt) left.1
