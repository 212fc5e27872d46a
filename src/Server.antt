-- ===== src/Server.antt =====
-- cmd/main.go: `runPlain`, `runDoH`, `startPlaintextDoH` and the shutdown functions.
-- A service is a goroutine of the wait group; a handle is what a shutdown closes: a socket with its server, the
-- TLS multiplexer or the channel that stops the reloading of the certificate. A service ends once its
-- handle is closed, as `dns`, `net/http` and `cmux` document for their servers, or fails before. Files, user
-- and listening are parameters.
use ts_dns.Common.{
  ℕ, Bool, true, false, not, ◌&&◌, ◌||◌, Option, none, some, List, [], ◌∷◌, ◌++◌, if◌then◌else◌,
  ◌==◌, any, keep, Bytes, codes, eq_bytes, to_lower, is_some,
}
use ts_dns.Outbound.Hijack.{is_nil}
mod Endpoints
mod Listens
mod Shutdowns
mod Tests
unfoldable pub use Endpoints.*

pub data Service : Type 0 where
  udp_service tcp_service cert_watcher https_service any_service mux_service http_service : Service

pub data Handle : Type 0 where
  udp_server tcp_server cert_done https_server mux tcp_listener http_server : Handle

abbrev service_number : Service → ℕ
service_number udp_service = 0
service_number tcp_service = 1
service_number cert_watcher = 2
service_number https_service = 3
service_number any_service = 4
service_number mux_service = 5
service_number http_service = 6

abbrev handle_number : Handle → ℕ
handle_number udp_server = 0
handle_number tcp_server = 1
handle_number cert_done = 2
handle_number https_server = 3
handle_number mux = 4
handle_number tcp_listener = 5
handle_number http_server = 6

abbrev pub same_service : Service → Service → Bool
same_service v w = service_number v == service_number w

abbrev pub same_handle : Handle → Handle → Bool
same_handle h k = handle_number h == handle_number k

-- What ends a service.
abbrev pub handle_of : Service → Handle
handle_of udp_service = udp_server
handle_of tcp_service = tcp_server
handle_of cert_watcher = cert_done
handle_of https_service = https_server
handle_of any_service = mux
handle_of mux_service = tcp_listener
handle_of http_service = http_server

pub data Failure : Type 0 where
  listen_udp listen_tcp load_cert listen_http : Failure
  service_stopped : Service → Failure

-- Serving, shut down with what will be returned, or back in `main`.
pub data Phase : Type 0 where
  serving : Phase
  stopping returned : Option Failure → Phase

-- A run, with what its shutdown closes.
pub record ServerState : Type 0 where
  pub running : List Service
  pub open_handles : List Handle
  pub errors : List Failure
  pub closes : List Handle
  pub phase : Phase

-- A start: refused, with what is still open, or a run.
pub data Start : Type 0 where
  refused : Failure → List Handle → Start
  started : ServerState → Start

unfoldable pub is_open : Handle → List Handle → Bool
is_open h handles = any (same_handle h) handles

-- Close each of some handles.
unfoldable pub close_all : List Handle → List Handle → List Handle
close_all [] handles = handles
close_all (h ∷ hs) handles = close_all hs (keep (λ k. not (same_handle h k)) handles)

-- `startPlaintextDoH`, added to what was started: it listens where an address is set.
unfoldable pub start_plaintext_doh : (Handle → Bool) → Bool → ServerState → ServerState
start_plaintext_doh can doh_http s =
    if not doh_http
    then s
    else if can http_server
    then record s {
      running = s.running ++ http_service ∷ [];
      open_handles = s.open_handles ++ http_server ∷ [];
    }
    else record s { errors = s.errors ++ listen_http ∷ [] }

abbrev serve : List Service → List Handle → ServerState
serve services handles = record {
  running = services;
  open_handles = handles;
  errors = [];
  closes = [];
  phase = serving;
}

abbrev when {ℓ} : {A : Type ℓ} → Bool → List A → List A
when true xs = xs
when false xs = []

-- What the shutdown of `runPlain` closes: the servers of its list, and the HTTP server, if there is one.
unfoldable pub shutdown_plain : Network → ServerState → ServerState
unfolding is_open
shutdown_plain network s = record s {
  closes =
      when (wants_udp network) (udp_server ∷ [])
      ++ when (wants_tcp network) (tcp_server ∷ [])
      ++ when (is_open http_server s.open_handles) (http_server ∷ []);
}

-- What `shutdown` of `runDoH` closes, for the variables that are not nil.
unfoldable pub shutdown_doh : Network → ServerState → ServerState
unfolding is_open
shutdown_doh network s = record s {
  closes =
      when (wants_tcp network) (cert_done ∷ https_server ∷ [])
      ++ when (is_open http_server s.open_handles) (http_server ∷ [])
      ++ when (wants_udp network) (udp_server ∷ [])
      ++ when (wants_tcp network) (mux ∷ tcp_listener ∷ []);
}

-- `runPlain` up to its `select`, where `can` tells what can be listened on. `closeRuntimes` closes what was
-- opened before.
unfoldable pub start_plain : (Handle → Bool) → Network → Bool → Start
unfolding close_all start_plaintext_doh shutdown_plain
start_plain can network doh_http =
    let udps = when (wants_udp network) (udp_server ∷ []) in
    if wants_udp network && not (can udp_server)
    then refused listen_udp []
    else if wants_tcp network && not (can tcp_server)
    then refused listen_tcp (close_all udps udps)
    else started (
        shutdown_plain network (
          start_plaintext_doh can doh_http (
            serve
              (when (wants_udp network) (udp_service ∷ [])
                ++ when (wants_tcp network) (tcp_service ∷ []))
              (udps ++ when (wants_tcp network) (tcp_server ∷ [])))))

-- `runDoH` up to its `select`. A failure behind the first listener closes the listener, if it is open, and
-- the UDP server (`cleanupStarted`).
unfoldable pub start_doh : (Handle → Bool) → Bool → Network → Bool → Start
unfolding close_all start_plaintext_doh shutdown_doh
start_doh can cert_loads network doh_http =
    let udps = when (wants_udp network) (udp_server ∷ []) in
    if wants_udp network && not (can udp_server)
    then refused listen_udp []
    else if wants_tcp network && not (can tcp_listener)
    then refused listen_tcp (close_all udps udps)
    else if wants_tcp network && not cert_loads
    then refused load_cert (close_all (tcp_listener ∷ udps) (udps ++ tcp_listener ∷ []))
    else started (
        shutdown_doh network (
          start_plaintext_doh can doh_http (
            serve
              (when (wants_udp network) (udp_service ∷ [])
                ++ when (wants_tcp network)
                    (cert_watcher ∷ https_service ∷ any_service ∷ mux_service ∷ []))
              (udps
                ++ when (wants_tcp network) (tcp_listener ∷ mux ∷ cert_done ∷ https_server ∷ [])))))

-- What happens while servers run: a service fails and reports it, a service ends because its handle is
-- closed, a signal comes, `run` takes an error, sees that all services have ended, or leaves after a
-- shutdown, when all have.
pub data Event : Type 0 where
  fail ended : Service → Event
  interrupt report finish leave : Event

abbrev can_fail : Service → Bool
can_fail v = not (same_service v cert_watcher)

unfoldable pub is_running : Service → List Service → Bool
is_running v services = any (same_service v) services

unfoldable pub without : Service → List Service → List Service
without v services = keep (λ w. not (same_service v w)) services

abbrev pub first_error : List Failure → Option Failure
first_error [] = none
first_error (e ∷ es) = some e

-- The shutdown and what will be returned.
unfoldable pub shut_down : Option Failure → List Failure → ServerState → ServerState
unfolding close_all
shut_down result errors s = record s {
  open_handles = close_all s.closes s.open_handles;
  errors = errors;
  phase = stopping result;
}

unfoldable pub step : ServerState → Event → Option ServerState
unfolding is_running without shut_down is_open
step s (fail v) =
    if is_running v s.running && can_fail v
    then some
        (record s { running = without v s.running; errors = s.errors ++ service_stopped v ∷ [] })
    else none
step s (ended v) =
    if is_running v s.running && not (is_open (handle_of v) s.open_handles)
    then some (record s { running = without v s.running })
    else none
step s interrupt = elim s.phase [ serving ↦ some (shut_down none s.errors s) | _ ↦ none ]
step s report = elim s.phase [
  | serving ↦ elim s.errors [ [] ↦ none | e ∷ es ↦ some (shut_down (some e) es s) ]
  | _ ↦ none
]
step s finish = elim s.phase [
  | serving ↦
      if is_nil s.running then some (record s { phase = returned (first_error s.errors) }) else none
  | _ ↦ none
]
step s leave = elim s.phase [
  | stopping result ↦ if is_nil s.running then some (record s { phase = returned result }) else none
  | _ ↦ none
]
