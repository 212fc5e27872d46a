-- ===== src/Outbound/DnsCaller.antt =====
-- outbound/caller.go: `DNSCaller`: `Call`, `getConn`, `deadline`, `putConn`. The network is a record of
-- operations; what `Call` does to its connection is listed in order. Times are nanoseconds.
use ts_dns.Common.{
  ℕ, ◌+◌, Bool, true, false, not, ◌&&◌, Option, none, some, List, [], ◌∷◌, ◌++◌, if◌then◌else◌, ltb,
  Bytes, codes, eq_bytes, cut_before, is_some,
}
use ts_dns.Dns.{Msg}
mod Closes
mod Tests

-- `DNSCaller`, over the type of dialers; `tls` is the server name of the TLS configuration.
pub record DnsCaller (P : Type 0) : Type 0 where
  pub net : Bytes
  pub timeout : ℕ
  pub tls : Option Bytes
  pub server : Bytes
  pub proxy : Option P

-- What the code uses of Go's `net` and `crypto/tls` and of github.com/miekg/dns, over the types of
-- dialers and of connections. A connection that fails or is slow gives `false` or `none`.
pub record ConnLib (P C : Type 0) : Type 0 where
  pub exchange : Bytes → Msg → Option Msg
  pub dial : Bytes → Bytes → Option C
  pub dial_through : P → Bytes → Bytes → Option C
  pub tls_client : Bytes → C → C
  pub set_write_deadline : C → ℕ → Bool
  pub write_msg : C → Msg → Bool
  pub set_read_deadline : C → ℕ → Bool
  pub read_msg : C → Option Msg

-- What is done to a connection.
pub data Act (C : Type 0) : Type 0 where
  opened : C → Act C
  write_deadline : C → ℕ → Act C
  wrote : C → Msg → Act C
  read_deadline : C → ℕ → Act C
  read : C → Act C
  closed : C → Act C

-- `deadline`, at a time and with the deadline of the context, if it has one.
unfoldable pub deadline : ℕ → ℕ → Option ℕ → ℕ
deadline timeout now none = now + timeout
deadline timeout now (some d) = if ltb d (now + timeout) then d else now + timeout

module _ {P C : Type 0} (lib : ConnLib P C) where
  abbrev wrap : Option Bytes → C → C
  wrap none c = c
  wrap (some name) c = lib.tls_client name c

  abbrev dialled : DnsCaller P → Option C
  dialled caller = elim caller.proxy [
    | none ↦ lib.dial (cut_before b'-' caller.net) caller.server
    | some p ↦ lib.dial_through p (codes "tcp") caller.server
  ]

  -- `getConn`.
  unfoldable pub get_conn : DnsCaller P → Option C
  unfolding cut_before
  get_conn caller = elim (dialled caller) [ none ↦ none | some c ↦ some (wrap caller.tls c) ]

  -- `Call` behind `getConn`.
  unfoldable pub exchange_on : C → ℕ → ℕ → Msg → Option Msg × List (Act C)
  exchange_on c write_by read_by request =
      let acts = opened c ∷ write_deadline c write_by ∷ [] in
      if not (lib.set_write_deadline c write_by)
      then (none, acts ++ closed c ∷ [])
      else if not (lib.write_msg c request)
      then (none, acts ++ wrote c request ∷ closed c ∷ [])
      else if not (lib.set_read_deadline c read_by)
      then (none, acts ++ wrote c request ∷ read_deadline c read_by ∷ closed c ∷ [])
      else (
        lib.read_msg c,
        acts ++ wrote c request ∷ read_deadline c read_by ∷ read c ∷ closed c ∷ [],
      )

  -- `Call`, with the times at which the two deadlines are set and the context's deadline.
  unfoldable pub call : DnsCaller P → ℕ → ℕ → Option ℕ → Msg → Option Msg × List (Act C)
  unfolding get_conn exchange_on deadline eq_bytes
  call caller written reading ctx request =
      if eq_bytes caller.net (codes "udp") && not (is_some caller.proxy)
      then (lib.exchange caller.server request, [])
      else elim (get_conn caller) [
        | none ↦ (none, [])
        | some c ↦
            exchange_on c (deadline caller.timeout written ctx)
              (deadline caller.timeout reading ctx) request
      ]
