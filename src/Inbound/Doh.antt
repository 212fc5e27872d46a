-- ===== src/Inbound/Doh.antt =====
-- inbound/doh.go. What `ServeHTTP` reads of a request is a record; the query decoding of base64, the
-- message format, the resolution of an address and the handler behind are parameters. The answer is the
-- status, with the text of `http.Error`, or the message with its `max-age`.
use ts_dns.Common.{
  ℕ, zero, suc, Bool, true, false, not, Option, none, some, List, [], ◌∷◌, if◌then◌else◌, reverse,
}
use ts_dns.Common.{Bytes, codes, eq_bytes, to_lower, trim_space, trim_right, split, ◌>>=◌}
use ts_dns.Dns.{Ip, Msg, NetLib}
use ts_dns.Utils.Records.{get_min_ttl}
mod Clients
mod Tests

-- What `ServeHTTP` reads of a `http.Request`. A body that cannot be read is `none`.
pub record Request : Type 0 where
  pub path : Bytes
  pub method : Bytes
  pub dns_param : Bytes
  pub content_type : Bytes
  pub body : Option Bytes
  pub remote_addr : Bytes
  pub tls : Bool
  pub x_forwarded_for : Bytes
  pub x_forwarded_proto : Bytes

-- What it writes.
pub data Response : Type 0 where
  error : ℕ → Bytes → Response
  ok : Bytes → Option ℕ → Response

-- The base64 decoding, `io.LimitReader`, and packing and unpacking of messages.
pub record WireLib : Type 0 where
  pub decode_base64 : Bytes → Option Bytes
  pub limit : ℕ → Bytes → Bytes
  pub unpack : Bytes → Option Msg
  pub pack : Msg → Option Bytes

abbrev host_or : Option (Bytes × Bytes) → Bytes → Bytes
host_or none ip = ip
host_or (some (host, port)) ip = host

module _ (net : NetLib) where
  -- The text of one entry without its port.
  abbrev pub entry_host : Bytes → Bytes
  entry_host part = let ip = trim_space part in host_or (net.split_host_port ip) ip

  -- The loop of `xffClientIP`, over the entries from the last to the first.
  unfoldable pub first_address : List Bytes → Bytes
  unfolding trim_space
  first_address [] = []
  first_address (part ∷ rest) =
      let later = first_address rest in
      elim (net.parse_ip (entry_host part)) [ some ip ↦ entry_host part | none ↦ later ]

  -- `xffClientIP`.
  unfoldable pub xff_client_ip : Bytes → Bytes
  unfolding first_address split
  xff_client_ip xff = first_address (reverse (split b',' xff))

  -- `replaceHost`.
  abbrev join_with : Bytes → Option (Bytes × Bytes) → Bytes
  join_with ip none = ip
  join_with ip (some (host, port)) = net.join_host_port ip port

  unfoldable pub replace_host : Bytes → Bytes → Bytes
  replace_host addr ip = join_with ip (net.split_host_port addr)

  -- The client's address and protocol, as they are given to the handler.
  abbrev or_client : Bytes → Bytes → Bytes
  or_client addr [] = addr
  or_client addr (c ∷ s) = replace_host addr (c ∷ s)

  abbrev or_forwarded : Bytes → Bytes → Bytes
  or_forwarded addr [] = addr
  or_forwarded addr (c ∷ s) = or_client addr (xff_client_ip (c ∷ s))

  unfoldable pub client_addr : Bool → Request → Bytes
  unfolding xff_client_ip replace_host
  client_addr trust_forwarded r =
      if trust_forwarded then or_forwarded r.remote_addr r.x_forwarded_for else r.remote_addr

  abbrev or_proto : Bytes → Bytes → Bytes
  or_proto proto [] = proto
  or_proto proto (c ∷ s) = to_lower (trim_space (c ∷ s))

  unfoldable pub client_proto : Bool → Request → Bytes
  unfolding to_lower trim_space
  client_proto trust_forwarded r =
      let proto = if r.tls then codes "https" else codes "http" in
      if trust_forwarded then or_proto proto r.x_forwarded_proto else proto

-- The bytes of the query, or the error.
pub data Query : Type 0 where
  refused : ℕ → Bytes → Query
  query : Bytes → Query

module _ (wire : WireLib) where
  abbrev decoded : Option Bytes → Query
  decoded none = refused 400 (codes "invalid dns query")
  decoded (some q) = query q

  abbrev limited : Option Bytes → Query
  limited none = refused 400 (codes "failed to read request body")
  limited (some b) = query (wire.limit 65536 b)

  unfoldable pub read_query : Request → Query
  unfolding trim_right eq_bytes
  read_query r =
      if eq_bytes r.method (codes "GET")
      then decoded (wire.decode_base64 (trim_right b'=' r.dns_param))
      else if eq_bytes r.method (codes "POST")
      then if not (eq_bytes r.content_type (codes "application/dns-message"))
        then refused 415 (codes "unsupported media type")
        else limited r.body
      else refused 405 (codes "method not allowed")

  -- What is written for the handler's message.
  abbrev positive : ℕ → Option ℕ
  positive zero = none
  positive (suc n) = some (suc n)

  abbrev packed : Msg → Option Bytes → Response
  packed m none = error 500 (codes "failed to pack dns response")
  packed m (some bytes) = ok bytes (positive (get_min_ttl (some m)))

  unfoldable pub write_response : Option Msg → Response
  unfolding get_min_ttl
  write_response none = error 500 (codes "dns query failed")
  write_response (some m) = packed m (wire.pack m)

  -- `ServeHTTP`; `serve` is the handler at a client's address and protocol: the message it writes, if any.
  module _ (net : NetLib) (trust_forwarded : Bool) (serve : Bytes → Bytes → Msg → Option Msg) where
    abbrev pub answer_query : Request → Query → Response
    answer_query r (refused code text) = error code text
    answer_query r (query bytes) = elim (wire.unpack bytes) [
      | none ↦ error 400 (codes "failed to unpack dns query")
      | some req ↦
          write_response
            (serve (client_addr net trust_forwarded r) (client_proto net trust_forwarded r) req)
    ]

    unfoldable pub serve_http : Request → Response
    unfolding read_query write_response client_addr client_proto eq_bytes
    serve_http r =
        if not (eq_bytes r.path (codes "/dns-query"))
        then error 404 (codes "not found")
        else answer_query r (read_query r)
