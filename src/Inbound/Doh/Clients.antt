-- ===== src/Inbound/Doh/Clients.antt =====
-- Which client a DNS-over-HTTPS query is attributed to.
use ts_dns.Common.{
  ℕ, ◌≡◌, refl, ap, ◌∙◌, Bool, false, not, Option, none, some, List, [], ◌∷◌, ◌++◌, arith, reverse,
}
use ts_dns.Common.{
  any, ◌==◌, Bytes, split, split-append, split-whole, Option-cases, Bool-cases, if-false, eq_bytes,
  eq_bytes_iff, codes, inl, inr, ◌⊎◌,
}
use mathlib.Core.List.{reverse_aux}
use ts_dns.Dns.{Ip, Msg, NetLib}
use ts_dns.Inbound.Doh.{
  Request, WireLib, entry_host, first_address, xff_client_ip, client_addr, client_proto, read_query,
  answer_query, serve_http, Query, query, refused, ok, write_response,
}

reverse_aux-snoc :
    {A : Type 0} (xs : List A) (y : A) (acc : List A)
    → reverse_aux (xs ++ y ∷ []) acc ≡ y ∷ reverse_aux xs acc
reverse_aux-snoc [] y acc = refl
reverse_aux-snoc (x ∷ xs) y acc = reverse_aux-snoc xs y (x ∷ acc)

module _ (net : NetLib) where
  -- An address without comma that is the last entry of the forwarded-for header, with or without a port,
  -- is the client, whatever stands before it: what a client sends itself does not count.
  pub xff_client_ip-last :
      (forged entry : Bytes) (ip : Ip)
      → any (λ c. c == b',') entry ≡ false
      → net.parse_ip (entry_host net entry) ≡ some ip
      → xff_client_ip net (forged ++ b',' ∷ entry) ≡ entry_host net entry
  unfolding xff_client_ip first_address
  xff_client_ip-last forged entry ip plain parses =
      let parts : reverse (split b',' (forged ++ b',' ∷ entry))
          ≡ entry ∷ reverse (split b',' forged) =
        ap reverse (
          split-append b',' forged entry
          ∙ ap (◌++◌ (split b',' forged)) (split-whole b',' entry plain))
        ∙ reverse_aux-snoc (split b',' forged) entry [] in
      ap (first_address net) parts
      ∙ ap
          (λ o. elim o [
            | some i ↦ entry_host net entry
            | none ↦ first_address net (reverse (split b',' forged))
          ])
          parses

module _ (wire : WireLib) (net : NetLib) (trust : Bool)
    (serve : Bytes → Bytes → Msg → Option Msg) where
  -- Where an answer's bytes come from: a query that unpacks, the handler's message for it, and this
  -- message packed.
  abbrev pub IsServed : Request → Query → Bytes → Type 0
  IsServed r q bytes =
      (text : Bytes) × (req m : Msg) × (q ≡ query text)
      × (wire.unpack text ≡ some req)
      × (serve (client_addr net trust r) (client_proto net trust r) req ≡ some m)
      × (wire.pack m ≡ some bytes)

  packed-ok :
      (m : Msg) (bytes : Bytes) (age : Option ℕ)
      → write_response wire (some m) ≡ ok bytes age
      → wire.pack m ≡ some bytes
  unfolding write_response
  packed-ok m bytes age h = elim (Option-cases (wire.pack m)) [
    | inl off ↦ ground arith
    | inr (b, on) ↦ ground arith
  ]

  written-ok :
      (o : Option Msg) (bytes : Bytes) (age : Option ℕ)
      → write_response wire o ≡ ok bytes age
      → (m : Msg) × (o ≡ some m) × (wire.pack m ≡ some bytes)
  unfolding write_response
  written-ok none bytes age h = cc
  written-ok (some m) bytes age h = (m, refl, packed-ok m bytes age h)

  answer_query-ok :
      (r : Request) (q : Query) (bytes : Bytes) (age : Option ℕ)
      → answer_query wire net trust serve r q ≡ ok bytes age
      → IsServed r q bytes
  answer_query-ok r (refused code text) bytes age h = cc
  answer_query-ok r (query text) bytes age h = elim (Option-cases (wire.unpack text)) [
    | inl off ↦ absurd (ground arith)
    | inr (req, on) ↦
        let (m, served, packs) =
          written-ok (serve (client_addr net trust r) (client_proto net trust r) req) bytes age
            (ground arith) in
        (text, req, m, refl, on, served, packs)
  ]

  read_query-method :
      (r : Request) (text : Bytes)
      → read_query wire r ≡ query text
      → (r.method ≡ codes "GET")
        ⊎ ((r.method ≡ codes "POST") × (r.content_type ≡ codes "application/dns-message"))
  unfolding read_query
  read_query-method r text h = ground (
    arith,
    eq_bytes_iff r.method (codes "GET"),
    eq_bytes_iff r.method (codes "POST"),
    eq_bytes_iff r.content_type (codes "application/dns-message"),
  )

  -- A request is answered with a message only on the path of DNS queries, by GET, or by POST with the
  -- content type of DNS messages, if its query unpacks and the handler answers it; the bytes
  -- are the handler's message packed.
  pub serve_http-IsServed :
      (r : Request) (bytes : Bytes) (age : Option ℕ)
      → serve_http wire net trust serve r ≡ ok bytes age
      → (r.path ≡ codes "/dns-query")
        × ((r.method ≡ codes "GET")
            ⊎ ((r.method ≡ codes "POST") × (r.content_type ≡ codes "application/dns-message")))
        × IsServed r (read_query wire r) bytes
  unfolding serve_http
  serve_http-IsServed r bytes age h = elim (Bool-cases (eq_bytes r.path (codes "/dns-query"))) [
    | inr off ↦ absurd (ground arith)
    | inl on ↦
        let (text, req, m, q, unpacks, served, packs) =
          answer_query-ok r (read_query wire r) bytes age
            (if-false (not (eq_bytes r.path (codes "/dns-query"))) _ _ (ground arith) h) in
        (
          (eq_bytes_iff r.path (codes "/dns-query")).0 on,
          read_query-method r text q,
          (text, req, m, q, unpacks, served, packs),
        )
  ]
