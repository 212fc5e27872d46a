-- ===== src/Inbound/Doh/Tests.antt =====
-- The theorems about DNS-over-HTTPS at a concrete request.
use ts_dns.Common.{
  ◌≡◌, refl, ◌⊎◌, true, false, Option, none, some, [], ◌∷◌, ◌++◌, Bytes, codes, eq_bytes,
  trim_space,
}
use ts_dns.Dns.{a, Msg}
use ts_dns.Inbound.Doh.{Request, ok, WireLib, xff_client_ip, read_query, serve_http}
use ts_dns.Inbound.Doh.Clients.{IsServed, xff_client_ip-last, serve_http-IsServed}
use ts_dns.Samples.{sample_net, hdr, ask}

xff_client_ip-last_example :
    xff_client_ip sample_net (codes "6.6.6.6, 7.7.7.7" ++ b',' ∷ codes " 1.1.1.1") ≡ codes "1.1.1.1"
unfolding trim_space eq_bytes
xff_client_ip-last_example =
    xff_client_ip-last sample_net (codes "6.6.6.6, 7.7.7.7") (codes " 1.1.1.1") (codes "1.1.1.1")
      refl refl

-- A format in which a message is its first name.
abbrev wire : WireLib
wire = record {
  decode_base64 = λ s. some s;
  limit = λ n s. s;
  unpack = λ s. some (ask s 1);
  pack = λ m. some (codes "packed");
}

abbrev serve : Bytes → Bytes → Msg → Option Msg
serve addr proto req = some (record req { answer = a (hdr 1 60) addr ∷ [] })

abbrev get_request : Request
get_request = record {
  path = codes "/dns-query";
  method = codes "GET";
  dns_param = codes "x.cn.==";
  content_type = [];
  body = none;
  remote_addr = codes "127.0.0.1";
  tls = false;
  x_forwarded_for = codes "6.6.6.6, 1.1.1.1";
  x_forwarded_proto = codes "https";
}

is_ok : serve_http wire sample_net true serve get_request ≡ ok (codes "packed") (some 60)
unfolding serve_http
is_ok = refl

serve_http-IsServed_example :
    (get_request.path ≡ codes "/dns-query")
    × ((get_request.method ≡ codes "GET")
        ⊎ ((get_request.method ≡ codes "POST")
            × (get_request.content_type ≡ codes "application/dns-message")))
    × IsServed wire sample_net true serve get_request (read_query wire get_request) (codes "packed")
serve_http-IsServed_example =
    serve_http-IsServed wire sample_net true serve get_request (codes "packed") (some 60) is_ok
