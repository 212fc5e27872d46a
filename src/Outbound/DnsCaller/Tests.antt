-- ===== src/Outbound/DnsCaller/Tests.antt =====
-- The theorem about `Call` at a caller that reads nothing.
use ts_dns.Common.{◌≡◌, refl, ◌⊎◌, true, none, some, [], ◌∷◌, Bytes, codes}
use ts_dns.Outbound.DnsCaller.{
  DnsCaller, ConnLib, opened, write_deadline, wrote, read_deadline, read, closed, get_conn, call,
}
use ts_dns.Outbound.DnsCaller.Closes.{IsDue, IsUsed, call-IsUsed}
use ts_dns.Samples.{ask}

-- A network on which nothing is ever read; a connection is its server's name.
abbrev silent : ConnLib Bytes Bytes
silent = record {
  exchange = λ s m. none;
  dial = λ n s. some s;
  dial_through = λ p n s. some s;
  tls_client = λ n c. c;
  set_write_deadline = λ c d. true;
  write_msg = λ c m. true;
  set_read_deadline = λ c d. true;
  read_msg = λ c. none;
}

abbrev caller : DnsCaller Bytes
caller = record {
  net = codes "tcp";
  timeout = 5;
  tls = none;
  server = codes "1.1.1.1:53";
  proxy = none;
}

read_fails : call silent caller 10 11 (some 12) (ask (codes "x.cn.") 1) ≡ (
  none,
  opened caller.server
      ∷ write_deadline caller.server 12
      ∷ wrote caller.server (ask (codes "x.cn.") 1)
      ∷ read_deadline caller.server 12
      ∷ read caller.server
      ∷ closed caller.server
      ∷ [],
)
unfolding call
read_fails = refl

call-IsUsed_example :
    let acts = (call silent caller 10 11 (some 12) (ask (codes "x.cn.") 1)).1 in
    (acts ≡ [])
    ⊎ ((c : Bytes) × (get_conn silent caller ≡ some c)
        × IsUsed silent c
            (IsDue caller.timeout 10 (some 12))
            (IsDue caller.timeout 11 (some 12))
            acts)
call-IsUsed_example = call-IsUsed silent caller 10 11 (some 12) (ask (codes "x.cn.") 1)
