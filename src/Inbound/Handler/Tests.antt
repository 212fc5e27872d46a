-- ===== src/Inbound/Handler/Tests.antt =====
-- The theorems about the handler at concrete groups. The state is the number of calls of groups.
use ts_dns.Common.{ℕ, suc, Bool, true, false, none, some, [], ◌∷◌}
use ts_dns.Common.{Bytes, codes}
use ts_dns.Dns.{a, Msg}
use ts_dns.Inbound.Handler.{Group, Handler}
use ts_dns.Samples.{hdr, ask}

abbrev answer : Bytes → Msg
answer ip = record (ask (codes "x.cn.") 1) { answer = a (hdr 1 60) ip ∷ [] }

abbrev group_of : Bytes → Bool → Bool → Group ℕ
group_of name fallback matching = record {
  name = name;
  is_fallback = fallback;
  has_gfw_list = false;
  match = λ s req. matching;
  handle = λ s req. (suc s, some (answer name));
  post_process = λ s req resp. s;
}

abbrev dirty : Group ℕ
dirty = group_of (codes "dirty") false true

abbrev other_group : Group ℕ
other_group = group_of (codes "other") false false

abbrev clean : Group ℕ
clean = group_of (codes "clean") true false

abbrev handler : Handler ℕ
handler = record {
  disable_qtypes = 28 ∷ [];
  hosts_get = λ req. none;
  cache_get = λ s req. (s, none);
  cache_set = λ s req resp. s;
  group_list = other_group ∷ dirty ∷ clean ∷ [];
  fallback_group = clean;
  redirector = some (λ g req resp. some clean);
}
