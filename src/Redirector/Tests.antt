-- ===== src/Redirector/Tests.antt =====
-- The theorems about redirectors at a concrete set of networks.
use ts_dns.Common.{◌≡◌, ◌≢◌, refl, Bool, true, false, Option, none, some, List, [], ◌∷◌, any}
use ts_dns.Common.{Bytes, codes, eq_bytes, lookup}
use ts_dns.Dns.{a, Msg}
use ts_dns.Redirector.{
  RangerLib, CidrRedirector, RedirectorConf, matches, new_instance, redirect_from,
}
use ts_dns.Redirector.Redirects.{has_address, redirect_from-other}
use ts_dns.Samples.{sample_net, hdr, ask}

-- Single addresses for networks.
abbrev ranges : RangerLib
ranges = record {
  Ranger = List Bytes;
  new_ranger = [];
  insert = λ r (ip, bits). some (ip ∷ r);
  contains = λ r ip. some (any (eq_bytes ip) r);
}

abbrev name_of : Bytes → Bytes
name_of g = g

abbrev no_file : Bytes → Option (List Bytes × Bool)
no_file f = none

abbrev groups : List (Bytes × Bytes)
groups = (codes "clean", codes "clean") ∷ (codes "dirty", codes "dirty") ∷ []

abbrev mixed : RedirectorConf
mixed = record {
  type_name = codes "Mismatch_CIDR";
  dst_group = codes "dirty";
  rules = codes "1.1.1.1" ∷ [];
  rules_file = [];
}

abbrev built : CidrRedirector (List Bytes) Bytes
built = record {
  name = codes "r";
  ranger = codes "1.1.1.1" ∷ [];
  not_in = false;
  dst = codes "dirty";
}

is_built : new_instance ranges sample_net name_of no_file (codes "r") mixed groups ≡ some built
unfolding new_instance
is_built = refl

abbrev resp : Msg
resp = record (ask (codes "x.cn.") 1) { answer = a (hdr 1 60) (codes "1.1.1.1") ∷ [] }

redirects :
    redirect_from ranges sample_net name_of
      ((codes "clean", built) ∷ [])
      (codes "clean")
      (some resp)
    ≡ some (codes "dirty")
unfolding redirect_from
redirects = refl

redirect_from-other_example :
    (codes "clean" ≢ codes "dirty")
    × ((r : CidrRedirector (List Bytes) Bytes) × (m : Msg) × (lookup
            (codes "clean")
            ((codes "clean", built) ∷ [])
          ≡ some r)
        × (some resp ≡ some m)
        × (r.dst ≡ codes "dirty")
        × (any (has_address (matches ranges sample_net name_of r)) m.answer ≡ true))
redirect_from-other_example =
    redirect_from-other ranges sample_net name_of ((codes "clean", built) ∷ []) (codes "clean")
      (some resp) (codes "dirty") redirects
