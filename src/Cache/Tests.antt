-- ===== src/Cache/Tests.antt =====
-- The theorems about the cache at a concrete store, response and time.
use ts_dns.Common.{ℕ, ◌-◌, ◌<◌, ◌≡◌, ◌≢◌, refl, ◌⊎◌, Bool, some}
use ts_dns.Common.{
  List, [], ◌∷◌, get_elem?, arith, All, tally, Bytes, codes, eq_bytes, eq_bytes_iff, lookup, insert,
  delete, lookup-insert, lookup-delete, ℤ,
}
use ts_dns.Dns.{Rr, a, cname, ttl_of, Msg}
use ts_dns.Cache.{
  CacheItem, StoreLib, DnsCache, read_item, shuffle, new_item, set_response, get, cache_key,
}
use ts_dns.Cache.Clamps.{limited}
use ts_dns.Cache.Fresh.{counted_down, read_item-counted_down, get-set_response}
use ts_dns.Samples.{sample_dns, sample_net, sample_decimal, hdr, ask}

items_get-set :
    (s : List (Bytes × CacheItem)) (k j : Bytes) (v w : CacheItem) (ttl : ℕ)
    → lookup j (insert k v s) ≡ some w
    → ((j ≡ k) × (w ≡ v)) ⊎ (lookup j s ≡ some w)
items_get-set s k j v w ttl h = ground (arith, lookup-insert k j v s, eq_bytes_iff k j)

items_get-del :
    (s : List (Bytes × CacheItem)) (k j : Bytes) (w : CacheItem)
    → lookup j (delete k s) ≡ some w
    → (j ≢ k) × (lookup j s ≡ some w)
items_get-del s k j w h = ground (arith, lookup-delete k j s, eq_bytes_iff k j)

-- A store that forgets nothing.
abbrev items : StoreLib
items = record {
  Store = List (Bytes × CacheItem);
  new_cache = λ n. some [];
  get = λ s k. lookup k s;
  set_with_ttl = λ s k v ttl. insert k v s;
  del = λ s k. delete k s;
  get-set = items_get-set;
  get-del = items_get-del;
}

abbrev answers : List Rr
answers =
    cname (hdr 5 30) (codes "y.cn.")
    ∷ a (hdr 1 300) (codes "1.1.1.1")
    ∷ a (hdr 1 100) (codes "2.2.2.2")
    ∷ []

abbrev resp : Msg
resp = record (ask (codes "x.cn.") 1) { answer = answers }

abbrev item : CacheItem
item = record { resp = resp; cached_at = 100; expired_at = 120 }

abbrev draw : ℕ → ℕ
draw i = 0

shuffles : get_elem? (shuffle draw answers) 1 ≡ some (a (hdr 1 100) (codes "2.2.2.2"))
unfolding shuffle
shuffles = refl

abbrev read : Msg
read = record (ask (codes "x.cn.") 1) {
  answer =
      cname (hdr 5 20) (codes "y.cn.")
      ∷ a (hdr 1 90) (codes "2.2.2.2")
      ∷ a (hdr 1 290) (codes "1.1.1.1")
      ∷ [];
}

reads : read_item sample_dns 110 draw (ask (codes "x.cn.") 1) item ≡ some read
unfolding read_item
reads = refl

read_item-counted_down_example :
    (110 < item.expired_at)
    × All (λ rr. 110 - item.cached_at < ttl_of rr) answers
    × ((p : Rr → Bool) → tally p read.answer ≡ tally p (counted_down 10 answers))
read_item-counted_down_example =
    read_item-counted_down sample_dns draw 110 (ask (codes "x.cn.") 1) item reads

abbrev cache : DnsCache (List (Bytes × CacheItem))
cache = record { cache = some []; max_size = ℤ.pos 9; min_ttl = 60; max_ttl = 200 }

abbrev query : Msg
query = ask (codes "x.cn.") 1

expires : (new_item cache 100 resp).0.expired_at ≡ 160
unfolding new_item
expires = refl

get-set_response_example :
    (c' : DnsCache (List (Bytes × CacheItem))) × (r : Msg) × (set_response items sample_dns
        sample_net sample_decimal cache 100 query
        (some resp)
      ≡ some c')
    × (get items sample_dns sample_net sample_decimal c' 110 draw query ≡ some (c', some r))
    × ((p : Rr → Bool)
        → tally p r.answer ≡ tally p (counted_down (110 - 100) (limited 60 200 answers)))
unfolding new_item lookup insert cache_key eq_bytes
get-set_response_example =
    get-set_response items sample_dns sample_net sample_decimal cache [] query resp
      (record { name = codes "x.cn."; qtype = 1; qclass = 1 }) [] (cname (hdr 5 30) (codes "y.cn."))
      (a (hdr 1 300) (codes "1.1.1.1") ∷ a (hdr 1 100) (codes "2.2.2.2") ∷ []) refl refl
      (omega arith) (omega arith) refl refl draw 100 110 (omega arith) refl
      (omega arith, (omega arith, (omega arith, tt)))
