-- ===== src/Cache.antt =====
-- cache/dns.go. Durations and times are whole seconds: every duration of the cache is a multiple of
-- one second, and `Unix()` of a time moved by whole seconds moves by as many. The products with
-- `time.Second` fit 64 bits for values below 9 * 10^9 seconds. A result `none` of `get` and `set` is the
-- panic of `req.Question[0]` on a request without question.
use ts_dns.Common.{
  ℕ, zero, suc, ◌+◌, ◌-◌, ◌*◌, ◌%◌, ◌^◌, ◌≤◌, ◌<◌, ◌≡◌, ◌≢◌, ◌⊎◌, Bool, true, false, not, ◌||◌,
}
use ts_dns.Common.{
  Option, none, some, List, [], ◌∷◌, ◌++◌, if◌then◌else◌, ltb, leb, ◌==◌, length, get_elem?, set,
}
use ts_dns.Common.{Bytes, dot, to_lower, ℤ, is_positive, positive_or}
use ts_dns.Dns.{Rr, header, ttl_of, with_ttl, type_a, type_aaaa, Question, Msg, DnsLib, NetLib}
use ts_dns.Utils.Ecs.{format_ecs}
mod Clamps
mod Shuffles
mod Fresh
mod Tests

-- `cacheItem`.
pub record CacheItem : Type 0 where
  pub resp : Msg
  pub cached_at : ℕ
  pub expired_at : ℕ

-- github.com/dgraph-io/ristretto: a store that may forget entries at any time, but never gives what
-- was not set under the key, nor what was deleted.
pub record StoreLib : Type 1 where
  pub Store : Type 0
  pub new_cache : ℤ → Option Store
  pub get : Store → Bytes → Option CacheItem
  pub set_with_ttl : Store → Bytes → CacheItem → ℕ → Store
  pub del : Store → Bytes → Store
  pub get-set :
      (s : Store) (k j : Bytes) (v w : CacheItem) (ttl : ℕ)
      → get (set_with_ttl s k v ttl) j ≡ some w
      → ((j ≡ k) × (w ≡ v)) ⊎ (get s j ≡ some w)
  pub get-del :
      (s : Store) (k j : Bytes) (w : CacheItem)
      → get (del s k) j ≡ some w
      → (j ≢ k) × (get s j ≡ some w)

-- `dnsCache`; `none` is the nil `*ristretto.Cache`.
pub record DnsCache (S : Type 0) : Type 0 where
  pub cache : Option S
  pub max_size : ℤ
  pub min_ttl : ℕ
  pub max_ttl : ℕ

-- `config.CacheConf`.
pub record CacheConf : Type 0 where
  pub size : ℤ
  pub min_ttl : ℤ
  pub max_ttl : ℤ

abbrev pub default_min_ttl : ℕ
default_min_ttl = 60

abbrev pub default_max_ttl : ℕ
default_max_ttl = 24 * 3600

abbrev pub is_address : Rr → Bool
is_address rr = (header rr).rrtype == type_a || (header rr).rrtype == type_aaaa

-- The positions of the A and AAAA records, from position i on.
unfoldable pub ip_indexes : ℕ → List Rr → List ℕ
ip_indexes i [] = []
ip_indexes i (rr ∷ rest) =
    let later = ip_indexes (suc i) rest in if is_address rr then i ∷ later else later

-- `xs[i], xs[j] = xs[j], xs[i]`.
abbrev pub swap_values : ℕ → ℕ → Option Rr → Option Rr → List Rr → List Rr
swap_values i j (some x) (some y) xs = set (set xs i y) j x
swap_values i j none y xs = xs
swap_values i j (some x) none xs = xs

unfoldable pub swap : ℕ → ℕ → List Rr → List Rr
swap i j xs = swap_values i j (get_elem? xs i) (get_elem? xs j) xs

abbrev pub swap_at : Option ℕ → Option ℕ → List Rr → List Rr
swap_at (some i) (some j) xs = swap i j xs
swap_at none j xs = xs
swap_at (some i) none xs = xs

-- The Fisher-Yates loop from round i down to 1; `draw i` is the random number below i + 1.
unfoldable pub shuffle_loop : ℕ → (ℕ → ℕ) → List ℕ → List Rr → List Rr
unfolding swap
shuffle_loop zero draw idx xs = xs
shuffle_loop (suc i) draw idx xs =
    shuffle_loop i draw idx (swap_at (get_elem? idx (suc i)) (get_elem? idx (draw (suc i))) xs)

unfoldable pub shuffle : (ℕ → ℕ) → List Rr → List Rr
unfolding ip_indexes shuffle_loop
shuffle draw xs = let idx = ip_indexes 0 xs in shuffle_loop (length idx - 1) draw idx xs

-- The loop that counts the TTLs down; `none` is its early return.
unfoldable pub age : ℕ → List Rr → Option (List Rr)
age elapsed [] = some []
age elapsed (rr ∷ rest) =
    let later = age elapsed rest in
    if leb (ttl_of rr) elapsed
    then none
    else elim later [ none ↦ none | some rs ↦ some (with_ttl rr (ttl_of rr - elapsed) ∷ rs) ]

-- The loop of `Set`: the clamped records and the least of their TTLs. `uint32` keeps 32 bits.
unfoldable pub clamp : ℕ → ℕ → ℕ → ℕ
clamp lo hi ttl = let t = (if ltb ttl lo then lo else ttl) in if ltb hi t then hi else t

unfoldable pub clamp_loop : ℕ → ℕ → ℕ → List Rr → List Rr × ℕ
unfolding clamp
clamp_loop lo hi expire [] = ([], expire)
clamp_loop lo hi expire (rr ∷ rest) =
    let t = clamp lo hi (ttl_of rr) in
    let (rs, least) = clamp_loop lo hi (if ltb t expire then t else expire) rest in
    (with_ttl rr (t % 2 ^ 32) ∷ rs, least)

module _ (net : NetLib) (decimal : ℕ → Bytes) where
  abbrev pub with_subnet : Bytes → Bytes → Bytes
  with_subnet key [] = key
  with_subnet key (c ∷ s) = key ++ dot ∷ c ∷ s

  -- `cacheKey`, of the first question.
  unfoldable pub cache_key : Question → Msg → Bytes
  unfolding to_lower format_ecs
  cache_key q req =
      to_lower (with_subnet (q.name ++ decimal q.qtype) (format_ecs net decimal (some req)))

module _ (dns : DnsLib) where
  -- The part of `Get` behind the lookup: `none` deletes the key.
  unfoldable pub read_item : ℕ → (ℕ → ℕ) → Msg → CacheItem → Option Msg
  unfolding age shuffle
  read_item now draw req item =
      if leb item.expired_at now
      then none
      else let r = dns.set_reply item.resp req in
        elim (age (now - item.cached_at) r.answer) [
          | none ↦ none
          | some rs ↦ some (record r { answer = shuffle draw rs })
        ]

-- The item that `Set` stores, and for how long.
unfoldable pub new_item : {S : Type 0} → DnsCache S → ℕ → Msg → CacheItem × ℕ
unfolding clamp_loop
new_item c now resp =
    let (rs, expire) = clamp_loop c.min_ttl c.max_ttl c.max_ttl resp.answer in
    (
      record { resp = record resp { answer = rs }; cached_at = now; expired_at = now + expire },
      expire,
    )

module _ (lib : StoreLib) (dns : DnsLib) (net : NetLib) (decimal : ℕ → Bytes) where
  open lib use {Store, new_cache, get as store_get, set_with_ttl, del}

  -- `NewDNSCache`; `none` is an error.
  unfoldable pub new_dns_cache : CacheConf → Option (DnsCache Store)
  new_dns_cache conf =
      let lo = positive_or conf.min_ttl default_min_ttl in
      let hi = positive_or conf.max_ttl default_max_ttl in
      if ltb hi lo
      then none
      else if not (is_positive conf.size)
      then some (record { cache = none; max_size = ℤ.pos 0; min_ttl = 0; max_ttl = 0 })
      else elim (new_cache conf.size) [
        | none ↦ none
        | some store ↦
            some (record { cache = some store; max_size = conf.size; min_ttl = lo; max_ttl = hi })
      ]

  -- `Get` at a time, with the random numbers that it draws: the new cache and the response.
  unfoldable pub get_key :
      DnsCache Store → Store → ℕ → (ℕ → ℕ) → Msg → Bytes → DnsCache Store × Option Msg
  unfolding read_item
  get_key c store now draw req key = elim (store_get store key) [
    | none ↦ (c, none)
    | some item ↦ elim (read_item dns now draw req item) [
      | none ↦ (record c { cache = some (del store key) }, none)
      | some r ↦ (c, some r)
    ]
  ]

  abbrev get_question :
      DnsCache Store
      → Store
      → ℕ
      → (ℕ → ℕ)
      → Msg
      → List Question
      → Option (DnsCache Store × Option Msg)
  get_question c store now draw req [] = none
  get_question c store now draw req (q ∷ qs) =
      some (get_key c store now draw req (cache_key net decimal q req))

  unfoldable pub get : DnsCache Store → ℕ → (ℕ → ℕ) → Msg → Option (DnsCache Store × Option Msg)
  unfolding get_key cache_key
  get c now draw req = if not (is_positive c.max_size) then some (c, none) else elim c.cache [
    | none ↦ some (c, none)
    | some store ↦ get_question c store now draw req req.question
  ]

  abbrev set_question :
      DnsCache Store → Store → ℕ → Msg → Msg → List Question → Option (DnsCache Store)
  set_question c store now req resp [] = none
  set_question c store now req resp (q ∷ qs) =
      let (item, expire) = new_item c now resp in
      some
        (record c { cache = some (set_with_ttl store (cache_key net decimal q req) item expire) })

  abbrev set_answer :
      DnsCache Store → Option Store → ℕ → Msg → Msg → List Rr → Option (DnsCache Store)
  set_answer c none now req resp answer = some c
  set_answer c (some store) now req resp [] = some c
  set_answer c (some store) now req resp (rr ∷ rest) =
      set_question c store now req resp req.question

  -- `Set` at a time; the response may be nil.
  unfoldable pub set_response : DnsCache Store → ℕ → Msg → Option Msg → Option (DnsCache Store)
  unfolding new_item cache_key
  set_response c now req none = some c
  set_response c now req (some resp) =
      if not (is_positive c.max_size) then some c else set_answer c c.cache now req resp resp.answer
