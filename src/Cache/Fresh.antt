-- ===== src/Cache/Fresh.antt =====
-- What `Get` reads of an item that `Set` stored.
use ts_dns.Common.{
  ℕ, ◌+◌, ◌-◌, ◌^◌, ◌≤◌, ◌<◌, ◌≡◌, refl, sym, ap, ◌∙◌, inl, inr, Bool, true, false, not,
}
use ts_dns.Common.{
  none, some, List, [], ◌∷◌, map, arith, All, All-map, leb, if◌then◌else◌, tally, Bytes,
  Option-cases,
}
use ts_dns.Common.{is_positive, max, min}
use mathlib.Core.Path.{subst}
use ts_dns.Dns.{Rr, ttl_of, with_ttl, Question, Msg, DnsLib, NetLib}
use ts_dns.Cache.{
  CacheItem, StoreLib, DnsCache, age, clamp_loop, shuffle, cache_key, read_item, get_key, get,
  get_question, new_item, set_question, set_answer, set_response,
}
use ts_dns.Cache.Clamps.{clamp_loop-IsClamped, clamp_loop-limited, limited, least_above, below_max}
use ts_dns.Cache.Shuffles.{tally-shuffle}

-- The records with their TTLs counted down.
abbrev pub counted_down : ℕ → List Rr → List Rr
counted_down elapsed = map (λ rr. with_ttl rr (ttl_of rr - elapsed))

age-counted_down :
    (elapsed : ℕ) (xs : List Rr)
    → All (λ rr. elapsed < ttl_of rr) xs
    → age elapsed xs ≡ some (counted_down elapsed xs)
unfolding age
age-counted_down elapsed [] h = refl
age-counted_down elapsed (x ∷ xs) h = ground (arith, age-counted_down elapsed xs)

age-inv :
    (elapsed : ℕ) (xs rs : List Rr)
    → age elapsed xs ≡ some rs
    → All (λ rr. elapsed < ttl_of rr) xs × (rs ≡ counted_down elapsed xs)
unfolding age
age-inv elapsed [] rs h = (tt, cc)
age-inv elapsed (x ∷ xs) rs h = elim (Option-cases (age elapsed xs)) [
  | inl off ↦ ground arith
  | inr (qs, on) ↦ ground (arith, age-inv elapsed xs qs on)
]

module _ (dns : DnsLib) (draw : ℕ → ℕ) (now : ℕ) (req : Msg) where
  -- A response that `Get` makes of a cached item is read before the item expires, and holds exactly
  -- the item's answers, each with its TTL counted down by the time since it was cached and still above
  -- zero, in some order.
  pub read_item-counted_down :
      (item : CacheItem) {r : Msg}
      → read_item dns now draw req item ≡ some r
      → (now < item.expired_at)
        × All (λ rr. now - item.cached_at < ttl_of rr) item.resp.answer
        × ((p : Rr → Bool)
            → tally p r.answer ≡ tally p (counted_down (now - item.cached_at) item.resp.answer))
  unfolding read_item
  read_item-counted_down item {r} h =
      elim (Option-cases (age (now - item.cached_at) (dns.set_reply item.resp req).answer)) [
        | inl off ↦ absurd (ground arith)
        | inr (rs, on) ↦
            let (above, same) =
              age-inv (now - item.cached_at) item.resp.answer rs
                (sym (ap (age (now - item.cached_at)) (dns.set_reply_answer item.resp req)) ∙ on) in
            let e : r.answer ≡ shuffle draw rs = ground arith in
            (ground arith, above, λ p. ap (tally p) e ∙ tally-shuffle draw rs p ∙ ap (tally p) same)
      ]

  module _ (stored_at : ℕ) (later : stored_at ≤ now) where
    read_item_fresh :
        (rs : List Rr) (resp : Msg) (expire : ℕ)
        → All (λ rr. expire ≤ ttl_of rr) rs
        → now < stored_at + expire
        → (r : Msg) × (read_item dns now draw req (record {
          resp = record resp { answer = rs };
          cached_at = stored_at;
          expired_at = stored_at + expire;
        })
            ≡ some r)
          × (r.answer ≡ shuffle draw (counted_down (now - stored_at) rs))
    unfolding read_item
    read_item_fresh rs resp expire h fresh =
        let reply = dns.set_reply (record resp { answer = rs }) req in
        let aged : age (now - stored_at) reply.answer ≡ some (counted_down (now - stored_at) rs) =
          ap (age (now - stored_at)) (dns.set_reply_answer (record resp { answer = rs }) req)
          ∙ age-counted_down (now - stored_at) rs (
              All-map (λ rr. expire ≤ ttl_of rr) (λ rr. now - stored_at < ttl_of rr) rs
                (λ rr le. omega arith) h) in
        let not_expired : leb (stored_at + expire) now ≡ false = ground arith in
        (
          record reply { answer = shuffle draw (counted_down (now - stored_at) rs) },
          rw (not_expired, read_item, aged),
          refl,
        )

module _ (lib : StoreLib) (dns : DnsLib) (net : NetLib) (decimal : ℕ → Bytes) where
  open lib use {Store, set_with_ttl}

  get_key_hit :
      (c : DnsCache Store) (store : Store) (now : ℕ) (draw : ℕ → ℕ) (req : Msg) (key : Bytes)
      (item : CacheItem) (r : Msg)
      → lib.get store key ≡ some item
      → read_item dns now draw req item ≡ some r
      → get_key lib dns net decimal c store now draw req key ≡ (c, some r)
  unfolding get_key
  get_key_hit c store now draw req key item r hit reads = ground arith

  module _ (c : DnsCache Store) (store : Store) (req resp : Msg) (q : Question) (qs : List Question)
      (rr : Rr) (rest : List Rr) (on : c.cache ≡ some store) (sized : is_positive c.max_size ≡ true)
      (order : c.min_ttl ≤ c.max_ttl) (bound : c.max_ttl < 2 ^ 32) (asks : req.question ≡ q ∷ qs)
      (answers : resp.answer ≡ rr ∷ rest) where
    abbrev store_after : ℕ → Store
    store_after stored_at =
        let (item, expire) = new_item c stored_at resp in
        set_with_ttl store (cache_key net decimal q req) item expire

    not_expired :
        (stored_at now : ℕ)
        → stored_at ≤ now
        → All (λ rr. now - stored_at < max c.min_ttl (min c.max_ttl (ttl_of rr))) resp.answer
        → now < stored_at + (clamp_loop c.min_ttl c.max_ttl c.max_ttl resp.answer).1
    not_expired stored_at now later fresh =
        let first =
          subst (All (λ x. now - stored_at < max c.min_ttl (min c.max_ttl (ttl_of x)))) answers
            fresh in
        omega (
          arith,
          least_above c.min_ttl c.max_ttl order bound (now - stored_at) c.max_ttl resp.answer
              (below_max c.min_ttl c.max_ttl order bound (now - stored_at) rr rest first) fresh,
        )

    set_response_lem :
        (stored_at : ℕ)
        → set_response lib dns net decimal c stored_at req (some resp)
          ≡ some (record c { cache = some (store_after stored_at) })
    unfolding set_response
    set_response_lem stored_at =
        ap
          (λ b.
            if not b
            then some c
            else set_answer lib dns net decimal c c.cache stored_at req resp resp.answer)
          sized
        ∙ ap (λ o. set_answer lib dns net decimal c o stored_at req resp resp.answer) on
        ∙ ap (set_answer lib dns net decimal c (some store) stored_at req resp) answers
        ∙ ap (set_question lib dns net decimal c store stored_at req resp) asks

    -- What `Set` stored for a request with answers, `Get` gives back to the same request for as long
    -- as the store keeps it: before the least of the answers' TTLs, moved into the limits, has passed,
    -- it answers with every answer of the response, its TTL moved into the limits and counted down by the
    -- seconds since, in some order. The limits fit 32 bits, and the clock has not gone back.
    pub get-set_response :
        (draw : ℕ → ℕ) (stored_at now : ℕ)
        → stored_at ≤ now
        → lib.get (store_after stored_at) (cache_key net decimal q req)
          ≡ some (new_item c stored_at resp).0
        → All (λ rr. now - stored_at < max c.min_ttl (min c.max_ttl (ttl_of rr))) resp.answer
        → (c' : DnsCache Store) × (r : Msg) × (set_response lib dns net decimal c stored_at req
              (some resp)
            ≡ some c')
          × (get lib dns net decimal c' now draw req ≡ some (c', some r))
          × ((p : Rr → Bool)
              → tally p r.answer
                ≡ tally p
                    (counted_down (now - stored_at) (limited c.min_ttl c.max_ttl resp.answer)))
    unfolding get new_item
    get-set_response draw stored_at now later kept fresh =
        let clamped = clamp_loop-IsClamped c.min_ttl c.max_ttl order bound c.max_ttl resp.answer in
        let (rs, expire) = clamp_loop c.min_ttl c.max_ttl c.max_ttl resp.answer in
        let moved : rs ≡ limited c.min_ttl c.max_ttl resp.answer =
          clamp_loop-limited c.min_ttl c.max_ttl order bound c.max_ttl resp.answer in
        let (r, reads, same) =
          read_item_fresh dns draw now req stored_at later rs resp expire clamped.below_all
            (not_expired stored_at now later fresh) in
        let c' : DnsCache Store = record c { cache = some (store_after stored_at) } in
        (
          c',
          r,
          set_response_lem stored_at,
          ap
                (λ b.
                  if not b
                  then some (c', none)
                  else get_question lib dns net decimal c' (store_after stored_at) now draw req
                      req.question)
                sized
              ∙ ap (get_question lib dns net decimal c' (store_after stored_at) now draw req) asks
              ∙ ap some (
                  get_key_hit c' (store_after stored_at) now draw req (cache_key net decimal q req)
                    (new_item c stored_at resp).0 r kept reads),
          λ p.
              ap (tally p) same
              ∙ tally-shuffle draw (counted_down (now - stored_at) rs) p
              ∙ ap (λ xs. tally p (counted_down (now - stored_at) xs)) moved,
        )
