-- ===== src/Inbound/Startup/Fallbacks.antt =====
-- inbound/handler.go: the fallback group and the order of the groups of a new handler.
use ts_dns.Common.{
  ◌+◌, ◌≤◌, ◌≡◌, refl, ◌⊎◌, inl, inr, sym, ap, ◌∙◌, Bool, true, false, Option, none, some, List, [],
  ◌∷◌, ◌++◌, map, arith, if◌then◌else◌, tally, All, In, Bytes, Bool-cases, some_inj, none_some,
}
use mathlib.Core.Path.{subst}
use ts_dns.Dns.{Msg, DnsLib, NetLib}
use ts_dns.Regexp.{RegexpLib}
use ts_dns.Inbound.Handler.{Group, Handler, group_less}
use ts_dns.Outbound.Builds.{GroupImpl, BuildLib, disabled_qtypes, build_groups}
use ts_dns.Outbound.Builds.Flags.{group_fallback, build_groups-IsFlagged}
use ts_dns.Inbound.Startup.Chains.{chain, tally-In, unique}
use ts_dns.Inbound.Startup.{HandlerConf, fallback_of, as_group, new_handle}

module _ {S : Type 0} where
  fallback_of-In :
      (found : Option (Group S)) (gs : List (Group S)) (f : Group S)
      → fallback_of found gs ≡ some f
      → (found ≡ some f) ⊎ ((f.is_fallback ≡ true) × In f gs)
  unfolding fallback_of
  fallback_of-In found [] f h = inl h
  fallback_of-In found (g ∷ gs) f h = elim (Bool-cases g.is_fallback) [
    | inr off ↦ later (
        fallback_of-In found gs f
          (sym (ap (λ b. fallback_of (if b then some g else found) gs) off) ∙ h))
    | inl on ↦ this on (
        fallback_of-In (some g) gs f
          (sym (ap (λ b. fallback_of (if b then some g else found) gs) on) ∙ h))
  ]
    where
      later :
          (found ≡ some f) ⊎ ((f.is_fallback ≡ true) × In f gs)
          → (found ≡ some f) ⊎ ((f.is_fallback ≡ true) × In f (g ∷ gs))
      later (inl e) = inl e
      later (inr (on, i)) = inr (on, inr i)

      this :
          g.is_fallback ≡ true
          → (some g ≡ some f) ⊎ ((f.is_fallback ≡ true) × In f gs)
          → (found ≡ some f) ⊎ ((f.is_fallback ≡ true) × In f (g ∷ gs))
      this on (inl e) =
          inr (ap (λ x. x.is_fallback) (sym (some_inj e)) ∙ on, inl (sym (some_inj e)))
      this on (inr (on', i)) = inr (on', inr i)

  -- Nothing is before what stands ahead of it.
  abbrev pub Sorted : List (Group S) → Type 0
  Sorted [] = Unit
  Sorted (g ∷ gs) = All (λ y. group_less y g ≡ false) gs × Sorted gs

  none_behind_fallback :
      (g : Group S) (gs : List (Group S))
      → g.is_fallback ≡ true
      → All (λ y. group_less y g ≡ false) gs
      → tally (λ y. y.is_fallback) (g ∷ gs) ≤ 1
      → gs ≡ []
  unfolding group_less
  none_behind_fallback g [] f a t = refl
  none_behind_fallback g (y ∷ ys) f (l, ls) t = ground arith

  -- The fallback group of a sorted list stands last.
  last_fallback :
      (gs : List (Group S))
      → Sorted gs
      → tally (λ y. y.is_fallback) gs ≡ 1
      → (init : List (Group S)) × (f : Group S) × (gs ≡ init ++ f ∷ [])
        × All (λ g. g.is_fallback ≡ false) init
        × (f.is_fallback ≡ true)
  last_fallback [] s t = absurd (omega (arith, t))
  last_fallback (g ∷ gs) (a, s) t = elim (Bool-cases g.is_fallback) [
    | inl on ↦ ([], g, ap (◌∷◌ g) (none_behind_fallback g gs on a (omega (arith, t))), tt, on)
    | inr off ↦
        let (init, f, e, others, on) = last_fallback gs s (ground (arith, t, off)) in
        (g ∷ init, f, ap (◌∷◌ g) e, (off, others), on)
  ]

  In-last : (init : List (Group S)) (f : Group S) → In f (init ++ f ∷ [])
  In-last [] f = inl refl
  In-last (g ∷ gs) f = inr (In-last gs f)

-- `sort.Slice` by the handler's test: the same items, each as often, in an order that the test allows.
pub record SortsGroups (S : Type 0)
    (sort : (Group S → Group S → Bool) → List (Group S) → List (Group S)) : Type 0 where
  pub sorted : (gs : List (Group S)) → Sorted (sort group_less gs)
  pub counts :
      (p : Group S → Bool) (gs : List (Group S)) → tally p (sort group_less gs) ≡ tally p gs
  pub same : (g : Group S) (gs : List (Group S)) → In g (sort group_less gs) → In g gs

not_none : {A B : Type 0} {x : A} → (none ≡ some x) ⊎ B → B
not_none (inl e) = none_some e
not_none (inr b) = b

only_fallback :
    {S : Type 0} (sort : (Group S → Group S → Bool) → List (Group S) → List (Group S))
    → SortsGroups S sort
    → (gs list : List (Group S)) (f : Group S) → list ≡ sort group_less gs
    → f.is_fallback ≡ true
    → In f gs
    → tally (λ g. g.is_fallback) gs ≤ 1
    → (init : List (Group S)) × (list ≡ init ++ f ∷ [])
      × All (λ g. g.is_fallback ≡ false) init
      × (f.is_fallback ≡ true)
only_fallback sort law gs list f e on i once =
    let counted = law.counts (λ g. g.is_fallback) gs in
    let one : tally (λ g. g.is_fallback) (sort group_less gs) ≡ 1 =
      omega (arith, counted, once, tally-In (λ g. g.is_fallback) f gs i on) in
    let (init, l, el, others, onl) = last_fallback (sort group_less gs) (law.sorted gs) one in
    let same : l ≡ f =
      unique (λ g. g.is_fallback) l f gs once
        (law.same l gs (subst (In l) (sym el) (In-last init l))) i onl on in
    (init, e ∙ el ∙ ap (λ x. init ++ x ∷ []) same, others, on)

module _ {P I S : Type 0} (re : RegexpLib) (dns : DnsLib) (net : NetLib)
    (lib : BuildLib re.Regexp P I) where
  open re use {Regexp}

  module _ (sort : (Group S → Group S → Bool) → List (Group S) → List (Group S))
      (handle : GroupImpl Regexp P I → S → Msg → S × Option Msg)
      (post : GroupImpl Regexp P I → S → Msg → Option Msg → S) (hosts : Option (Msg → Option Msg))
      (cache : Option ((S → Msg → S × Option Msg) × (S → Msg → Option Msg → S)))
      (redirector : List (Group S)
        → Option (Option (Group S → Msg → Option Msg → Option (Group S)))) where
    abbrev handler_groups : List (Bytes × GroupImpl Regexp P I) → List (Group S)
    handler_groups built = map (λ e. as_group re dns net lib handle post e.1) built

    tally-handler_groups :
        (built : List (Bytes × GroupImpl Regexp P I))
        → tally (λ g. g.is_fallback) (handler_groups built)
          ≡ tally (group_fallback re dns net lib) built
    tally-handler_groups [] = refl
    tally-handler_groups (e ∷ built) =
        ap (λ n. (if e.1.fallback then 1 else 0) + n) (tally-handler_groups built)

    -- What `newHandle` has built when it succeeds.
    new_handle-inv :
        (conf : HandlerConf) (h : Handler S)
        → new_handle re dns net lib sort handle post hosts cache redirector conf ≡ some h
        → (built : List (Bytes × GroupImpl Regexp P I)) × (build_groups re dns net lib conf.groups
            ≡ some built)
          × (fallback_of none (handler_groups built) ≡ some h.fallback_group)
          × (h.group_list ≡ sort group_less (handler_groups built))
    unfolding new_handle
    new_handle-inv conf h e =
        let (built, fallback, eb, ef, types, hosts_get, caches, chosen, done) =
          chain (disabled_qtypes re dns net lib conf.disable_ipv6 conf.disable_qtypes) hosts cache
            (build_groups re dns net lib conf.groups)
            (λ built. fallback_of none (handler_groups built))
            (λ built. redirector (handler_groups built))
            (λ types hosts_get caches built fallback chosen. record {
              disable_qtypes = types;
              hosts_get = hosts_get;
              cache_get = caches.0;
              cache_set = caches.1;
              group_list = sort group_less (handler_groups built);
              fallback_group = fallback;
              redirector = chosen;
            })
            h e in
        (built, eb, ef ∙ ap (λ q. some q.fallback_group) done, sym (ap (λ q. q.group_list) done))

    -- When `newHandle` succeeds, the last group of the handler's list is its fallback group, and no group
    -- before it is a fallback group. `sort.Slice` sorts.
    pub new_handle-fallback :
        (conf : HandlerConf) (h : Handler S)
        → SortsGroups S sort
        → new_handle re dns net lib sort handle post hosts cache redirector conf ≡ some h
        → (init : List (Group S)) × (h.group_list ≡ init ++ h.fallback_group ∷ [])
          × All (λ g. g.is_fallback ≡ false) init
          × (h.fallback_group.is_fallback ≡ true)
    new_handle-fallback conf h law e =
        let (built, eb, ef, el) = new_handle-inv conf h e in
        let (alls, once, lists) = build_groups-IsFlagged re dns net lib conf.groups built eb in
        let (on, i) = not_none (fallback_of-In none (handler_groups built) h.fallback_group ef) in
        only_fallback sort law (handler_groups built) h.group_list h.fallback_group el on i
          (omega (arith, tally-handler_groups built, once))
