-- ===== src/Redirector/Redirects.antt =====
-- What redirectors do with a response, and which they are built from.
use ts_dns.Common.{
  ◌≡◌, ◌≢◌, refl, sym, ap, ◌∙◌, Bool, true, false, not, ◌||◌, Option, none, some, List, [], ◌∷◌,
  arith, inl, inr,
}
use ts_dns.Common.{
  if◌then◌else◌, any, Bytes, eq_bytes, eq_bytes_iff, to_lower, lookup, Option-cases, Bool-cases,
  if-true, ◌>>=◌, ◌⊎◌,
}
use ts_dns.Dns.{Ip, Rr, a, aaaa, cname, opt, other, Msg, NetLib}
use ts_dns.Redirector.{
  RangerLib, CidrRedirector, RedirectorConf, type_mismatch_cidr, type_match_cidr, matches, redirect,
  new_cidr_redirector, new_instance, redirect_from, redirect_with, not_source, add_rules, add_file,
}

-- Whether a record holds an address that passes a test.
abbrev pub has_address : (Ip → Bool) → Rr → Bool
has_address p (a h ip) = p ip
has_address p (aaaa h ip) = p ip
has_address p (cname h t) = false
has_address p (opt h os) = false
has_address p (other h raw) = false

module _ (lib : RangerLib) (net : NetLib) {G : Type 0} (name_of : G → Bytes) where
  open lib use {Ranger, contains}

  redirect-any :
      (r : CidrRedirector Ranger G) (xs : List Rr)
      → redirect lib net name_of r xs
        ≡ (if any (has_address (matches lib net name_of r)) xs then some r.dst else none)
  unfolding redirect
  redirect-any r [] = refl
  redirect-any r (a h ip ∷ xs) = ground (arith, redirect-any r xs)
  redirect-any r (aaaa h ip ∷ xs) = ground (arith, redirect-any r xs)
  redirect-any r (cname h t ∷ xs) = redirect-any r xs
  redirect-any r (opt h os ∷ xs) = redirect-any r xs
  redirect-any r (other h raw ∷ xs) = redirect-any r xs

  -- What the address test of a redirector should be: membership in its networks, or its negation,
  -- where the ranger answers.
  abbrev pub in_range : Option Bool → Bool → Bool
  in_range none not_in = false
  in_range (some is_in) true = not is_in
  in_range (some is_in) false = is_in

  matches_lem :
      (r : CidrRedirector Ranger G) (ip : Ip)
      → matches lib net name_of r ip ≡ in_range (contains r.ranger ip) r.not_in
  unfolding matches
  matches_lem r ip = ground arith

  not_source-other :
      (src : G) (o : Option G) (g : G)
      → not_source lib net name_of src o ≡ some g
      → (name_of src ≢ name_of g) × (o ≡ some g)
  not_source-other src none g h = cc
  not_source-other src (some g') g h = ground (arith, eq_bytes_iff (name_of src) (name_of g))

  redirect_with-other :
      (src : G) (o : Option (CidrRedirector Ranger G)) (resp : Option Msg) (g : G)
      → redirect_with lib net name_of src o resp ≡ some g
      → (name_of src ≢ name_of g)
        × ((r : CidrRedirector Ranger G) × (m : Msg) × (o ≡ some r)
            × (resp ≡ some m)
            × (r.dst ≡ g)
            × (any (has_address (matches lib net name_of r)) m.answer ≡ true))
  redirect_with-other src none resp g h = cc
  redirect_with-other src (some r) none g h = cc
  redirect_with-other src (some r) (some m) g h =
      let (differs, hit) = not_source-other src (redirect lib net name_of r m.answer) g h in
      let found = sym (redirect-any r m.answer) ∙ hit in
      (differs, (r, m, refl, refl, ground arith, ground arith))

  -- The runtime redirector sends a request on only to a group of another name, only from a group that
  -- a redirector is assigned to, only after a response, and only if the response holds an address
  -- that this redirector matches; the new group is the redirector's.
  pub redirect_from-other :
      (redirectors : List (Bytes × CidrRedirector Ranger G)) (src : G) (resp : Option Msg) (g : G)
      → redirect_from lib net name_of redirectors src resp ≡ some g
      → (name_of src ≢ name_of g)
        × ((r : CidrRedirector Ranger G) × (m : Msg) × (lookup (name_of src) redirectors ≡ some r)
            × (resp ≡ some m)
            × (r.dst ≡ g)
            × (any (has_address (matches lib net name_of r)) m.answer ≡ true))
  unfolding redirect_from
  redirect_from-other redirectors src resp g h =
      redirect_with-other src (lookup (name_of src) redirectors) resp g h

  module _ (open_file : Bytes → Option (List Bytes × Bool)) where
    new_cidr_redirector-parts :
        (dst : Option G) (name : Bytes) (conf : RedirectorConf) (r : CidrRedirector Ranger G)
        (with_rules : Option Ranger)
        → (dst >>= λ d. with_rules >>= λ w.
            add_file lib net name_of open_file w conf.rules_file >>= λ g. some (record {
              name = name;
              ranger = g;
              not_in = eq_bytes conf.type_name type_mismatch_cidr;
              dst = d;
            }))
          ≡ some r
        → (r.not_in ≡ eq_bytes conf.type_name type_mismatch_cidr) × (dst ≡ some r.dst)
    new_cidr_redirector-parts none name conf r w h = cc
    new_cidr_redirector-parts (some d) name conf r none h = cc
    new_cidr_redirector-parts (some d) name conf r (some w) h =
        elim (Option-cases (add_file lib net name_of open_file w conf.rules_file)) [
          | inl off ↦ ground arith
          | inr (g, on) ↦ ground arith
        ]

    -- A redirector that could be built sends to the group that its configuration names, and its type
    -- is one of the two, in any case of letters; where the type is not in lower case, an address
    -- redirects if the networks contain it, also for the type that is to redirect the others.
    pub new_instance-mixed_case :
        (name : Bytes) (conf : RedirectorConf) (groups : List (Bytes × G))
        (r : CidrRedirector Ranger G) (ip : Ip)
        → new_instance lib net name_of open_file name conf groups ≡ some r
        → conf.type_name ≢ type_mismatch_cidr
        → (lookup conf.dst_group groups ≡ some r.dst)
          × ((to_lower conf.type_name ≡ type_match_cidr)
              ⊎ (to_lower conf.type_name ≡ type_mismatch_cidr))
          × (matches lib net name_of r ip ≡ in_range (contains r.ranger ip) false)
    unfolding new_instance new_cidr_redirector
    new_instance-mixed_case name conf groups r ip h other_case =
        elim (Bool-cases (
          eq_bytes (to_lower conf.type_name) type_match_cidr
          || eq_bytes (to_lower conf.type_name) type_mismatch_cidr)) [
            | inr off ↦ cc
            | inl on ↦
                let (type, dst) =
                  new_cidr_redirector-parts (lookup conf.dst_group groups) name conf r
                    (add_rules lib net name_of lib.new_ranger conf.rules) (if-true _ _ none on h) in
                let exact : eq_bytes conf.type_name type_mismatch_cidr ≡ false =
                  ground (arith, eq_bytes_iff conf.type_name type_mismatch_cidr) in
                (
                  dst,
                  ground (
                    arith,
                    eq_bytes_iff (to_lower conf.type_name) type_match_cidr,
                    eq_bytes_iff (to_lower conf.type_name) type_mismatch_cidr,
                  ),
                  matches_lem r ip ∙ ap (in_range (contains r.ranger ip)) (type ∙ exact),
                )
          ]
