-- ===== src/Outbound/Builds/Flags.antt =====
-- outbound/groups.go: the flags of the groups that `BuildGroups` builds.
use ts_dns.Common.{
  ℕ, ◌+◌, ◌≤◌, ◌≡◌, refl, sym, ap, ◌∙◌, Bool, true, false, not, ◌&&◌, ◌||◌, Option, none, some,
  List, [], ◌∷◌, arith, if◌then◌else◌, tally, is_some, Bytes, ◌>>=◌,
}
use mathlib.Core.Path.{subst}
use ts_dns.Dns.{DnsLib, NetLib}
use ts_dns.Regexp.{RegexpLib}
use ts_dns.Matcher.AbPlus.{new_abp_by_file}
use ts_dns.Outbound.Hijack.{is_nil}
use ts_dns.Outbound.Builds.{
  GroupSection, GroupImpl, BuildLib, is_set_gfw_list, is_empty_rule, has_gfw_list, unless_empty,
  some_of, flat, build_matcher, build_group, build_groups_from, build_groups,
}

some_of-is_some : {A : Type 0} (o : Option A) (r : Option A) → some_of o ≡ some r → is_some r ≡ true
some_of-is_some none r h = cc
some_of-is_some (some x) r h = ground arith

unless_empty-is_some :
    {A : Type 0} (s : Bytes) (f : Bytes → Option A) (r : Option A)
    → unless_empty s none (λ t. some_of (f t)) ≡ some r
    → is_some r ≡ not (is_nil s)
unless_empty-is_some [] f r h = ground arith
unless_empty-is_some (c ∷ s) f r h = some_of-is_some (f (c ∷ s)) r h

-- Two guards and two fallible steps, as the loop has them.
guarded-inv :
    {A B : Type 0} (c d : Bool) (o : Option A) (rest : Option (List B)) (k : A → B) (r : List B)
    → (if d then none else if c then none else (o >>= λ g. rest >>= λ gs. some (k g ∷ gs))) ≡ some r
    → (c ≡ false)
      × (d ≡ false)
      × (g : A) × (gs : List B) × (o ≡ some g)
      × (rest ≡ some gs)
      × (r ≡ k g ∷ gs)
guarded-inv c true o rest k r h = cc
guarded-inv true false o rest k r h = cc
guarded-inv false false none rest k r h = cc
guarded-inv false false (some g) none k r h = cc
guarded-inv false false (some g) (some gs) k r h = ground arith

-- A flag is counted at most once when the loop refuses to see it again.
flag_once :
    (flag seen set : Bool) (later : ℕ)
    → set ≡ flag
    → (flag && seen) ≡ false
    → later + (if flag || seen then 1 else 0) ≤ 1
    → (if set then 1 else 0) + later + (if seen then 1 else 0) ≤ 1
flag_once flag seen set later e h l = ground arith

one_at_most : (seen : Bool) → 0 + (if seen then 1 else 0) ≤ 1
one_at_most seen = ground arith

nil_cons : {A C : Type 0} {x : A} {xs : List A} → some [] ≡ some (x ∷ xs) → C
nil_cons h = cc

module _ {P I : Type 0} (re : RegexpLib) (dns : DnsLib) (net : NetLib)
    (lib : BuildLib re.Regexp P I) where
  open re use {Regexp}

  pub build_group-fields :
      (name : Bytes) (conf : GroupSection) (fallback : Bool) (g : GroupImpl Regexp P I)
      → build_group re dns net lib name conf fallback ≡ some g
      → (g.name ≡ name)
        × (g.fallback ≡ fallback)
        × (g.gfw_list_url ≡ conf.gfwlist_url)
        × (unless_empty conf.gfwlist_file none
              (λ f. some_of (flat (new_abp_by_file re lib.read_file lib.decode_base64 f true)))
            ≡ some g.gfw_list)
        × (build_matcher re dns net lib conf ≡ some g.matcher)
  unfolding build_group
  build_group-fields name conf fallback g h = ground arith

  -- How a group belongs to its section of the configuration.
  pub record IsBuilt (section : Bytes × GroupSection) (entry : Bytes × GroupImpl Regexp P I)
      : Type 0 where
    pub keyed : entry.0 ≡ section.0
    pub named : entry.1.name ≡ section.0
    pub falls_back : entry.1.fallback ≡ (is_empty_rule section.1 || section.1.fallback)
    pub has_list : has_gfw_list entry.1 ≡ is_set_gfw_list section.1

  has_list_lem : (a b c : Bool) → a ≡ b → (c || a) ≡ (b || c)
  has_list_lem true b true h = cc
  has_list_lem true b false h = cc
  has_list_lem false true c h = cc
  has_list_lem false false true h = refl
  has_list_lem false false false h = refl

  build_group-IsBuilt :
      (name : Bytes) (conf : GroupSection) (g : GroupImpl Regexp P I)
      → build_group re dns net lib name conf (is_empty_rule conf || conf.fallback) ≡ some g
      → IsBuilt (name, conf) (name, g)
  unfolding has_gfw_list is_set_gfw_list
  build_group-IsBuilt name conf g h =
      let (named, falls_back, url, list, m) =
        build_group-fields name conf (is_empty_rule conf || conf.fallback) g h in
      record {
        keyed = refl;
        named = named;
        falls_back = falls_back;
        has_list =
            ap (λ u. not (is_nil u) || is_some g.gfw_list) url
            ∙ has_list_lem (is_some g.gfw_list) (not (is_nil conf.gfwlist_file))
                (not (is_nil conf.gfwlist_url))
                (unless_empty-is_some conf.gfwlist_file _ g.gfw_list list);
      }

  -- The flags that stand in a list of sections or groups: how often it has a GFW list, and how often it
  -- is the fallback group.
  abbrev section_list : Bytes × GroupSection → Bool
  section_list s = is_set_gfw_list s.1

  abbrev section_fallback : Bytes × GroupSection → Bool
  section_fallback s = is_empty_rule s.1 || s.1.fallback

  abbrev pub group_list : Bytes × GroupImpl Regexp P I → Bool
  group_list e = has_gfw_list e.1

  abbrev pub group_fallback : Bytes × GroupImpl Regexp P I → Bool
  group_fallback e = e.1.fallback

  -- Section by section.
  abbrev pub AllBuilt : List (Bytes × GroupSection) → List (Bytes × GroupImpl Regexp P I) → Type 0
  AllBuilt [] [] = Unit
  AllBuilt (s ∷ ss) (e ∷ es) = IsBuilt s e × AllBuilt ss es
  AllBuilt _ _ = ⊥

  -- What the loop gives: the groups of the sections, with each of the two flags at most once, also counting
  -- what was seen before.
  abbrev IsFlagged :
      Bool → Bool → List (Bytes × GroupSection) → List (Bytes × GroupImpl Regexp P I) → Type 0
  IsFlagged seen_list seen_fallback sections gs =
      AllBuilt sections gs
      × (tally group_fallback gs + (if seen_fallback then 1 else 0) ≤ 1)
      × (tally group_list gs + (if seen_list then 1 else 0) ≤ 1)

  build_groups_from-IsFlagged :
      (seen_list seen_fallback : Bool) (sections : List (Bytes × GroupSection))
      (gs : List (Bytes × GroupImpl Regexp P I))
      → build_groups_from re dns net lib seen_list seen_fallback sections ≡ some gs
      → IsFlagged seen_list seen_fallback sections gs
  unfolding build_groups_from
  build_groups_from-IsFlagged seen_list seen_fallback [] [] h =
      (tt, one_at_most seen_fallback, one_at_most seen_list)
  build_groups_from-IsFlagged seen_list seen_fallback [] (g ∷ gs) h = nil_cons h
  build_groups_from-IsFlagged seen_list seen_fallback ((name, conf) ∷ rest) gs h =
      let (no_list, no_fallback, g, later, built, tail, e) =
        guarded-inv (is_set_gfw_list conf && seen_list)
          ((is_empty_rule conf || conf.fallback) && seen_fallback)
          (build_group re dns net lib name conf (is_empty_rule conf || conf.fallback))
          (build_groups_from re dns net lib (is_set_gfw_list conf || seen_list)
            ((is_empty_rule conf || conf.fallback) || seen_fallback) rest)
          (λ g. (name, g)) gs h in
      let fits = build_group-IsBuilt name conf g built in
      let (alls, fallbacks, lists) =
        build_groups_from-IsFlagged (is_set_gfw_list conf || seen_list)
          ((is_empty_rule conf || conf.fallback) || seen_fallback) rest later tail in
      subst (IsFlagged seen_list seen_fallback ((name, conf) ∷ rest)) (sym e) (
        (fits, alls),
        flag_once (is_empty_rule conf || conf.fallback) seen_fallback g.fallback
            (tally group_fallback later) fits.falls_back no_fallback fallbacks,
        flag_once (is_set_gfw_list conf) seen_list (has_gfw_list g) (tally group_list later)
            fits.has_list no_list lists,
      )

  -- When `BuildGroups` succeeds, it has one group for each section, under the section's name, with the
  -- fallback flag of a section that asks for it or has no rules, and a GFW list exactly where
  -- the section sets one; at most one group is the fallback group and at most one has a GFW list.
  pub build_groups-IsFlagged :
      (sections : List (Bytes × GroupSection)) (gs : List (Bytes × GroupImpl Regexp P I))
      → build_groups re dns net lib sections ≡ some gs
      → AllBuilt sections gs × (tally group_fallback gs ≤ 1) × (tally group_list gs ≤ 1)
  unfolding build_groups
  build_groups-IsFlagged sections gs h =
      let (alls, fallbacks, lists) = build_groups_from-IsFlagged false false sections gs h in
      (alls, omega arith, omega arith)
