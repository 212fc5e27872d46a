-- ===== src/Outbound/Builds/Tests.antt =====
-- The theorems about `BuildGroups` at a configuration of two groups.
use ts_dns.Common.{
  ◌≤◌, ◌≡◌, refl, Bool, true, false, Option, none, some, List, [], ◌∷◌, tally, Bytes, codes,
}
use ts_dns.Outbound.Builds.{
  GroupSection, GroupImpl, is_empty_rule, build_group, build_groups, match_group,
}
use ts_dns.Outbound.Builds.Samples.{system, clean, sections}
use ts_dns.Outbound.Builds.Flags.{AllBuilt, group_fallback, group_list, build_groups-IsFlagged}
use ts_dns.Outbound.Builds.Matches.{match_group-build_group}
use ts_dns.Samples.{sample_dns, sample_net, sample_regexp, ask}

abbrev build : Bytes → GroupSection → Bool → Option (GroupImpl Bytes Bytes Bytes)
unfolding build_group
build = build_group sample_regexp sample_dns sample_net system

abbrev or_else {ℓ} : {A : Type ℓ} → A → Option A → A
or_else x none = x
or_else x (some y) = y

abbrev built : List (Bytes × GroupImpl Bytes Bytes Bytes)
unfolding build_groups
built = or_else [] (build_groups sample_regexp sample_dns sample_net system sections)

built_all : build_groups sample_regexp sample_dns sample_net system sections ≡ some built
unfolding build_groups
built_all = refl

build_groups-IsFlagged_example :
    AllBuilt sample_regexp sample_dns sample_net system sections built
    × (tally (group_fallback sample_regexp sample_dns sample_net system) built ≤ 1)
    × (tally (group_list sample_regexp sample_dns sample_net system) built ≤ 1)
build_groups-IsFlagged_example =
    build_groups-IsFlagged sample_regexp sample_dns sample_net system sections built built_all

-- Two groups without rules are refused.
two_fallbacks :
    build_groups sample_regexp sample_dns sample_net system
      ((codes "a", clean) ∷ (codes "b", clean) ∷ [])
    ≡ none
unfolding build_groups
two_fallbacks = refl

abbrev clean_built : (g : GroupImpl Bytes Bytes Bytes) × (build (codes "clean") clean true ≡ some g)
unfolding build_group
clean_built = (_, refl)

match_group-build_group_example :
    (clean_built.0.fallback ≡ true)
    × (match_group sample_regexp sample_dns sample_net system clean_built.0 (ask (codes "x.cn.") 1)
        ≡ false)
unfolding build_group is_empty_rule
match_group-build_group_example =
    match_group-build_group sample_regexp sample_dns sample_net system (codes "clean") clean
      clean_built.0 (ask (codes "x.cn.") 1) refl clean_built.1
