-- ===== src/Redirector.antt =====
-- redirector/redirector.go. A group is a value of a type `G` with a name. The lines of a rules file are
-- a parameter, with whether the scan ended without error; a Go map is an association list.
use ts_dns.Common.{
  ℕ, Bool, true, false, not, ◌&&◌, ◌||◌, Option, none, some, List, [], ◌∷◌, if◌then◌else◌,
}
use ts_dns.Common.{Bytes, codes, eq_bytes, to_lower, trim_space, has_prefix, lookup, ◌>>=◌}
use ts_dns.Dns.{Ip, Rr, a, aaaa, cname, opt, other, Msg, NetLib}
mod Redirects
mod Tests

-- github.com/yl2chen/cidranger: a set of networks; `none` is an error.
pub record RangerLib : Type 1 where
  pub Ranger : Type 0
  pub new_ranger : Ranger
  pub insert : Ranger → Ip × ℕ → Option Ranger
  pub contains : Ranger → Ip → Option Bool

abbrev pub type_match_cidr : Bytes
type_match_cidr = codes "match_cidr"

abbrev pub type_mismatch_cidr : Bytes
type_mismatch_cidr = codes "mismatch_cidr"

-- `config.RedirectorConf`.
pub record RedirectorConf : Type 0 where
  pub type_name : Bytes
  pub dst_group : Bytes
  pub rules : List Bytes
  pub rules_file : Bytes

-- `cidrRedirector`.
pub record CidrRedirector (R G : Type 0) : Type 0 where
  pub name : Bytes
  pub ranger : R
  pub not_in : Bool
  pub dst : G

abbrev pub is_comment : Bytes → Bool
is_comment line = eq_bytes line [] || (has_prefix line (codes "#") || has_prefix line (codes "//"))

module _ (lib : RangerLib) (net : NetLib) {G : Type 0} (name_of : G → Bytes) where
  open lib use {Ranger, new_ranger, insert, contains}

  -- The closure `match` of `Redirect`.
  unfoldable pub matches : CidrRedirector Ranger G → Ip → Bool
  matches r ip = elim (contains r.ranger ip) [
    | none ↦ false
    | some is_in ↦ if r.not_in then not is_in else is_in
  ]

  -- `Redirect`, over the answers.
  unfoldable pub redirect : CidrRedirector Ranger G → List Rr → Option G
  unfolding matches
  redirect r [] = none
  redirect r (a h ip ∷ rest) =
      let later = redirect r rest in if matches r ip then some r.dst else later
  redirect r (aaaa h ip ∷ rest) =
      let later = redirect r rest in if matches r ip then some r.dst else later
  redirect r (cname h t ∷ rest) = redirect r rest
  redirect r (opt h os ∷ rest) = redirect r rest
  redirect r (other h raw ∷ rest) = redirect r rest

  -- The closure `addEntry`.
  abbrev insert_entry : Ranger → Option (Ip × ℕ) → Option Ranger
  insert_entry ranger none = none
  insert_entry ranger (some n) = insert ranger n

  unfoldable pub add_entry : Ranger → Bytes → Option Ranger
  add_entry ranger val = insert_entry ranger (net.parse_cidr val)

  unfoldable pub add_rules : Ranger → List Bytes → Option Ranger
  unfolding add_entry
  add_rules ranger [] = some ranger
  add_rules ranger (rule ∷ rest) = elim (add_entry ranger rule) [
    | none ↦ none
    | some r ↦ add_rules r rest
  ]

  -- The loop over the lines of the rules file.
  unfoldable pub add_lines : Ranger → List Bytes → Option Ranger
  unfolding add_entry trim_space eq_bytes has_prefix
  add_lines ranger [] = some ranger
  add_lines ranger (line ∷ rest) =
      let skipped = add_lines ranger rest in
      if is_comment (trim_space line)
      then skipped
      else elim (add_entry ranger (trim_space line)) [ none ↦ none | some r ↦ add_lines r rest ]

  abbrev add_opened : Ranger → Option (List Bytes × Bool) → Option Ranger
  add_opened ranger none = none
  add_opened ranger (some (lines, complete)) = elim (add_lines ranger lines) [
    | none ↦ none
    | some r ↦ if complete then some r else none
  ]

  module _ (open_file : Bytes → Option (List Bytes × Bool)) where
    unfoldable pub add_file : Ranger → Bytes → Option Ranger
    unfolding add_lines
    add_file ranger [] = some ranger
    add_file ranger (c ∷ s) = add_opened ranger (open_file (c ∷ s))

    -- `newCidrRedirector`; `none` is an error.
    unfoldable pub new_cidr_redirector :
        Bytes → RedirectorConf → List (Bytes × G) → Option (CidrRedirector Ranger G)
    unfolding add_rules add_file lookup eq_bytes
    new_cidr_redirector name conf groups = do
      dst ← lookup conf.dst_group groups
      with_rules ← add_rules new_ranger conf.rules
      ranger ← add_file with_rules conf.rules_file
      some (record {
        name = name;
        ranger = ranger;
        not_in = eq_bytes conf.type_name type_mismatch_cidr;
        dst = dst;
      })

    -- One round of the first loop of `NewRedirector`.
    unfoldable pub new_instance :
        Bytes → RedirectorConf → List (Bytes × G) → Option (CidrRedirector Ranger G)
    unfolding new_cidr_redirector to_lower
    new_instance name conf groups =
        if eq_bytes (to_lower conf.type_name) type_match_cidr
          || eq_bytes (to_lower conf.type_name) type_mismatch_cidr
        then new_cidr_redirector name conf groups
        else none

    unfoldable pub new_instances :
        List (Bytes × RedirectorConf)
        → List (Bytes × G)
        → Option (List (Bytes × CidrRedirector Ranger G))
    unfolding new_instance
    new_instances [] groups = some []
    new_instances ((name, conf) ∷ rest) groups = do
      r ← new_instance name conf groups
      rs ← new_instances rest groups
      some ((name, r) ∷ rs)

  -- The second loop: from a group's name to the redirector it names, for pairs of the two names.
  unfoldable pub assign_redirectors :
      List (Bytes × CidrRedirector Ranger G)
      → List (Bytes × Bytes)
      → Option (List (Bytes × CidrRedirector Ranger G))
  unfolding lookup
  assign_redirectors instances [] = some []
  assign_redirectors instances ((group, []) ∷ rest) = assign_redirectors instances rest
  assign_redirectors instances ((group, c ∷ s) ∷ rest) = do
    r ← lookup (c ∷ s) instances
    rs ← assign_redirectors instances rest
    some ((group, r) ∷ rs)

  -- The closure that `NewRedirector` returns.
  abbrev not_source : G → Option G → Option G
  not_source src none = none
  not_source src (some g) = if eq_bytes (name_of src) (name_of g) then none else some g

  abbrev redirect_with : G → Option (CidrRedirector Ranger G) → Option Msg → Option G
  redirect_with src none resp = none
  redirect_with src (some r) none = none
  redirect_with src (some r) (some resp) = not_source src (redirect r resp.answer)

  unfoldable pub redirect_from : List (Bytes × CidrRedirector Ranger G) → G → Option Msg → Option G
  unfolding redirect lookup eq_bytes
  redirect_from redirectors src resp = redirect_with src (lookup (name_of src) redirectors) resp
