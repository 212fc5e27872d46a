-- ===== src/Outbound/Hijack.antt =====
-- outbound/groups.go: `replaceDomainSuffix`, `processHijackRules` and `cleanHijackAnswer`.
use mathlib.Core.List.{foldl}
use ts_dns.Common.{
  ℕ, suc, ◌-◌, Bool, true, false, not, ◌&&◌, ◌||◌, Option, none, some, List, [], ◌∷◌, ◌++◌, map,
}
use ts_dns.Common.{
  reverse, if◌then◌else◌, leb, ◌==◌, length, take, drop, Bytes, dot, ends_with, equal_fold,
  trim_suffix,
}
use ts_dns.Dns.{
  Hdr, Edns0, Rr, a, aaaa, cname, opt, other, with_name, type_a, type_aaaa, Question, Msg, DnsLib,
}
pub mod Suffixes
mod Cleans
mod Tests

-- `hijackRule`.
pub record HijackRule : Type 0 where
  pub source : Bytes
  pub dest : Bytes

abbrev pub is_nil {ℓ} : {A : Type ℓ} → List A → Bool
is_nil [] = true
is_nil (x ∷ xs) = false

-- The body of `replaceDomainSuffix` on qualified names; `none` is the return of the original.
unfoldable pub replace_qualified : Bytes → Bytes → Bytes → Option Bytes
unfolding equal_fold
replace_qualified name source dest =
    if equal_fold name source
    then some dest
    else let suffix = dot ∷ source in
      if leb (length name) (length suffix)
        || not (equal_fold (drop (length name - length suffix) name) suffix)
      then none
      else some (take (length name - length source) name ++ dest)

-- The loop of `cleanHijackAnswer` over the answers.
unfoldable pub clean_answers : Question → List Rr → List Rr
clean_answers q [] = []
clean_answers q (a h ip ∷ rest) =
    let cleaned = clean_answers q rest in
    if q.qtype == type_a then with_name (a h ip) q.name ∷ cleaned else cleaned
clean_answers q (aaaa h ip ∷ rest) =
    let cleaned = clean_answers q rest in
    if q.qtype == type_aaaa then with_name (aaaa h ip) q.name ∷ cleaned else cleaned
clean_answers q (cname h t ∷ rest) = clean_answers q rest
clean_answers q (opt h os ∷ rest) = clean_answers q rest
clean_answers q (other h raw ∷ rest) = clean_answers q rest

abbrev pub opt_only : Option (Hdr × List Edns0) → List Rr
opt_only none = []
opt_only (some (h, os)) = opt h os ∷ []

abbrev pub rename : (Bytes → Bytes) → List Question → List Question
rename f = map {A = Question} (λ q. record q { name = f q.name })

module _ (dns : DnsLib) where
  -- `replaceDomainSuffix`.
  unfoldable pub replace_domain_suffix : Bytes → Bytes → Bytes → Bytes
  unfolding replace_qualified ends_with trim_suffix
  replace_domain_suffix name source dest =
      if is_nil name || is_nil source || is_nil dest
      then name
      else elim (replace_qualified (dns.fqdn name) (dns.fqdn source) (dns.fqdn dest)) [
        | none ↦ name
        | some replaced ↦ if ends_with dot name then replaced else trim_suffix dot replaced
      ]

  -- The loops over the rules: in order for a request, backwards for a response.
  unfoldable pub rewrite_request : List HijackRule → Bytes → Bytes
  unfolding replace_domain_suffix
  rewrite_request rules name = foldl (λ n r. replace_domain_suffix n r.source r.dest) name rules

  unfoldable pub rewrite_response : List HijackRule → Bytes → Bytes
  unfolding replace_domain_suffix
  rewrite_response rules name =
      foldl (λ n r. replace_domain_suffix n r.dest r.source) name (reverse rules)

  abbrev pub wants_dnssec : Option (Hdr × List Edns0) → Bool
  wants_dnssec none = false
  wants_dnssec (some o) = dns.edns_do o

  abbrev clean_with : Msg → List Rr → Msg
  clean_with m cleaned = record m { answer = cleaned; ns = []; extra = opt_only (dns.is_edns0 m) }

  -- `cleanHijackAnswer`. Both of its ends give an empty answer where nothing was kept.
  unfoldable pub clean_question : Msg → List Question → Msg
  unfolding clean_answers
  clean_question m [] = m
  clean_question m (q ∷ []) =
      if not (q.qtype == type_a) && not (q.qtype == type_aaaa)
      then m
      else if wants_dnssec (dns.is_edns0 m)
      then m
      else let cleaned = clean_answers q m.answer in
        if is_nil cleaned then clean_with m [] else clean_with m cleaned
  clean_question m (q ∷ q' ∷ qs) = m

  unfoldable pub clean_hijack_answer : Option Msg → Option Msg
  unfolding clean_question
  clean_hijack_answer none = none
  clean_hijack_answer (some m) = some (clean_question m m.question)

  -- `processHijackRules`.
  unfoldable pub process_hijack_rules : List HijackRule → Option Msg → Bool → Option Msg
  unfolding rewrite_request rewrite_response clean_hijack_answer
  process_hijack_rules rules none backwards = none
  process_hijack_rules [] (some m) backwards = some m
  process_hijack_rules (r ∷ rules) (some m) true =
      clean_hijack_answer
        (some (record m { question = rename (rewrite_response (r ∷ rules)) m.question }))
  process_hijack_rules (r ∷ rules) (some m) false =
      some (record m { question = rename (rewrite_request (r ∷ rules)) m.question })
