-- ===== src/Inbound/Handler/Handles.antt =====
-- What `handle` and `ServeDNS` do with a query.
use ts_dns.Common.{
  ◌≡◌, refl, sym, ap, true, false, Option, some, List, [], ◌∷◌, ◌++◌, ◌⊎◌, inl, inr,
}
use ts_dns.Common.{if◌then◌else◌, any, All, Bool-cases}
use mathlib.Core.Path.{subst}
use ts_dns.Dns.{Question, Msg, DnsLib}
use ts_dns.Inbound.Handler.{
  Group, Handler, is_disabled, new_msg, rcode_refused, rcode_format_error, matched_group, or_else,
  handle_question, handle, serve_dns, or_failure,
}

module _ {S : Type 0} where
  -- The group that answers: the first in order that matches, or the fallback group if none does.
  abbrev pub IsMatched : Group S → S → Msg → List (Group S) → Group S → Type 0
  IsMatched fallback s req groups g =
      ((before after : List (Group S)) × (groups ≡ before ++ g ∷ after)
        × All (λ g'. g'.match s req ≡ false) before
        × (g.match s req ≡ true))
      ⊎ (All (λ g'. g'.match s req ≡ false) groups × (g ≡ fallback))

  IsMatched-later :
      (fallback : Group S) (s : S) (req : Msg) (x : Group S) (groups : List (Group S)) (g : Group S)
      → x.match s req ≡ false
      → IsMatched fallback s req groups g
      → IsMatched fallback s req (x ∷ groups) g
  IsMatched-later fallback s req x groups g off (inl (before, after, e, none_before, on)) =
      inl (x ∷ before, after, ap (◌∷◌ x) e, (off, none_before), on)
  IsMatched-later fallback s req x groups g off (inr (none_at_all, e)) = inr ((off, none_at_all), e)

  -- The group that is asked is the first in order that matches the query, or the fallback group if
  -- no group matches.
  pub matched_group-IsMatched :
      (fallback : Group S) (s : S) (req : Msg) (groups : List (Group S))
      → IsMatched fallback s req groups (matched_group fallback s req groups)
  unfolding matched_group
  matched_group-IsMatched fallback s req [] = inr (tt, refl)
  matched_group-IsMatched fallback s req (x ∷ groups) =
      let later = matched_group fallback s req groups in
      elim (Bool-cases (x.match s req)) [
        | inl on ↦
            subst (IsMatched fallback s req (x ∷ groups))
              (ap (λ b. if b then x else later) (sym on)) (inl ([], groups, refl, tt, on))
        | inr off ↦
            subst (IsMatched fallback s req (x ∷ groups))
              (ap (λ b. if b then x else later) (sym off))
              (IsMatched-later fallback s req x groups later off
                (matched_group-IsMatched fallback s req groups))
      ]

module _ {S : Type 0} (dns : DnsLib) (h : Handler S) where
  -- Which group a message m' is from, where the matched group's message is m: from that group, or
  -- from the group that the redirector chose, whose own message goes before m.
  abbrev pub IsFrom : Group S → S → Msg → Msg → Group S → Msg → Type 0
  IsFrom matched s req m g m' =
      ((g ≡ matched) × (m' ≡ m))
      ⊎ ((r : Group S → Msg → Option Msg → Option (Group S)) × (h.redirector ≡ some r)
          × (r matched req (some m) ≡ some g)
          × (or_else (g.handle s req).1 (some m) ≡ some m'))

  -- What is given for a query, with the state that the group's post-processing and the cache leave.
  abbrev pub IsAnswered : Group S → S → Msg → Msg → S × Option Msg → Type 0
  IsAnswered matched s req m done =
      (m' : Msg) × (g : Group S) × (s' : S) × IsFrom matched s req m g m'
      × (done ≡ (h.cache_set (g.post_process s' req (some m')) req (some m'), some m'))

  -- A query that names a disabled type is answered with the code for a refusal and no records, and
  -- leaves the cache and every group as they were; likewise one without question, with the code
  -- for a format error.
  pub serve_dns-refuses :
      (s : S) (req : Msg)
      → (any (is_disabled h.disable_qtypes) req.question ≡ true) ⊎ (req.question ≡ [])
      → ((serve_dns dns h s req).0 ≡ s)
        × ((serve_dns dns h s req).1.answer ≡ [])
        × ((serve_dns dns h s req).1.rcode ≡ (
            if any (is_disabled h.disable_qtypes) req.question
            then rcode_refused
            else rcode_format_error))
  unfolding serve_dns handle
  serve_dns-refuses s req e = refuses req.question e
    where
      refuses :
          (qs : List Question)
          → (any (is_disabled h.disable_qtypes) qs ≡ true) ⊎ (qs ≡ [])
          → ((or_failure dns h req (handle_question dns h s req qs)).0 ≡ s)
            × ((or_failure dns h req (handle_question dns h s req qs)).1.answer ≡ [])
            × ((or_failure dns h req (handle_question dns h s req qs)).1.rcode ≡ (
                if any (is_disabled h.disable_qtypes) qs
                then rcode_refused
                else rcode_format_error))
      refuses [] e = (
        refl,
        dns.set_rcode_answer new_msg req rcode_format_error,
        dns.set_rcode_rcode new_msg req rcode_format_error,
      )
      refuses (q ∷ qs) (inr e) = cc
      refuses (q ∷ qs) (inl e) = rw e (
        refl,
        dns.set_rcode_answer new_msg req rcode_refused,
        dns.set_rcode_rcode new_msg req rcode_refused,
      )
