-- ===== src/Outbound/Hijack/Suffixes.antt =====
-- What rewriting a name's suffix gives, and a name that comes back changed.
use mathlib.Core.List.{foldl, foldl-append, reverse, reverse-append}
use ts_dns.Common.{
  ℕ, zero, suc, ◌+◌, ◌-◌, ◌≡◌, refl, sym, ap, ap₂, ◌∙◌, ◌≢◌, true, false, not, ◌||◌,
}
use ts_dns.Common.{
  none, some, List, [], ◌∷◌, ◌++◌, arith, if◌then◌else◌, length, length-append, take, drop,
}
use ts_dns.Common.{Bytes, dot, to_lower, equal_fold, eq_bytes_iff, eq_bytes_self, ends_with, leb}
use ts_dns.Dns.{DnsLib}
use ts_dns.Outbound.Hijack.{
  HijackRule, replace_qualified, replace_domain_suffix, rewrite_request, rewrite_response,
}

length-to_lower : (s : Bytes) → length (to_lower s) ≡ length s
unfolding to_lower
length-to_lower [] = refl
length-to_lower (c ∷ s) = ap suc (length-to_lower s)

equal_fold-length : (s t : Bytes) → equal_fold s t ≡ true → length s ≡ length t
unfolding equal_fold
equal_fold-length s t h =
    sym (length-to_lower s)
    ∙ ap length ((eq_bytes_iff (to_lower s) (to_lower t)).0 h)
    ∙ length-to_lower t

pub equal_fold_self : (s : Bytes) → equal_fold s s ≡ true
unfolding equal_fold
equal_fold_self s = eq_bytes_self (to_lower s)

drop-append_left : (n : ℕ) (s t : Bytes) → n ≡ length s → drop n (s ++ t) ≡ t
drop-append_left zero [] t h = refl
drop-append_left zero (x ∷ s) t h = absurd (omega arith)
drop-append_left (suc n) [] t h = absurd (omega arith)
drop-append_left (suc n) (x ∷ s) t h = drop-append_left n s t (omega arith)

take-append_left : (n : ℕ) (s t : Bytes) → n ≡ length s → take n (s ++ t) ≡ s
take-append_left zero [] t h = refl
take-append_left zero (x ∷ s) t h = absurd (omega arith)
take-append_left (suc n) [] t h = absurd (omega arith)
take-append_left (suc n) (x ∷ s) t h = ap (◌∷◌ x) (take-append_left n s t (omega arith))

not_equal_fold : (s t : Bytes) → length s ≢ length t → equal_fold s t ≡ false
not_equal_fold s t h = ground (arith, equal_fold-length s t)

append-dot : (pre source : Bytes) → pre ++ dot ∷ source ≡ (pre ++ dot ∷ []) ++ source
append-dot [] source = refl
append-dot (x ∷ pre) source = ap (◌∷◌ x) (append-dot pre source)

-- A name below the source, with at least one byte before the dot.
replace_qualified-sub :
    (x : ℕ) (pre source dest : Bytes)
    → replace_qualified ((x ∷ pre) ++ dot ∷ source) source dest ≡ some ((x ∷ pre) ++ dot ∷ dest)
unfolding replace_qualified
replace_qualified-sub x pre source dest =
    let name = (x ∷ pre) ++ dot ∷ source in
    let n : length name ≡ suc (length pre) + suc (length source) =
      length-append (x ∷ pre) (dot ∷ source) in
    let differs : equal_fold name source ≡ false =
      not_equal_fold name source (λ e. omega (arith, e, n)) in
    let longer : leb (length name) (length (dot ∷ source)) ≡ false = ground (arith, n) in
    let tail : drop (length name - length (dot ∷ source)) name ≡ dot ∷ source =
      drop-append_left (length name - length (dot ∷ source)) (x ∷ pre) (dot ∷ source)
        (omega (arith, n)) in
    let head : take (length name - length source) name ≡ (x ∷ pre) ++ dot ∷ [] =
      ap (take (length name - length source)) (append-dot (x ∷ pre) source)
      ∙ take-append_left (length name - length source) ((x ∷ pre) ++ dot ∷ []) source
          (omega (arith, n, length-append (x ∷ pre) (dot ∷ []))) in
    rw differs (
      ap₂ (λ b t. if b then none else some (t ++ dest))
        (ap₂ (λ b t. b || not (equal_fold t (dot ∷ source))) longer tail
          ∙ ap not (equal_fold_self (dot ∷ source)))
        head
      ∙ ap some (sym (append-dot (x ∷ pre) dest)))

ends_with-append : (s t : Bytes) → t ≢ [] → ends_with dot (s ++ t) ≡ ends_with dot t
unfolding ends_with
ends_with-append [] t h = refl
ends_with-append (x ∷ []) [] h = absurd (h refl)
ends_with-append (x ∷ []) (y ∷ t) h = refl
ends_with-append (x ∷ y ∷ s) t h = ends_with-append (y ∷ s) t h

module _ (dns : DnsLib) where
  -- A qualified name: `Fqdn` leaves it alone.
  abbrev pub IsQualified : Bytes → Type 0
  IsQualified s = dns.fqdn s ≡ s

  -- A rule renames every qualified name below its source, keeping what stands before the source.
  pub replace_domain_suffix-sub :
      (x : ℕ) (pre : Bytes) (a b : ℕ) (source dest : Bytes)
      → IsQualified ((x ∷ pre) ++ dot ∷ a ∷ source)
      → IsQualified (a ∷ source)
      → IsQualified (b ∷ dest)
      → replace_domain_suffix dns ((x ∷ pre) ++ dot ∷ a ∷ source) (a ∷ source) (b ∷ dest)
        ≡ (x ∷ pre) ++ dot ∷ b ∷ dest
  unfolding replace_domain_suffix
  replace_domain_suffix-sub x pre a b source dest hn hs hd =
      let name = (x ∷ pre) ++ dot ∷ a ∷ source in
      let ends : ends_with dot name ≡ true = ap (ends_with dot) (sym hn) ∙ dns.fqdn_ends name in
      rw (hn, hs, hd, replace_qualified-sub x pre (a ∷ source) (b ∷ dest), ends)

  -- A domain that stands below `pre` and alone as a qualified name.
  abbrev pub IsSuffix : Bytes → Bytes → Type 0
  IsSuffix pre s = IsQualified (pre ++ dot ∷ s) × IsQualified s × (s ≢ [])

  replace-IsSuffix :
      (x : ℕ) (pre s t : Bytes)
      → IsSuffix (x ∷ pre) s
      → IsSuffix (x ∷ pre) t
      → replace_domain_suffix dns ((x ∷ pre) ++ dot ∷ s) s t ≡ (x ∷ pre) ++ dot ∷ t
  replace-IsSuffix x pre [] t hs ht = absurd (hs.2 refl)
  replace-IsSuffix x pre (a ∷ s) [] hs ht = absurd (ht.2 refl)
  replace-IsSuffix x pre (a ∷ s) (b ∷ t) hs ht =
      replace_domain_suffix-sub x pre a b s t hs.0 hs.1 ht.1

  -- Rules of which each continues where the one before it left off, from one domain to another.
  abbrev pub IsChain : Bytes → List HijackRule → Bytes → Bytes → Type 0
  IsChain pre [] s t = (s ≡ t) × IsSuffix pre s
  IsChain pre (r ∷ rules) s t = (s ≡ r.source) × IsSuffix pre s × IsChain pre rules r.dest t

  IsChain-start :
      (pre : Bytes) (rules : List HijackRule) (s t : Bytes) → IsChain pre rules s t → IsSuffix pre s
  IsChain-start pre [] s t h = h.1
  IsChain-start pre (r ∷ rules) s t h = h.1

  rewrite_request-chain :
      (x : ℕ) (pre : Bytes) (rules : List HijackRule) (s t : Bytes)
      → IsChain (x ∷ pre) rules s t
      → rewrite_request dns rules ((x ∷ pre) ++ dot ∷ s) ≡ (x ∷ pre) ++ dot ∷ t
  unfolding rewrite_request
  rewrite_request-chain x pre [] s t h = ap (λ u. (x ∷ pre) ++ dot ∷ u) h.0
  rewrite_request-chain x pre (r ∷ rules) s t h =
      ap
        (λ n. rewrite_request dns rules (replace_domain_suffix dns ((x ∷ pre) ++ dot ∷ s) n r.dest))
        (sym h.0)
      ∙ ap (rewrite_request dns rules)
          (replace-IsSuffix x pre s r.dest h.1 (IsChain-start (x ∷ pre) rules r.dest t h.2))
      ∙ rewrite_request-chain x pre rules r.dest t h.2

  rewrite_response-cons :
      (r : HijackRule) (rules : List HijackRule) (name : Bytes)
      → rewrite_response dns (r ∷ rules) name
        ≡ replace_domain_suffix dns (rewrite_response dns rules name) r.dest r.source
  unfolding rewrite_response
  rewrite_response-cons r rules name =
      let back : Bytes → HijackRule → Bytes = λ n q. replace_domain_suffix dns n q.dest q.source in
      ap (foldl back name) (reverse-append (r ∷ []) rules)
      ∙ foldl-append back name (reverse rules) (r ∷ [])

  rewrite_response-chain :
      (x : ℕ) (pre : Bytes) (rules : List HijackRule) (s t : Bytes)
      → IsChain (x ∷ pre) rules s t
      → rewrite_response dns rules ((x ∷ pre) ++ dot ∷ t) ≡ (x ∷ pre) ++ dot ∷ s
  rewrite_response-chain x pre [] s t h =
      unfold rewrite_response in ap (λ u. (x ∷ pre) ++ dot ∷ u) (sym h.0)
  rewrite_response-chain x pre (r ∷ rules) s t h =
      rewrite_response-cons r rules ((x ∷ pre) ++ dot ∷ t)
      ∙ ap (λ n. replace_domain_suffix dns n r.dest r.source)
          (rewrite_response-chain x pre rules r.dest t h.2)
      ∙ ap (λ u. replace_domain_suffix dns ((x ∷ pre) ++ dot ∷ r.dest) r.dest u) (sym h.0)
      ∙ replace-IsSuffix x pre r.dest s (IsChain-start (x ∷ pre) rules r.dest t h.2) h.1

  -- Along a chain of rules, such as A to B and then B to C, a request's name below the first source is
  -- renamed below the last destination, and the response's name is renamed back to it.
  pub rewrite_round_trip :
      (x : ℕ) (pre : Bytes) (rules : List HijackRule) (s t : Bytes)
      → IsChain (x ∷ pre) rules s t
      → (rewrite_request dns rules ((x ∷ pre) ++ dot ∷ s) ≡ (x ∷ pre) ++ dot ∷ t)
        × (rewrite_response dns rules (rewrite_request dns rules ((x ∷ pre) ++ dot ∷ s))
            ≡ (x ∷ pre) ++ dot ∷ s)
  rewrite_round_trip x pre rules s t h = (
    rewrite_request-chain x pre rules s t h,
    ap (rewrite_response dns rules) (rewrite_request-chain x pre rules s t h)
        ∙ rewrite_response-chain x pre rules s t h,
  )

  -- The name is not the source, in any letter case, and does not end in a dot and the source.
  abbrev pub IsOutside : Bytes → Bytes → Type 0
  IsOutside name source =
      (equal_fold name source ≡ false)
      × (equal_fold (drop (length name - length (dot ∷ source)) name) (dot ∷ source) ≡ false)

  replace-IsOutside :
      (name source dest : Bytes)
      → IsQualified name
      → IsQualified source
      → IsOutside name source
      → replace_domain_suffix dns name source dest ≡ name
  unfolding replace_domain_suffix replace_qualified
  replace-IsOutside name source dest hn hs h = ground (arith, h.0, h.1, hn, hs)

  IsOutside-dest :
      (x : ℕ) (pre source dest : Bytes) → IsOutside ((x ∷ pre) ++ dot ∷ dest) source → source ≢ dest
  IsOutside-dest x pre source dest h e =
      let name = (x ∷ pre) ++ dot ∷ dest in
      let n : length name ≡ suc (length pre) + suc (length dest) =
        length-append (x ∷ pre) (dot ∷ dest) in
      let m : length source ≡ length dest = ap length e in
      let tail : drop (length name - length (dot ∷ source)) name ≡ dot ∷ dest =
        drop-append_left (length name - length (dot ∷ source)) (x ∷ pre) (dot ∷ dest)
          (omega (arith, n, m)) in
      let same : equal_fold (dot ∷ dest) (dot ∷ source) ≡ true =
        ap (λ s. equal_fold (dot ∷ dest) (dot ∷ s)) e ∙ equal_fold_self (dot ∷ dest) in
      ground (arith, h.1, tail, same)

  append-injective : (pre s t : Bytes) → pre ++ dot ∷ s ≡ pre ++ dot ∷ t → s ≡ t
  append-injective [] s t h = cc
  append-injective (x ∷ pre) s t h = append-injective pre s t (cc)

  -- Under a single rule, with qualified names, a request for a name below the rule's destination that is
  -- neither the rule's source nor stands below it goes out unchanged, and yet a response to it is renamed
  -- below the source: the question of the response then differs from the question that was asked.
  pub rewrite_response-dest :
      (x : ℕ) (pre : Bytes) (r : HijackRule)
      → IsSuffix (x ∷ pre) r.source
      → IsSuffix (x ∷ pre) r.dest
      → IsOutside ((x ∷ pre) ++ dot ∷ r.dest) r.source
      → (rewrite_request dns (r ∷ []) ((x ∷ pre) ++ dot ∷ r.dest) ≡ (x ∷ pre) ++ dot ∷ r.dest)
        × (rewrite_response dns (r ∷ []) ((x ∷ pre) ++ dot ∷ r.dest) ≡ (x ∷ pre) ++ dot ∷ r.source)
        × ((x ∷ pre) ++ dot ∷ r.source ≢ (x ∷ pre) ++ dot ∷ r.dest)
  unfolding rewrite_request rewrite_response
  rewrite_response-dest x pre r hs hd outside = (
    replace-IsOutside ((x ∷ pre) ++ dot ∷ r.dest) r.source r.dest hd.0 hs.1 outside,
    replace-IsSuffix x pre r.dest r.source hd hs,
    λ e.
        IsOutside-dest x pre r.source r.dest outside (append-injective (x ∷ pre) r.source r.dest e),
  )
