-- ===== src/Matcher/AbPlus/Reads.antt =====
-- Where reading rules from text panics.
use ts_dns.Common.{ℕ, zero, suc, ◌-◌, ◌≤◌, ◌<◌, ◌≡◌, refl, sym, ap, ◌∙◌, ◌⊎◌, inl, inr, true}
use ts_dns.Common.{
  ◌&&◌, ◌||◌, ◌==◌, none, some, List, [], ◌∷◌, ◌++◌, arith, In, Option-cases, Bool-cases, if-true,
  if-false,
}
use ts_dns.Common.{
  Bytes, codes, dot, eq_bytes, eq_bytes_iff, ltb, length, take, drop, split, trim_space,
}
use ts_dns.Common.{
  contains_byte, trim_suffix, cut_after, cut_before, after_last, replace_percent_2f,
}
use ts_dns.Common.{length-cut_after, length-cut_before, length-trim_suffix, length-after_last}
use ts_dns.Regexp.{RegexpLib}
use ts_dns.Matcher.AbPlus.{
  AbPlus, google_start, google_end, extract_domain, is_tld, add_blocked, add_unblocked, slash_line,
  wildcard_line, wildcard_pattern, domain_line, rule_line, read_line, read_lines, new_matcher,
  new_abp_by_text,
}

-- The expression `https?:\/\/.*` with nothing between the scheme and the rest.
abbrev pub bare_google_line : Bytes
bare_google_line = codes "/^https?:\\/\\/.*/"

length-extract_domain : (line : Bytes) → length (extract_domain line) ≤ length line
unfolding extract_domain
length-extract_domain line = omega (
  arith,
  length-cut_before b'^' (
      cut_before b'/'
        (cut_after (codes "://") (cut_after (codes "|") (cut_after (codes "||") line)))),
  length-cut_before b'/'
      (cut_after (codes "://") (cut_after (codes "|") (cut_after (codes "||") line))),
  length-cut_after (codes "://") (cut_after (codes "|") (cut_after (codes "||") line)),
  length-cut_after (codes "|") (cut_after (codes "||") line),
  length-cut_after (codes "||") line,
)

length-is_tld : (s : Bytes) → is_tld s ≡ true → 2 ≤ length s
unfolding is_tld
length-is_tld s h = ground arith

slash_tail :
    (w : Bytes)
    → 0 < length w
    → length w < 5
    → eq_bytes (drop (length (google_start ++ w) - 5) (google_start ++ w)) google_end ≡ true
    → w ≡ codes ".*/"
unfolding eq_bytes
slash_tail [] p q h = absurd (omega arith)
slash_tail (a ∷ []) p q h = ground arith
slash_tail (a ∷ b ∷ []) p q h = ground arith
slash_tail (a ∷ b ∷ c ∷ []) p q h = ground arith
slash_tail (a ∷ b ∷ c ∷ d ∷ []) p q h = ground arith
slash_tail (a ∷ b ∷ c ∷ d ∷ e ∷ w) p q h = absurd (omega arith)

take-append_drop : (n : ℕ) (s : Bytes) → take n s ++ drop n s ≡ s
take-append_drop zero s = refl
take-append_drop (suc n) [] = refl
take-append_drop (suc n) (x ∷ s) = ap (◌∷◌ x) (take-append_drop n s)

length-take_drop : (n : ℕ) (s : Bytes) → length (drop n s) ≡ length s - n
length-take_drop zero s = omega arith
length-take_drop (suc n) [] = omega arith
length-take_drop (suc n) (x ∷ s) = omega (arith, length-take_drop n s)

short_google_line :
    (line : Bytes)
    → 13 < length line
    → length line < 18
    → eq_bytes (take 13 line) google_start ≡ true
    → eq_bytes (drop (length line - 5) line) google_end ≡ true
    → line ≡ bare_google_line
short_google_line line p q hs he =
    let w = drop 13 line in
    let whole : google_start ++ w ≡ line =
      ap (λ t. t ++ w) (sym ((eq_bytes_iff (take 13 line) google_start).0 hs))
      ∙ take-append_drop 13 line in
    sym whole
    ∙ ap (λ t. google_start ++ t)
        (slash_tail w (omega (arith, length-take_drop 13 line))
          (omega (arith, length-take_drop 13 line)) (rw (← whole) at he))

module _ (re : RegexpLib) where
  open re use {Regexp, compile}

  abbrev Fails : Bytes → Type 0
  Fails line = (line ≡ bare_google_line) ⊎ ((p : Bytes) × (compile p ≡ none))

  slash_line-Fails : (line : Bytes) (m : AbPlus Regexp) → slash_line re line m ≡ none → Fails line
  unfolding slash_line add_blocked
  slash_line-Fails line m h =
      let n = length line in
      let test =
        ltb 13 n
        && eq_bytes (take 13 line) google_start
        && eq_bytes (drop (n - 5) line) google_end in
      elim (Bool-cases test) [
        | inr off ↦ absurd (ground arith)
        | inl on ↦ elim (Bool-cases (ltb n 18)) [
          | inl short ↦
              inl
                (short_google_line line (ground arith) (ground arith) (ground arith) (ground arith))
          | inr long ↦ inr (take (n - 5 - 13) (drop 13 line), ground arith)
        ]
      ]

  wildcard_line-Fails :
      (line d : Bytes) (m : AbPlus Regexp)
      → wildcard_line re line d m ≡ none
      → (p : Bytes) × (compile p ≡ none)
  unfolding wildcard_line add_blocked add_unblocked
  wildcard_line-Fails line d m h = (wildcard_pattern d, ground arith)

  domain_line-ne-none :
      (line d : Bytes) (m : AbPlus Regexp)
      → length d ≤ length line
      → domain_line re line d m ≡ none
      → ⊥
  unfolding domain_line
  domain_line-ne-none line d m le h = elim (Option-cases (after_last dot d)) [
    | inl miss ↦ ground arith
    | inr (tld, hit) ↦ ground (arith, length-is_tld tld, length-after_last dot d tld hit)
  ]

  rule_line-Fails :
      (line : Bytes) (m : AbPlus Regexp)
      → rule_line re line m ≡ none
      → (p : Bytes) × (compile p ≡ none)
  unfolding rule_line
  rule_line-Fails raw m h =
      let line = replace_percent_2f raw in
      let d = trim_suffix dot (extract_domain line) in
      elim (Bool-cases (contains_byte b'*' d)) [
        | inl star ↦ wildcard_line-Fails line d m (rw star at h)
        | inr plain ↦ absurd (
            domain_line-ne-none line d m
              (omega
                (arith, length-trim_suffix dot (extract_domain line), length-extract_domain line))
              (rw plain at h))
      ]

  some_not_none : {m : AbPlus Regexp} → ¬ (some m ≡ none)
  some_not_none h = cc

  read_line-Fails : (line : Bytes) (m : AbPlus Regexp) → read_line re line m ≡ none → Fails line
  unfolding read_line
  read_line-Fails [] m h = cc
  read_line-Fails (c ∷ s) m h = elim (Bool-cases (c == b'!' || c == b'[')) [
    | inl comment ↦ absurd (some_not_none (if-true _ _ _ comment h))
    | inr plain ↦ elim (Bool-cases (c == b'/')) [
      | inl slash ↦ slash_line-Fails (c ∷ s) m (if-true _ _ _ slash (if-false _ _ _ plain h))
      | inr other ↦ inr (rule_line-Fails (c ∷ s) m (if-false _ _ _ other (if-false _ _ _ plain h)))
    ]
  ]

  bare_google_line-panics : (m : AbPlus Regexp) → read_line re bare_google_line m ≡ none
  unfolding read_line slash_line eq_bytes
  bare_google_line-panics m = refl

  read_lines-Fails :
      (lines : List Bytes) (m : AbPlus Regexp)
      → read_lines re lines m ≡ none
      → (line : Bytes) × In line lines × Fails (trim_space line)
  unfolding read_lines
  read_lines-Fails [] m h = cc
  read_lines-Fails (line ∷ lines) m h = elim (Option-cases (read_line re (trim_space line) m)) [
    | inl off ↦ (line, inl refl, read_line-Fails (trim_space line) m off)
    | inr (m', on) ↦
        let (found, later, why) = read_lines-Fails lines m' (rw (on, read_lines) at h) in
        (found, inr later, why)
  ]

  read_lines-panics :
      (lines : List Bytes) (m : AbPlus Regexp) (line : Bytes)
      → In line lines
      → trim_space line ≡ bare_google_line
      → read_lines re lines m ≡ none
  unfolding read_lines
  read_lines-panics [] m line there e = absurd there
  read_lines-panics (x ∷ lines) m line (inl here) e =
      rw (← here) (rw (e, read_lines) (rw (bare_google_line-panics m, read_lines)))
  read_lines-panics (x ∷ lines) m line (inr later) e =
      elim (Option-cases (read_line re (trim_space x) m)) [
        | inl off ↦ rw (off, read_lines)
        | inr (m', on) ↦ rw (on, read_lines) (read_lines-panics lines m' line later e)
      ]

  -- Reading rules from text panics if some line, with spaces trimmed, is `/^https?:\/\/.*/`.
  pub new_abp_by_text-panics :
      (text line : Bytes)
      → In line (split 10 text)
      → trim_space line ≡ bare_google_line
      → new_abp_by_text re text ≡ none
  unfolding new_abp_by_text
  new_abp_by_text-panics text line there e =
      rw (read_lines-panics (split 10 text) (new_matcher re) line there e, new_abp_by_text)

  -- Where reading rules from text panics, some line, with spaces trimmed, is `/^https?:\/\/.*/`, or some
  -- expression does not compile.
  pub new_abp_by_text-fails :
      (text : Bytes)
      → new_abp_by_text re text ≡ none
      → ((line : Bytes) × In line (split 10 text) × (trim_space line ≡ bare_google_line))
        ⊎ ((p : Bytes) × (compile p ≡ none))
  unfolding new_abp_by_text
  new_abp_by_text-fails text h =
      sort (read_lines-Fails (split 10 text) (new_matcher re) (ground arith))
    where
      sort :
          (line : Bytes) × In line (split 10 text) × Fails (trim_space line)
          → ((line : Bytes) × In line (split 10 text) × (trim_space line ≡ bare_google_line))
            ⊎ ((p : Bytes) × (compile p ≡ none))
      sort (line, there, inl e) = inl (line, there, e)
      sort (line, there, inr q) = inr q
