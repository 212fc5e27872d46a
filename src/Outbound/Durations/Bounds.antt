-- ===== src/Outbound/Durations/Bounds.antt =====
-- What durations `parseDuration` accepts.
use ts_dns.Common.{
  ℕ, zero, suc, ◌+◌, ◌-◌, ◌*◌, ◌%◌, ◌^◌, ◌<◌, ◌≡◌, refl, ap, ◌∙◌, true, false, Option, none, some,
  [], ◌∷◌, ◌++◌, arith, if◌then◌else◌, ltb, leb, ◌&&◌, ℤ, Bytes, drop_last, drop_last-snoc, ◌>>=◌,
  Bool-cases, inl, inr,
}
use ts_dns.Outbound.Durations.{
  of_word, times_24, over_limit, positive_only, to_days, last_byte, parse_duration,
}

-- Below the limit the product does not wrap.
times_24-exact : (n : ℕ) → over_limit (ℤ.pos n) ≡ false → times_24 (ℤ.pos n) ≡ ℤ.pos (24 * n)
unfolding times_24
times_24-exact n h = ground arith

last_byte-snoc : (c x : ℕ) (s : Bytes) → last_byte x (s ++ c ∷ []) ≡ c
unfolding last_byte
last_byte-snoc c x [] = refl
last_byte-snoc c x (y ∷ s) = last_byte-snoc c y s

positive_only_pos : (w : ℕ) → 0 < w → positive_only (ℤ.pos w) ≡ some w
positive_only_pos zero h = absurd (omega arith)
positive_only_pos (suc w) h = refl

positive_only-of_word :
    (k : ℕ)
    → 2 ^ 63 < k % 2 ^ 64
    → positive_only (of_word ((2 ^ 64 - k % 2 ^ 64) % 2 ^ 64)) ≡ some (2 ^ 64 - k % 2 ^ 64)
positive_only-of_word k h =
    let w = 2 ^ 64 - k % 2 ^ 64 in
    let whole : w % 2 ^ 64 ≡ w = omega arith in
    let low : ltb w (2 ^ 63) ≡ true = ground arith in
    ap (λ v. positive_only (of_word v)) whole
    ∙ ap (λ b. positive_only (if b then ℤ.pos w else ℤ.negsuc (2 ^ 64 - 1 - w))) low
    ∙ positive_only_pos w (omega arith)

module _ (parse : Bytes → Option ℤ) where
  parse_duration-day :
      (num : Bytes)
      → parse_duration parse (num ++ b'd' ∷ [])
        ≡ (parse (num ++ b'h' ∷ []) >>= to_days >>= positive_only)
  unfolding parse_duration
  parse_duration-day [] = unfold drop_last in refl
  parse_duration-day (c ∷ num) = rw (last_byte-snoc b'd' c num, drop_last-snoc b'd' (c ∷ num))

  positive_only-days :
      (n : ℕ)
      → (to_days (ℤ.pos (suc n)) >>= positive_only)
        ≡ (if leb (24 * suc n) (2 ^ 63 - 1) then some (24 * suc n) else none)
  positive_only-days n = elim (Bool-cases (over_limit (ℤ.pos (suc n)))) [
    | inl over ↦ ground arith
    | inr below ↦ ground (arith, times_24-exact (suc n) below)
  ]

  days_from_zero :
      (n : ℕ)
      → (to_days (ℤ.pos n) >>= positive_only)
        ≡ (if ltb 0 n && leb (24 * n) (2 ^ 63 - 1) then some (24 * n) else none)
  days_from_zero zero = unfold times_24 in refl
  days_from_zero (suc n) = ground (arith, positive_only-days n)

  -- A number of hours' text with `d` in place of `h`, the number not negative, is accepted exactly if it is
  -- not zero and 24 times the hours fit an `int64`, and then as 24 times the hours, without a wrap.
  pub parse_duration-days :
      (num : Bytes) (n : ℕ)
      → parse (num ++ b'h' ∷ []) ≡ some (ℤ.pos n)
      → parse_duration parse (num ++ b'd' ∷ [])
        ≡ (if ltb 0 n && leb (24 * n) (2 ^ 63 - 1) then some (24 * n) else none)
  parse_duration-days num n h =
      parse_duration-day num ∙ ap (λ o. o >>= to_days >>= positive_only) h ∙ days_from_zero n

  -- A negative number of days is accepted as a positive duration where the product wraps: the hours'
  -- 24-fold lies between 2^63 and 2^64 modulo 2^64.
  pub parse_duration-negative :
      (num : Bytes) (n : ℕ)
      → parse (num ++ b'h' ∷ []) ≡ some (ℤ.negsuc n)
      → 2 ^ 63 < (24 * (n + 1)) % 2 ^ 64
      → parse_duration parse (num ++ b'd' ∷ []) ≡ some (2 ^ 64 - (24 * (n + 1)) % 2 ^ 64)
  unfolding times_24
  parse_duration-negative num n h wraps =
      parse_duration-day num
      ∙ ap (λ o. o >>= to_days >>= positive_only) h
      ∙ positive_only-of_word (24 * (n + 1)) wraps
