-- ===== src/Outbound/Hijack/Cleans.antt =====
-- What is left of a response that `cleanHijackAnswer` cleaned.
use ts_dns.Common.{◌≡◌, refl, ap, ◌∙◌, ◌⊎◌, false, not, ◌&&◌, some, List, [], ◌∷◌, arith}
use ts_dns.Common.{if◌then◌else◌, ◌==◌, All}
use ts_dns.Dns.{Ip, Rr, a, aaaa, cname, opt, other, type_a, type_aaaa, Question, Msg, DnsLib}
use ts_dns.Outbound.Hijack.{
  is_nil, clean_answers, opt_only, wants_dnssec, clean_with, clean_question, clean_hijack_answer,
}

-- The addresses of the records of the type that the question asks for.
pub asked_ips : Question → List Rr → List Ip
asked_ips q [] = []
asked_ips q (a h ip ∷ rest) =
    let ips = asked_ips q rest in if q.qtype == type_a then ip ∷ ips else ips
asked_ips q (aaaa h ip ∷ rest) =
    let ips = asked_ips q rest in if q.qtype == type_aaaa then ip ∷ ips else ips
asked_ips q (cname h t ∷ rest) = asked_ips q rest
asked_ips q (opt h os ∷ rest) = asked_ips q rest
asked_ips q (other h raw ∷ rest) = asked_ips q rest

-- A record of the type that the question asks for, under the question's name.
abbrev pub Answers : Question → Rr → Type 0
Answers q (a h ip) = (q.qtype ≡ type_a) × (h.name ≡ q.name)
Answers q (aaaa h ip) = (q.qtype ≡ type_aaaa) × (h.name ≡ q.name)
Answers q (cname h t) = ⊥
Answers q (opt h os) = ⊥
Answers q (other h raw) = ⊥

clean_answers-Answers : (q : Question) (xs : List Rr) → All (Answers q) (clean_answers q xs)
unfolding clean_answers
clean_answers-Answers q [] = tt
clean_answers-Answers q (a h ip ∷ rest) = ground (arith, clean_answers-Answers q rest)
clean_answers-Answers q (aaaa h ip ∷ rest) = ground (arith, clean_answers-Answers q rest)
clean_answers-Answers q (cname h t ∷ rest) = clean_answers-Answers q rest
clean_answers-Answers q (opt h os ∷ rest) = clean_answers-Answers q rest
clean_answers-Answers q (other h raw ∷ rest) = clean_answers-Answers q rest

asked_ips-clean_answers :
    (q : Question) (xs : List Rr) → asked_ips q (clean_answers q xs) ≡ asked_ips q xs
unfolding clean_answers asked_ips
asked_ips-clean_answers q [] = refl
asked_ips-clean_answers q (a h ip ∷ rest) = ground (arith, asked_ips-clean_answers q rest)
asked_ips-clean_answers q (aaaa h ip ∷ rest) = ground (arith, asked_ips-clean_answers q rest)
asked_ips-clean_answers q (cname h t ∷ rest) = asked_ips-clean_answers q rest
asked_ips-clean_answers q (opt h os ∷ rest) = asked_ips-clean_answers q rest
asked_ips-clean_answers q (other h raw ∷ rest) = asked_ips-clean_answers q rest

clean_with-is_nil :
    (dns : DnsLib) (m : Msg) (xs : List Rr)
    → (if is_nil xs then clean_with dns m [] else clean_with dns m xs) ≡ clean_with dns m xs
clean_with-is_nil dns m [] = refl
clean_with-is_nil dns m (x ∷ xs) = refl

clean_question_asked :
    (dns : DnsLib) (m : Msg) (q : Question)
    → (q.qtype ≡ type_a) ⊎ (q.qtype ≡ type_aaaa)
    → wants_dnssec dns (dns.is_edns0 m) ≡ false
    → clean_question dns m (q ∷ []) ≡ clean_with dns m (clean_answers q m.answer)
unfolding clean_question
clean_question_asked dns m q kind plain =
    let asked : (not (q.qtype == type_a) && not (q.qtype == type_aaaa)) ≡ false = ground arith in
    rw (asked, plain) (clean_with-is_nil dns m (clean_answers q m.answer))

-- A response to one question of type A or AAAA from a client that does not ask for DNSSEC keeps after
-- cleaning exactly the addresses of that type, in order, under the question's own name: no CNAME and
-- no record of another type is left, no authority record, and of the extras at most the OPT record.
pub clean_hijack_answer_lem :
    (dns : DnsLib) (m : Msg) (q : Question)
    → m.question ≡ q ∷ []
    → (q.qtype ≡ type_a) ⊎ (q.qtype ≡ type_aaaa)
    → wants_dnssec dns (dns.is_edns0 m) ≡ false
    → (m' : Msg) × (clean_hijack_answer dns (some m) ≡ some m')
      × All (Answers q) m'.answer
      × (asked_ips q m'.answer ≡ asked_ips q m.answer)
      × (m'.ns ≡ [])
      × (m'.extra ≡ opt_only (dns.is_edns0 m))
      × (m'.question ≡ q ∷ [])
unfolding clean_hijack_answer
clean_hijack_answer_lem dns m q one kind plain = (
  record m { answer = clean_answers q m.answer; ns = []; extra = opt_only (dns.is_edns0 m) },
  ap (λ qs. some (clean_question dns m qs)) one ∙ ap some (clean_question_asked dns m q kind plain),
  clean_answers-Answers q m.answer,
  asked_ips-clean_answers q m.answer,
  refl,
  refl,
  one,
)
