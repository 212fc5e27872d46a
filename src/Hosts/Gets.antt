-- ===== src/Hosts/Gets.antt =====
-- What `HostReader.Get` answers.
use ts_dns.Common.{
  ℕ, ◌≡◌, ◌≢◌, refl, sym, ap, ◌∙◌, not, ◌&&◌, Option, none, some, List, [], ◌∷◌, arith, ◌⊎◌, inl,
  inr,
}
use ts_dns.Common.{if-false, ◌==◌, All, All-map, In, Bytes, to_lower, Bool-cases}
use ts_dns.Dns.{Rr, Question, Msg, DnsLib, type_a, type_aaaa}
use ts_dns.Regexp.{RegexpLib}
use ts_dns.Hosts.{
  IpInfo, HostReader, record_text, find_ips, host_answers, cons_some, answer_with, empty_msg,
  get_question, get,
}

module _ (re : RegexpLib) (dns : DnsLib) (new_rr : Bytes → Option Rr) where
  -- An answer is the record of one of the addresses, of the type that is asked for.
  abbrev pub IsFrom : Bytes → ℕ → List IpInfo → Rr → Type 0
  IsFrom host qtype ips rr =
      (ip : IpInfo) × In ip ips × (ip.ip_type ≡ qtype) × (new_rr (record_text ip host) ≡ some rr)

  IsFrom-more :
      (host : Bytes) (qtype : ℕ) (x : IpInfo) (ips : List IpInfo) (xs : List Rr)
      → All (IsFrom host qtype ips) xs
      → All (IsFrom host qtype (x ∷ ips)) xs
  IsFrom-more host qtype x ips xs h =
      All-map (IsFrom host qtype ips) (IsFrom host qtype (x ∷ ips)) xs
        (λ rr (ip, i, t, e). (ip, inr i, t, e)) h

  cons_some-IsFrom :
      (host : Bytes) (qtype : ℕ) (x : IpInfo) (ips : List IpInfo) (o : Option Rr) (xs : List Rr)
      → new_rr (record_text x host) ≡ o
      → x.ip_type ≡ qtype
      → All (IsFrom host qtype (x ∷ ips)) xs
      → All (IsFrom host qtype (x ∷ ips)) (cons_some re dns new_rr o xs)
  cons_some-IsFrom host qtype x ips none xs e t h = h
  cons_some-IsFrom host qtype x ips (some rr) xs e t h = ((x, inl refl, t, e), h)

  host_answers-IsFrom :
      (host : Bytes) (qtype : ℕ) (ips : List IpInfo)
      → All (IsFrom host qtype ips) (host_answers re dns new_rr host qtype ips)
  unfolding host_answers
  host_answers-IsFrom host qtype [] = tt
  host_answers-IsFrom host qtype (x ∷ ips) =
      let more =
        IsFrom-more host qtype x ips (host_answers re dns new_rr host qtype ips)
          (host_answers-IsFrom host qtype ips) in
      elim (Bool-cases (x.ip_type == qtype)) [
        | inr off ↦ rw off more
        | inl on ↦ rw on (
            cons_some-IsFrom host qtype x ips (new_rr (record_text x host)) _ refl (ground arith)
              more)
      ]

  answer_with-parts :
      (req : Msg) (xs : List Rr) (r : Msg) (q : Question) (qs : List Question)
      → req.question ≡ q ∷ qs
      → answer_with re dns new_rr req xs ≡ some r
      → (r.answer ≡ xs) × (r.answer ≢ []) × (r.question ≡ q ∷ [])
  answer_with-parts req [] r q qs a h = cc
  answer_with-parts req (x ∷ xs) r q qs a h =
      let set = dns.set_reply_question (empty_msg re dns new_rr) req q qs a in
      (ground arith, ground arith, ground (arith, set))

  get_question-parts :
      (h : HostReader re.Regexp) (req r : Msg) (q : Question) (qs : List Question)
      (o : Option (List IpInfo))
      → req.question ≡ q ∷ qs
      → elim o [
        | none ↦ none
        | some ips ↦
            answer_with re dns new_rr req (host_answers re dns new_rr (to_lower q.name) q.qtype ips)
      ]
        ≡ some r
      → (ips : List IpInfo) × (o ≡ some ips)
        × All (IsFrom (to_lower q.name) q.qtype ips) r.answer
        × (r.answer ≢ [])
        × (r.question ≡ q ∷ [])
  get_question-parts h req r q qs none a e = cc
  get_question-parts h req r q qs (some ips) a e =
      let (same, some_left, asked) = answer_with-parts req _ r q qs a e in
      (ips, refl, rw same (host_answers-IsFrom (to_lower q.name) q.qtype ips), some_left, asked)

  -- A reply from the hosts is to a question of type A or AAAA, whose name in lower case has addresses in
  -- the tables; it repeats the first question, is not empty, and each of its answers is the record of
  -- one of these addresses that is of the type asked for.
  pub get-IsFrom :
      (h : HostReader re.Regexp) (req r : Msg) (q : Question) (qs : List Question)
      → req.question ≡ q ∷ qs
      → get re dns new_rr h req ≡ some r
      → ((q.qtype ≡ type_a) ⊎ (q.qtype ≡ type_aaaa))
        × ((ips : List IpInfo) × (find_ips re h (to_lower q.name) ≡ some ips)
            × All (IsFrom (to_lower q.name) q.qtype ips) r.answer)
        × (r.answer ≢ [])
        × (r.question ≡ q ∷ [])
  unfolding get
  get-IsFrom h req r q qs a e =
      let e' : get_question re dns new_rr h req (q ∷ qs) ≡ some r =
        ap (get_question re dns new_rr h req) (sym a) ∙ e in
      elim (Bool-cases (not (q.qtype == type_a) && not (q.qtype == type_aaaa))) [
        | inl off ↦ absurd (ground arith)
        | inr on ↦
            let (ips, found, from, left, asked) =
              get_question-parts h req r q qs (find_ips re h (to_lower q.name)) a
                (if-false _ none _ on e') in
            (ground arith, (ips, found, from), left, asked)
      ]
