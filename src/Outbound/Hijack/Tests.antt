-- ===== src/Outbound/Hijack/Tests.antt =====
-- Runs of the hijack rules, and the theorems about them at concrete inputs.
use ts_dns.Common.{◌≡◌, ◌≢◌, refl, inl, some, [], ◌∷◌, All}
use ts_dns.Common.{codes, ends_with, equal_fold}
use ts_dns.Dns.{a, cname, Msg}
use ts_dns.Outbound.Hijack.{
  HijackRule, rewrite_request, rewrite_response, opt_only, clean_hijack_answer,
}
use ts_dns.Outbound.Hijack.Suffixes.{rewrite_round_trip, rewrite_response-dest}
use ts_dns.Outbound.Hijack.Cleans.{Answers, asked_ips, clean_hijack_answer_lem}
use ts_dns.Samples.{sample_dns, hdr, ask}

abbrev to_b : HijackRule
to_b = record { source = codes "a.cn."; dest = codes "b.cn." }

abbrev to_c : HijackRule
to_c = record { source = codes "b.cn."; dest = codes "c.org." }

-- A query below the destination goes out unchanged and comes back under another name.
renamed_back :
    (rewrite_request sample_dns (to_b ∷ []) (codes "x.b.cn.") ≡ codes "x.b.cn.")
    × (rewrite_response sample_dns (to_b ∷ []) (codes "x.b.cn.") ≡ codes "x.a.cn.")
unfolding rewrite_request rewrite_response
renamed_back = (refl, refl)

rewrite_round_trip_example :
    (rewrite_request sample_dns (to_b ∷ to_c ∷ []) (codes "x.a.cn.") ≡ codes "x.c.org.")
    × (rewrite_response sample_dns
          (to_b ∷ to_c ∷ [])
          (rewrite_request sample_dns (to_b ∷ to_c ∷ []) (codes "x.a.cn."))
        ≡ codes "x.a.cn.")
unfolding ends_with
rewrite_round_trip_example =
    rewrite_round_trip sample_dns b'x' [] (to_b ∷ to_c ∷ []) (codes "a.cn.") (codes "c.org.")
      (refl, (refl, refl, λ e. cc), (refl, (refl, refl, λ e. cc), (refl, (refl, refl, λ e. cc))))

rewrite_response-dest_example :
    (rewrite_request sample_dns (to_b ∷ []) (codes "x.b.cn.") ≡ codes "x.b.cn.")
    × (rewrite_response sample_dns (to_b ∷ []) (codes "x.b.cn.") ≡ codes "x.a.cn.")
    × (codes "x.a.cn." ≢ codes "x.b.cn.")
unfolding ends_with equal_fold
rewrite_response-dest_example =
    rewrite_response-dest sample_dns b'x' [] to_b (refl, refl, λ e. cc) (refl, refl, λ e. cc)
      (refl, refl)

abbrev response : Msg
response = record (ask (codes "x.a.cn.") 1) {
  answer = cname (hdr 5 60) (codes "x.b.cn.") ∷ a (hdr 1 60) (codes "1.1.1.1") ∷ [];
}

clean_hijack_answer_lem_example :
    (m' : Msg) × (clean_hijack_answer sample_dns (some response) ≡ some m')
    × All (Answers (record { name = codes "x.a.cn."; qtype = 1; qclass = 1 })) m'.answer
    × (asked_ips (record { name = codes "x.a.cn."; qtype = 1; qclass = 1 }) m'.answer
        ≡ asked_ips (record { name = codes "x.a.cn."; qtype = 1; qclass = 1 }) response.answer)
    × (m'.ns ≡ [])
    × (m'.extra ≡ opt_only (sample_dns.is_edns0 response))
    × (m'.question ≡ record { name = codes "x.a.cn."; qtype = 1; qclass = 1 } ∷ [])
clean_hijack_answer_lem_example =
    clean_hijack_answer_lem sample_dns response
      (record { name = codes "x.a.cn."; qtype = 1; qclass = 1 }) refl (inl refl) refl
