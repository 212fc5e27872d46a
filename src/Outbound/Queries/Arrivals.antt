-- ===== src/Outbound/Queries/Arrivals.antt =====
-- Which caller's message a group gives, and which addresses are left in it.
use ts_dns.Common.{
  ℕ, ◌≡◌, ap, ◌∙◌, true, not, ◌⊎◌, inl, inr, Option, none, some, List, [], ◌∷◌, ◌++◌, arith, ◌≤◌,
}
use ts_dns.Common.{if◌then◌else◌, leb, length, keep, All, Bytes, Bool-cases, Option-cases}
use ts_dns.Dns.{Msg, DnsLib, NetLib}
use ts_dns.Utils.Loops.{delete_where, delete_where-keep}
use ts_dns.Outbound.Hijack.{process_hijack_rules}
use ts_dns.Outbound.Queries.{
  CallResult, answered, canceled, failed, GroupConf, is_slower, collect_ips, ping_limit,
  keep_fastest,
}

module _ (dns : DnsLib) (net : NetLib) (g : GroupConf) (call : ℕ → Msg → CallResult) where
  -- A result that gives a group no message.
  abbrev pub IsMiss : CallResult → Type 0
  IsMiss (answered m) = process_hijack_rules dns g.hijack_rules (some m) true ≡ none
  IsMiss canceled = Unit
  IsMiss failed = Unit

  -- The message comes from the first arrival that has one, with the hijack rules undone.
  abbrev pub IsFirst : Msg → List (ℕ × ℕ) → Msg → ℕ → ℕ → Type 0
  IsFirst req arrivals r i t =
      (before after : List (ℕ × ℕ)) × (m : Msg) × (arrivals ≡ before ++ (i, t) ∷ after)
      × All (λ (j, u). IsMiss (call j req)) before
      × (call i req ≡ answered m)
      × (process_hijack_rules dns g.hijack_rules (some m) true ≡ some r)

  -- `fastestResp` leaves the message as it is, or deletes from its answers exactly the records of the
  -- type asked for whose address is not the one that was measured as the fastest of at least two
  -- collected addresses; the other answers keep their order.
  pub keep_fastest-keep :
      (measure : List Bytes → Option Bytes) (qtype : ℕ) (m : Msg)
      → (keep_fastest dns net g call measure qtype m ≡ m)
        ⊎ ((fastest : Bytes) × (measure
                (collect_ips net qtype (ping_limit g.max_ping_ips) [] m.answer)
              ≡ some fastest)
            × (2 ≤ length (collect_ips net qtype (ping_limit g.max_ping_ips) [] m.answer))
            × (keep_fastest dns net g call measure qtype m
                ≡ record m { answer = keep (λ rr. not (is_slower net qtype fastest rr)) m.answer }))
  unfolding keep_fastest
  keep_fastest-keep measure qtype m =
      let ips = collect_ips net qtype (ping_limit g.max_ping_ips) [] m.answer in
      let with_best : Option Bytes → Msg = λ o. elim o [
        | none ↦ m
        | some f ↦ record m { answer = delete_where (is_slower net qtype f) m.answer }
      ] in
      elim (Bool-cases (leb (length ips) 1)) [
        | inl few ↦ inl (ap (λ b. if b then m else with_best (measure ips)) few)
        | inr more ↦ elim (Option-cases (measure ips)) [
          | inl off ↦
              inl (ap (λ b. if b then m else with_best (measure ips)) more ∙ ap with_best off)
          | inr (f, on) ↦ inr (
            f,
            on,
            ground arith,
            ap (λ b. if b then m else with_best (measure ips)) more
                ∙ ap with_best on
                ∙ ap (λ xs. record m { answer = xs })
                    (delete_where-keep (is_slower net qtype f) m.answer),
          )
        ]
      ]
